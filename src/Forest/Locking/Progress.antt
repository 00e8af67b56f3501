-- ===== src/Forest/Locking/Progress.antt =====
-- The two goroutines go on where no shard is split.
use native.Mathlib.Decide.{dec_lt}
use blockchain_test.Prelude.{
  ℕ, suc, ◌+◌, ◌-◌, ◌*◌, ◌<◌, ◌≡◌, ◌⊎◌, inl, inr, refl, false, arith, Bool-cases,
}
use blockchain_test.Forest.Locking.{
  Plan, Adding, adding, visiting, inside, chosen, filling, waiting, splitting, added, Merging,
  asleep, reading, at_shard, picked, first_held, both_held, merged, adder_reads, adder_writes,
  adder_reads_shard, adder_writes_shard, merger_writes, merger_writes_shard, AddStep, read_forest,
  visit_shard, leave_shard, choose_best, lock_best, keep, overflow, lock_forest, release, MergeStep,
  wake, read_shard, next_shard, too_few, pick, lock_first, lock_second, release_all, Step, adder,
  merger, Reach,
}
use blockchain_test.Forest.Locking.Invariant.{AdderIn, MergerIn, Apart, Reach-kept}

module _ (p : Plan) where
  -- A goroutine that the other does not hold up goes on.
  abbrev MergerGoes : Adding → Merging → Type 0
  MergerGoes a m = (m ≡ merged) ⊎ ((m' : Merging) × MergeStep p a m m')

  -- The first goroutine holds no lock.
  abbrev Free : Adding → Type 0
  Free a =
      (adder_reads a ≡ false)
      × (adder_writes a ≡ false)
      × ((id : ℕ) → (adder_reads_shard p a id ≡ false) × (adder_writes_shard p a id ≡ false))

  merger_goes : (a : Adding) (m : Merging) → Free a → MergerIn p m → MergerGoes a m
  unfolding MergerIn
  merger_goes a asleep (r, w, f) h = inr (reading 0, wake r w)
  merger_goes a (reading i) (r, w, f) h = elim (dec_lt i p.read) [
    | yes more ↦ inr (at_shard i, read_shard more (f (p.reads i)).1)
    | no end ↦ elim (Bool-cases p.merges) [
      | inl two ↦ inr (picked, pick (omega arith) two)
      | inr one ↦ inr (merged, too_few (omega arith) one)
    ]
  ]
  merger_goes a (at_shard i) (r, w, f) h = inr (_, next_shard)
  merger_goes a picked (r, w, f) h = inr (_, lock_first (f p.first).0 (f p.first).1)
  merger_goes a first_held (r, w, f) h = inr (_, lock_second (f p.second).0 (f p.second).1)
  merger_goes a both_held (r, w, f) h = inr (_, release_all)
  merger_goes a merged (r, w, f) h = inl refl

  -- Without the mutex of the forest the second goroutine holds that of no shard.
  quiet : (m : Merging) (id : ℕ) → merger_writes m ≡ false → merger_writes_shard p m id ≡ false
  quiet asleep id h = refl
  quiet (reading i) id h = refl
  quiet (at_shard i) id h = refl
  quiet picked id h = refl
  quiet first_held id h = absurd (cc)
  quiet both_held id h = absurd (cc)
  quiet merged id h = refl

  -- Both are at their ends, or one of them takes a step.
  abbrev pub GoesOn : Adding → Merging → Type 0
  GoesOn a m = ((a ≡ added) × (m ≡ merged)) ⊎ ((a' : Adding) × (m' : Merging) × Step p a m a' m')

  -- Where the first goroutine holds no lock, and goes on after the second has ended.
  goes_on-Free :
      (a : Adding) (m : Merging) → Free a → MergerIn p m → (m ≡ merged → GoesOn a m) → GoesOn a m
  goes_on-Free a m free h after = elim (merger_goes a m free h) [
    | inl e ↦ after e
    | inr (m', s) ↦ inr (a, m', merger s)
  ]

  goes_on :
      (a : Adding) (m : Merging)
      → p.splits ≡ false
      → AdderIn p a
      → MergerIn p m
      → Apart p a m
      → GoesOn a m
  unfolding AdderIn
  goes_on adding m never a h apart =
      goes_on-Free adding m (refl, refl, λ id. (refl, refl)) h
        (λ e. inr (visiting 0, m, adder (read_forest (rw e refl))))
  goes_on (visiting i) m never a h apart = elim (dec_lt i p.visited) [
    | yes more ↦ inr (inside i, m, adder (visit_shard more (quiet m (p.visit i) apart)))
    | no end ↦ inr (chosen, m, adder (choose_best (omega arith)))
  ]
  goes_on (inside i) m never a h apart = inr (visiting (suc i), m, adder leave_shard)
  goes_on chosen m never a h apart =
      goes_on-Free chosen m (refl, refl, λ id. (refl, refl)) h
        (λ e. inr (filling, m, adder (lock_best (rw e refl) (rw e refl))))
  goes_on filling m never a h apart = inr (added, m, adder (keep never))
  goes_on waiting m never a h apart = absurd (cc)
  goes_on splitting m never a h apart = absurd (cc)
  goes_on added m never a h apart =
      goes_on-Free added m (refl, refl, λ id. (refl, refl)) h (λ e. inl (refl, e))

  -- The operations on locks that are left.
  abbrev pub adding_left : Adding → ℕ
  adding_left adding = 2 * p.visited + 6
  adding_left (visiting i) = 2 * (p.visited - i) + 5
  adding_left (inside i) = 2 * (p.visited - i) + 4
  adding_left chosen = 4
  adding_left filling = 3
  adding_left waiting = 2
  adding_left splitting = 1
  adding_left added = 0

  abbrev pub merging_left : Merging → ℕ
  merging_left asleep = 2 * p.read + 5
  merging_left (reading i) = 2 * (p.read - i) + 4
  merging_left (at_shard i) = 2 * (p.read - i) + 3
  merging_left picked = 3
  merging_left first_held = 2
  merging_left both_held = 1
  merging_left merged = 0

  adding_left-less :
      {a a' : Adding} {m : Merging}
      → AddStep p m a a'
      → AdderIn p a
      → adding_left a' < adding_left a
  unfolding AdderIn
  adding_left-less (read_forest free) h = omega arith
  adding_left-less (visit_shard more free) h = omega arith
  adding_left-less leave_shard h = omega arith
  adding_left-less (choose_best e) h = omega arith
  adding_left-less (lock_best r w) h = omega arith
  adding_left-less (keep e) h = omega arith
  adding_left-less (overflow e) h = omega arith
  adding_left-less (lock_forest free) h = omega arith
  adding_left-less release h = omega arith

  merging_left-less :
      {a : Adding} {m m' : Merging}
      → MergeStep p a m m'
      → MergerIn p m
      → merging_left m' < merging_left m
  unfolding MergerIn
  merging_left-less (wake r w) h = omega arith
  merging_left-less (read_shard more free) h = omega arith
  merging_left-less next_shard h = omega arith
  merging_left-less (too_few e one) h = omega arith
  merging_left-less (pick e two) h = omega arith
  merging_left-less (lock_first r w) h = omega arith
  merging_left-less (lock_second r w) h = omega arith
  merging_left-less release_all h = omega arith

  left-less :
      {a a' : Adding} {m m' : Merging}
      → Step p a m a' m'
      → AdderIn p a
      → MergerIn p m
      → adding_left a' + merging_left m' < adding_left a + merging_left m
  left-less (adder s) a m = omega (arith, adding_left-less s a)
  left-less (merger s) a m = omega (arith, merging_left-less s m)

  -- As long as `AddData` stays within the threshold, so that nothing is split, one of the two
  -- goroutines can take a step in every state that is reached, until both have ended; and every step
  -- leaves fewer operations on locks to do, so that they do end.
  pub locking_progress :
      {a : Adding} {m : Merging}
      → p.splits ≡ false
      → Reach p a m
      → GoesOn a m
        × ((a' : Adding) (m' : Merging)
            → Step p a m a' m'
            → adding_left a' + merging_left m' < adding_left a + merging_left m)
  locking_progress {a} {m} never r =
      let (in_a, in_m, apart) = Reach-kept p r in
      (goes_on a m never in_a in_m apart, λ a' m' s. left-less s in_a in_m)
