-- ===== src/Forest/Locking/Invariant.antt =====
-- What holds of the two goroutines in every state that is reached.
use blockchain_test.Prelude.{◌≤◌, ◌<◌, ◌≡◌, refl, true, false, ◌||◌, ◌&&◌, arith}
use blockchain_test.Forest.Locking.{
  Plan, Adding, visiting, inside, waiting, splitting, Merging, reading, at_shard, adder_reads,
  adder_writes, merger_writes, AddStep, read_forest, visit_shard, leave_shard, choose_best,
  lock_best, keep, overflow, lock_forest, release, MergeStep, wake, read_shard, next_shard, too_few,
  pick, lock_first, lock_second, release_all, adder, merger, Reach, start, later,
}

module _ (p : Plan) where
  unfoldable pub AdderIn : Adding → Type 0
  AdderIn (visiting i) = i ≤ p.visited
  AdderIn (inside i) = i < p.visited
  AdderIn waiting = p.splits ≡ true
  AdderIn splitting = p.splits ≡ true
  AdderIn _ = Unit

  unfoldable pub MergerIn : Merging → Type 0
  MergerIn (reading i) = i ≤ p.read
  MergerIn (at_shard i) = i < p.read
  MergerIn _ = Unit

  -- The two never hold the mutex of the forest together.
  abbrev pub Apart : Adding → Merging → Type 0
  Apart a m = ((adder_reads a || adder_writes a) && merger_writes m) ≡ false

  AdderIn-step : {a a' : Adding} {m : Merging} → AddStep p m a a' → AdderIn a → AdderIn a'
  unfolding AdderIn
  AdderIn-step (read_forest free) h = omega arith
  AdderIn-step (visit_shard more free) h = more
  AdderIn-step leave_shard h = omega arith
  AdderIn-step (choose_best e) h = tt
  AdderIn-step (lock_best r w) h = tt
  AdderIn-step (keep e) h = tt
  AdderIn-step (overflow e) h = e
  AdderIn-step (lock_forest free) h = h
  AdderIn-step release h = tt

  Apart-adder : {a a' : Adding} {m : Merging} → AddStep p m a a' → Apart a m → Apart a' m
  Apart-adder (read_forest free) h = free
  Apart-adder (visit_shard more free) h = h
  Apart-adder leave_shard h = h
  Apart-adder (choose_best e) h = refl
  Apart-adder (lock_best r w) h = refl
  Apart-adder (keep e) h = refl
  Apart-adder (overflow e) h = refl
  Apart-adder (lock_forest free) h = free
  Apart-adder release h = refl

  MergerIn-step : {a : Adding} {m m' : Merging} → MergeStep p a m m' → MergerIn m → MergerIn m'
  unfolding MergerIn
  MergerIn-step (wake r w) h = omega arith
  MergerIn-step (read_shard more free) h = more
  MergerIn-step next_shard h = omega arith
  MergerIn-step (too_few e one) h = tt
  MergerIn-step (pick e two) h = tt
  MergerIn-step (lock_first r w) h = tt
  MergerIn-step (lock_second r w) h = tt
  MergerIn-step release_all h = tt

  Apart-merger : {a : Adding} {m m' : Merging} → MergeStep p a m m' → Apart a m → Apart a m'
  Apart-merger (wake r w) h = rw (r, w) refl
  Apart-merger (read_shard more free) h = h
  Apart-merger next_shard h = h
  Apart-merger (too_few e one) h = ground arith
  Apart-merger (pick e two) h = h
  Apart-merger (lock_first r w) h = h
  Apart-merger (lock_second r w) h = h
  Apart-merger release_all h = ground arith

  -- What holds in every state that is reached.
  pub Reach-kept : {a : Adding} {m : Merging} → Reach p a m → AdderIn a × MergerIn m × Apart a m
  unfolding AdderIn MergerIn
  Reach-kept start = (tt, tt, refl)
  Reach-kept (later r (adder s)) =
      let (a, m, apart) = Reach-kept r in (AdderIn-step s a, m, Apart-adder s apart)
  Reach-kept (later r (merger s)) =
      let (a, m, apart) = Reach-kept r in (a, MergerIn-step s m, Apart-merger s apart)
