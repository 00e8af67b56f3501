-- ===== src/Forest/Locking/Deadlock.antt =====
-- How the two goroutines come to wait for each other.
use blockchain_test.Prelude.{ℕ, zero, suc, ◌≤◌, ◌<◌, ◌≡◌, refl, true, arith}
use blockchain_test.Forest.Locking.{
  Plan, Adding, visiting, chosen, waiting, Merging, asleep, reading, AddStep, read_forest,
  visit_shard, leave_shard, choose_best, lock_best, overflow, lock_forest, MergeStep, wake,
  read_shard, next_shard, too_few, pick, Step, adder, merger, Reach, start, later,
}

module _ (p : Plan) where
  visits : (i : ℕ) → i ≤ p.visited → Reach p (visiting i) asleep
  visits zero h = later start (adder (read_forest refl))
  visits (suc i) h =
      later (later (visits i (omega arith)) (adder (visit_shard (omega arith) refl)))
        (adder leave_shard)

  chooses : Reach p chosen asleep
  chooses = later (visits p.visited (omega arith)) (adder (choose_best refl))

  reads_upto : (i : ℕ) → i ≤ p.read → Reach p chosen (reading i)
  reads_upto zero h = later chooses (merger (wake refl refl))
  reads_upto (suc i) h =
      later (later (reads_upto i (omega arith)) (merger (read_shard (omega arith) refl)))
        (merger next_shard)

  stuck-adder : (i : ℕ) (a : Adding) → AddStep p (reading i) waiting a → ⊥
  stuck-adder i a (lock_forest free) = cc

  stuck-merger :
      (i : ℕ) (m : Merging)
      → i < p.read
      → p.reads i ≡ p.best
      → MergeStep p waiting (reading i) m
      → ⊥
  stuck-merger i m h same (read_shard more free) = ground (arith, same, free)
  stuck-merger i m h same (too_few e one) = omega arith
  stuck-merger i m h same (pick e some_two) = omega arith

  stuck :
      (i : ℕ) (a : Adding) (m : Merging)
      → i < p.read
      → p.reads i ≡ p.best
      → Step p waiting (reading i) a m
      → ⊥
  stuck i a m h same (adder s) = stuck-adder i a s
  stuck i a m h same (merger s) = stuck-merger i m h same s

  -- If `AddData` fills its shard above the threshold, and the loop for candidates reads that shard, a
  -- state is reached in which no step is possible: `splitShard` waits for the mutex of the forest, and
  -- `mergeLowActivityShards`, which holds it, for that of the shard.
  pub locking_deadlock :
      (i : ℕ)
      → p.splits ≡ true
      → i < p.read
      → p.reads i ≡ p.best
      → Reach p waiting (reading i)
        × ((a : Adding) (m : Merging) → Step p waiting (reading i) a m → ⊥)
  locking_deadlock i splits h same = (
    later (later (reads_upto i (omega arith)) (adder (lock_best refl refl)))
        (adder (overflow splits)),
    λ a m s. stuck i a m h same s,
  )
