-- ===== src/Tests/Goroutines.antt =====
-- Two goroutines on a forest of two shards.
use blockchain_test.Prelude.{◌+◌, ◌<◌, refl, Bool, true, false, arith}
use blockchain_test.Forest.Locking.{
  Plan, Adding, inside, waiting, Merging, asleep, reading, read_forest, visit_shard, Step, adder,
  Reach, start, later,
}
use blockchain_test.Forest.Locking.Deadlock.{locking_deadlock}
use blockchain_test.Forest.Locking.Progress.{GoesOn, adding_left, merging_left, locking_progress}

-- Both visit the shards in their order, and the first shard is chosen.
abbrev plan : Bool → Plan
plan splits = record {
  visited = 2;
  visit = λ i. i;
  best = 0;
  splits = splits;
  read = 2;
  reads = λ i. i;
  merges = true;
  first = 0;
  second = 1;
}

locking_deadlock_example :
    Reach (plan true) waiting (reading 0)
    × ((a : Adding) (m : Merging) → Step (plan true) waiting (reading 0) a m → ⊥)
locking_deadlock_example = locking_deadlock (plan true) 0 refl (omega arith) refl

in_first : Reach (plan false) (inside 0) asleep
in_first = later (later start (adder (read_forest refl))) (adder (visit_shard (omega arith) refl))

locking_progress_example :
    GoesOn (plan false) (inside 0) asleep
    × ((a' : Adding) (m' : Merging)
        → Step (plan false) (inside 0) asleep a' m'
        → adding_left (plan false) a' + merging_left (plan false) m'
          < adding_left (plan false) (inside 0) + merging_left (plan false) asleep)
locking_progress_example = locking_progress (plan false) refl in_first
