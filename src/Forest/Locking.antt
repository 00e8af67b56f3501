-- ===== src/Forest/Locking.antt =====
-- The locks that `AddData` and `mergeLowActivityShards` of Blockchain/adaptive_merkle_forest.go take:
-- the first runs in the goroutine that adds a block, the second in the one of `runShardMonitor`. A
-- phase is a place between two operations on locks, and the locks held are those of the phase.
pub mod Deadlock
pub mod Invariant
pub mod Progress
use blockchain_test.Prelude.{ℕ, suc, ◌+◌, ◌<◌, ◌≡◌, Bool, true, false, ◌==◌, ◌||◌}

-- The shards that the two goroutines meet, by number: those that `findOptimalShard` visits, and the
-- one it chooses; whether the load is then above the threshold; those that the loop for candidates
-- reads; whether there are two candidates, and the two.
pub record Plan : Type 0 where
  pub visited : ℕ
  pub visit : ℕ → ℕ
  pub best : ℕ
  pub splits : Bool
  pub read : ℕ
  pub reads : ℕ → ℕ
  pub merges : Bool
  pub first : ℕ
  pub second : ℕ

-- `visiting i` and `reading i` are before the `RLock` of a shard, `inside i` and `at_shard i` after it.
pub data Adding : Type 0 where
  adding : Adding
  visiting inside : ℕ → Adding
  chosen filling waiting splitting added : Adding

pub data Merging : Type 0 where
  asleep : Merging
  reading at_shard : ℕ → Merging
  picked first_held both_held merged : Merging

-- `amf.mutex`, held for reading and for writing.
abbrev pub adder_reads : Adding → Bool
adder_reads (visiting i) = true
adder_reads (inside i) = true
adder_reads _ = false

abbrev pub adder_writes : Adding → Bool
adder_writes splitting = true
adder_writes _ = false

abbrev pub merger_writes : Merging → Bool
merger_writes asleep = false
merger_writes merged = false
merger_writes _ = true

module _ (p : Plan) where
  -- The mutex of the shard `id`, held for reading and for writing.
  abbrev pub adder_reads_shard : Adding → ℕ → Bool
  adder_reads_shard (inside i) id = p.visit i == id
  adder_reads_shard _ id = false

  abbrev pub adder_writes_shard : Adding → ℕ → Bool
  adder_writes_shard filling id = p.best == id
  adder_writes_shard waiting id = p.best == id
  adder_writes_shard splitting id = p.best == id
  adder_writes_shard _ id = false

  abbrev pub merger_reads_shard : Merging → ℕ → Bool
  merger_reads_shard (at_shard i) id = p.reads i == id
  merger_reads_shard _ id = false

  abbrev pub merger_writes_shard : Merging → ℕ → Bool
  merger_writes_shard first_held id = p.first == id
  merger_writes_shard both_held id = p.first == id || p.second == id
  merger_writes_shard _ id = false

  -- The steps of the first goroutine, the other at `m`. `Lock` waits for both kinds of holders, and
  -- `RLock` for a writer.
  pub data AddStep (m : Merging) : Adding → Adding → Type 0 where
    read_forest : merger_writes m ≡ false → AddStep m adding (visiting 0)
    visit_shard :
        {i : ℕ}
        → i < p.visited
        → merger_writes_shard m (p.visit i) ≡ false
        → AddStep m (visiting i) (inside i)
    leave_shard : {i : ℕ} → AddStep m (inside i) (visiting (suc i))
    choose_best : {i : ℕ} → i ≡ p.visited → AddStep m (visiting i) chosen
    lock_best :
        merger_reads_shard m p.best ≡ false
        → merger_writes_shard m p.best ≡ false
        → AddStep m chosen filling
    keep : p.splits ≡ false → AddStep m filling added
    overflow : p.splits ≡ true → AddStep m filling waiting
    lock_forest : merger_writes m ≡ false → AddStep m waiting splitting
    release : AddStep m splitting added

  -- The steps of the second, the other at `a`.
  pub data MergeStep (a : Adding) : Merging → Merging → Type 0 where
    wake : adder_reads a ≡ false → adder_writes a ≡ false → MergeStep a asleep (reading 0)
    read_shard :
        {i : ℕ}
        → i < p.read
        → adder_writes_shard a (p.reads i) ≡ false
        → MergeStep a (reading i) (at_shard i)
    next_shard : {i : ℕ} → MergeStep a (at_shard i) (reading (suc i))
    too_few : {i : ℕ} → i ≡ p.read → p.merges ≡ false → MergeStep a (reading i) merged
    pick : {i : ℕ} → i ≡ p.read → p.merges ≡ true → MergeStep a (reading i) picked
    lock_first :
        adder_reads_shard a p.first ≡ false
        → adder_writes_shard a p.first ≡ false
        → MergeStep a picked first_held
    lock_second :
        adder_reads_shard a p.second ≡ false
        → adder_writes_shard a p.second ≡ false
        → MergeStep a first_held both_held
    release_all : MergeStep a both_held merged

  pub data Step : Adding → Merging → Adding → Merging → Type 0 where
    adder : {a a' : Adding} {m : Merging} → AddStep m a a' → Step a m a' m
    merger : {a : Adding} {m m' : Merging} → MergeStep a m m' → Step a m a m'

  -- The states that are reached from the start of the two calls.
  pub data Reach : Adding → Merging → Type 0 where
    start : Reach adding asleep
    later : {a a' : Adding} {m m' : Merging} → Reach a m → Step a m a' m' → Reach a' m'
