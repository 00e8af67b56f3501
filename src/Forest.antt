-- ===== src/Forest.antt =====
-- `AdaptiveMerkleForest` of Blockchain/adaptive_merkle_forest.go: shards that grow, split and merge.
-- A pointer to a shard is its position in `Shards`, the only place that holds it. A method runs under
-- its mutexes, so it is one step. The clock and the identifiers that `fmt.Sprintf` makes from it are
-- arguments.
pub mod Adding
pub mod Proving
pub mod Splitting
pub mod Locking
pub mod Merging
use blockchain_test.Prelude.{
  ℕ, zero, suc, ◌+◌, ◌-◌, ◌*◌, ◌/◌, ◌^◌, Bool, true, false, ◌&&◌, ◌||◌, not, Option, none, some,
  String, str_eq, List, [], ◌∷◌, ◌++◌, length, get_elem?, set, ltb, leb, ◌==◌, if◌then◌else◌,
}
use blockchain_test.Prelude.Int.{ℤ, pos, ltb_ℤ, ◌-ℤ◌}
use blockchain_test.Prelude.Bytes.{Bytes, bytes_equal}
use blockchain_test.Outcome.{Result, ok, panic, nil_pointer, ◌>>=◌}
use blockchain_test.Merkle.{MerkleNode, node_hash, build_merkle_tree}
use blockchain_test.Slices.{Memory, Slice, contents, slice_to, slice_from, append_items}

-- `ComputationLoad` never passes the threshold by more than one, so it does not wrap.
pub record Shard : Type 0 where
  pub id : String
  pub root : Option MerkleNode
  pub items : Slice
  pub load : ℕ
  pub last_accessed : ℤ

-- The memory holds the arrays of the shards' `Data`.
pub record Forest : Type 0 where
  pub shards : List Shard
  pub memory : Memory

abbrev pub shard_threshold : ℕ
shard_threshold = 100

-- Five minutes, in nanoseconds.
abbrev pub merge_interval : ℤ
merge_interval = pos (5 * 60 * 10 ^ 9)

abbrev pub empty_slice : Slice
empty_slice = record { array = 0; offset = 0; len = 0; cap = 0 }

-- The forest that `NewAdaptiveMerkleForest` makes. The array of `make([][]byte, 0)` has no room.
unfoldable pub new_forest : ℤ → Forest
new_forest now = record {
  shards =
      record { id = "root"; root = none; items = empty_slice; load = 0; last_accessed = now } ∷ [];
  memory = [] ∷ [];
}

-- The first shard with the least load below `min_load`, from position `i` on.
unfoldable pub optimal_from : ℕ → ℕ → Option ℕ → List Shard → Option ℕ
optimal_from i min_load best [] = best
optimal_from i min_load best (s ∷ shards) =
    optimal_from (i + 1) (if ltb s.load min_load then s.load else min_load)
      (if ltb s.load min_load then some i else best) shards

unfoldable pub find_optimal_shard : List Shard → Option ℕ
unfolding optimal_from
find_optimal_shard shards = optimal_from 0 (2 ^ 63 - 1) none shards

-- Removes the first shard with the identifier.
unfoldable pub remove_shard : String → List Shard → List Shard
remove_shard id [] = []
remove_shard id (s ∷ shards) = if str_eq s.id id then shards else s ∷ remove_shard id shards

-- What the runtime and the clock decide during one call.
pub record Moment : Type 0 where
  -- `time.Now()`
  pub now : ℤ
  -- the identifiers that `fmt.Sprintf` makes of a shard's identifier and the time
  pub left_id : String → String
  pub right_id : String → String
  pub merged_id : String
  -- the room that `append` leaves in a new array for so many items
  pub spare : ℕ → ℕ

module _ (sha256 : Bytes → Bytes) where
  unfoldable pub half_shard : String → ℤ → Memory → Slice → Shard
  half_shard id now m items = record {
    id = id;
    root = build_merkle_tree sha256 (contents m items);
    items = items;
    load = 0;
    last_accessed = now;
  }

  unfoldable pub split_shard : Moment → Forest → Shard → Forest
  unfolding half_shard remove_shard
  split_shard t f shard =
      let mid_point = shard.items.len / 2 in
      record f {
        shards =
            remove_shard shard.id f.shards
            ++ half_shard (t.left_id shard.id) t.now f.memory (slice_to mid_point shard.items)
              ∷ half_shard (t.right_id shard.id) t.now f.memory (slice_from mid_point shard.items)
              ∷ [];
      }

  unfoldable pub grown_shard : Moment → Memory → Shard → Bytes → Memory × Shard
  grown_shard t m shard item =
      let (m', items) = append_items t.spare m shard.items (item ∷ []) in
      (
        m',
        record {
          id = shard.id;
          root = build_merkle_tree sha256 (contents m' items);
          items = items;
          load = shard.load + 1;
          last_accessed = t.now;
        },
      )

  unfoldable pub add_to : Moment → Forest → ℕ → Shard → Bytes → Forest
  unfolding grown_shard split_shard
  add_to t f i shard item =
      let (m, grown) = grown_shard t f.memory shard item in
      let f' : Forest = record { shards = set f.shards i grown; memory = m } in
      if ltb shard_threshold grown.load then split_shard t f' grown else f'

  add_found : Moment → Forest → ℕ → Bytes → Option Shard → Result Forest
  add_found t f i item none = panic nil_pointer
  add_found t f i item (some shard) = ok (add_to t f i shard item)

  add_optimal : Moment → Forest → Bytes → Option ℕ → Result Forest
  unfolding add_found
  add_optimal t f item none = panic nil_pointer
  add_optimal t f item (some i) = add_found t f i item (get_elem? f.shards i)

  unfoldable pub add_data : Moment → Bytes → Forest → Result Forest
  unfolding add_optimal add_to find_optimal_shard
  add_data t item f = add_optimal t f item (find_optimal_shard f.shards)

  -- `Sub` stops at the largest duration, which is above the interval too.
  -- `now.Sub(shard.LastAccessed) > amf.mergeInterval && shard.ComputationLoad < amf.shardThreshold/2`
  unfoldable pub idle : ℤ → Shard → Bool
  idle now s = ltb_ℤ merge_interval (now -ℤ s.last_accessed) && ltb s.load (shard_threshold / 2)

  unfoldable pub idle_shards : ℤ → List Shard → List Shard
  unfolding idle
  idle_shards now [] = []
  idle_shards now (s ∷ shards) =
      let rest = idle_shards now shards in if idle now s then s ∷ rest else rest

  unfoldable pub keep_others : String → String → List Shard → List Shard
  keep_others a b [] = []
  keep_others a b (s ∷ shards) =
      let rest = keep_others a b shards in
      if not (str_eq s.id a) && not (str_eq s.id b) then s ∷ rest else rest

  unfoldable pub merge_pair : Moment → Forest → List Shard → Forest
  unfolding keep_others half_shard
  merge_pair t f [] = f
  merge_pair t f (a ∷ []) = f
  merge_pair t f (a ∷ b ∷ others) =
      let (m, items) = append_items t.spare f.memory a.items (contents f.memory b.items) in
      record {
        shards = keep_others a.id b.id f.shards ++ half_shard t.merged_id t.now m items ∷ [];
        memory = m;
      }

  unfoldable pub merge_low_activity_shards : Moment → Forest → Forest
  unfolding merge_pair idle_shards
  merge_low_activity_shards t f =
      if leb (length f.shards) 1 then f else merge_pair t f (idle_shards t.now f.shards)

  -- A tick of the monitor at each of the moments.
  unfoldable pub run_shard_monitor : List Moment → Forest → Forest
  unfolding merge_low_activity_shards
  run_shard_monitor [] f = f
  run_shard_monitor (t ∷ ticks) f = run_shard_monitor ticks (merge_low_activity_shards t f)

unfoldable pub has_item : Bytes → List Bytes → Bool
has_item item [] = false
has_item item (x ∷ xs) = bytes_equal x item || has_item item xs

unfoldable pub shard_with : Memory → Bytes → List Shard → Option Shard
unfolding has_item
shard_with m item [] = none
shard_with m item (s ∷ shards) =
    if has_item item (contents m s.items) then some s else shard_with m item shards

proof_of_root : Option MerkleNode → Result (Option (List Bytes))
proof_of_root none = panic nil_pointer
proof_of_root (some t) = ok (some (node_hash t ∷ []))

unfoldable pub proof_of : Option Shard → Result (Option (List Bytes))
unfolding proof_of_root
proof_of none = ok none
proof_of (some s) = proof_of_root s.root

-- `none` is the pair `nil, false`.
unfoldable pub generate_merkle_proof : Bytes → Forest → Result (Option (List Bytes))
unfolding shard_with proof_of
generate_merkle_proof item f = proof_of (shard_with f.memory item f.shards)
