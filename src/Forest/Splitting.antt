-- ===== src/Forest/Splitting.antt =====
-- `splitShard` and the next `AddData`: the halves share an array.
use blockchain_test.Prelude.{
  suc, ◌/◌, ◌<◌, ◌≡◌, refl, some, List, [], ◌∷◌, ◌++◌, arith, length, get_elem?, set, drop,
}
use blockchain_test.Prelude.Bytes.{Bytes}
use blockchain_test.Outcome.{ok}
use blockchain_test.Slices.{IsSlice, contents, slice_to, slice_from}
use blockchain_test.Slices.Append.{append_items-overwrites}
use blockchain_test.Slices.Halves.{contents-slice_from}
use blockchain_test.Forest.{
  Shard, Forest, Moment, remove_shard, half_shard, split_shard, grown_shard, add_to, add_data,
  find_optimal_shard,
}
use blockchain_test.Forest.Adding.{get-append}

get-next : (xs : List Shard) (a b : Shard) → get_elem? (xs ++ a ∷ b ∷ []) (suc (length xs)) ≡ some b
get-next [] a b = refl
get-next (x ∷ xs) a b = get-next xs a b

get-set_next :
    (xs : List Shard) (a b c : Shard)
    → get_elem? (set (xs ++ a ∷ b ∷ []) (length xs) c) (suc (length xs)) ≡ some b
get-set_next [] a b c = refl
get-set_next (x ∷ xs) a b c = get-set_next xs a b c

module _ (sha256 : Bytes → Bytes) where
  -- `splitShard` puts the two halves of a shard that is not empty behind the other shards. Where
  -- `findOptimalShard` then chooses the left half, `AddData` keeps the right half as a shard, yet
  -- the item takes the place of the first item of the right half's data.
  pub split_shard-overwritten :
      (t t' : Moment) (f : Forest) (s : Shard) (item : Bytes)
      → IsSlice f.memory s.items
      → 0 < s.items.len
      → find_optimal_shard (split_shard sha256 t f s).shards
        ≡ some (length (remove_shard s.id f.shards))
      → let f' = split_shard sha256 t f s in
        let k = length (remove_shard s.id f.shards) in
        (right : Shard) × (f'' : Forest) × (get_elem? f'.shards (suc k) ≡ some right)
        × (contents f'.memory right.items ≡ drop (s.items.len / 2) (contents f.memory s.items))
        × (add_data sha256 t' item f' ≡ ok f'')
        × (get_elem? f''.shards (suc k) ≡ some right)
        × (contents f''.memory right.items ≡ item ∷ drop 1 (contents f'.memory right.items))
  unfolding split_shard add_data add_to grown_shard half_shard
  split_shard-overwritten t t' f s item valid filled optimal =
      let kept = remove_shard s.id f.shards in
      let mid = s.items.len / 2 in
      let left = half_shard sha256 (t.left_id s.id) t.now f.memory (slice_to mid s.items) in
      let right = half_shard sha256 (t.right_id s.id) t.now f.memory (slice_from mid s.items) in
      let f' = split_shard sha256 t f s in
      let f'' = add_to sha256 t' f' (length kept) left item in
      (
        right,
        f'',
        get-next kept left right,
        contents-slice_from f.memory s.items mid (omega arith),
        rw (optimal, get-append kept (right ∷ []) left) refl,
        get-set_next kept left right _,
        (append_items-overwrites t'.spare f.memory s.items mid item valid (omega arith)).1,
      )
