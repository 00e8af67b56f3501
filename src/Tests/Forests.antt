-- ===== src/Tests/Forests.antt =====
-- A new forest, a forest with a shard to split, and Bloom filters.
use blockchain_test.Prelude.{
  ◌≡◌, refl, none, some, [], ◌∷◌, length, get_elem?, suc, ◌/◌, All, arith, drop, true, false,
  replicate,
}
use blockchain_test.Prelude.Int.{pos}
use blockchain_test.Prelude.Bytes.{Bytes, bytes_equal}
use blockchain_test.Outcome.{ok, ◌>>=◌}
use blockchain_test.Merkle.{build_merkle_tree}
use blockchain_test.Slices.{contents, append_items, slice_to, slice_from}
use blockchain_test.Forest.{
  Shard, Forest, Moment, new_forest, remove_shard, half_shard, split_shard, find_optimal_shard,
  add_data, generate_merkle_proof,
}
use blockchain_test.Forest.Splitting.{split_shard-overwritten}
use blockchain_test.Chain.Opening.Laws.{new_forest-IsForest}
use blockchain_test.Forest.Adding.{IsForest}
use blockchain_test.Forest.Proving.{add_data-proved}
use blockchain_test.Bloom.{BloomFilter, new_bloom_filter, add, contains, bit_at}
use blockchain_test.Bloom.Members.{add_all, contains-add_all, add_all-high_bits}
use blockchain_test.Tests.Toys.{toy_hash}

abbrev pub toy_moment : Moment
toy_moment = record {
  now = pos 10;
  left_id = λ id. id;
  right_id = λ id. "right";
  merged_id = "merged";
  spare = λ n. n;
}

abbrev pub small_forest : Forest
small_forest = new_forest (pos 0)

pub small_forest-IsForest : IsForest small_forest
small_forest-IsForest = new_forest-IsForest (pos 0)

add_data-proved_example :
    (f' : Forest) × (add_data toy_hash toy_moment (7 ∷ []) small_forest ≡ ok f')
    × IsForest f'
    × (h : Bytes) × (generate_merkle_proof (7 ∷ []) f' ≡ ok (some (h ∷ [])))
add_data-proved_example =
    add_data-proved toy_hash toy_moment (7 ∷ []) small_forest small_forest-IsForest

-- The forest of one shard that holds the items 1 to 4.
abbrev four_shard : Shard
four_shard = record {
  id = "root";
  root = build_merkle_tree toy_hash ((1 ∷ []) ∷ (2 ∷ []) ∷ (3 ∷ []) ∷ (4 ∷ []) ∷ []);
  items = record { array = 0; offset = 0; len = 4; cap = 4 };
  load = 4;
  last_accessed = pos 0;
}

abbrev four_forest : Forest
four_forest = record {
  shards = four_shard ∷ [];
  memory = ((1 ∷ []) ∷ (2 ∷ []) ∷ (3 ∷ []) ∷ (4 ∷ []) ∷ []) ∷ [];
}

left_chosen :
    find_optimal_shard (split_shard toy_hash toy_moment four_forest four_shard).shards
    ≡ some (length (remove_shard "root" four_forest.shards))
unfolding find_optimal_shard split_shard half_shard remove_shard
left_chosen = refl

-- The third item was the first of the right half: it cannot be proved any more.
item_lost :
    (add_data toy_hash toy_moment (9 ∷ []) (split_shard toy_hash toy_moment four_forest four_shard)
      >>= λ f. generate_merkle_proof (3 ∷ []) f)
    ≡ ok none
unfolding find_optimal_shard split_shard half_shard remove_shard add_data generate_merkle_proof
    append_items slice_to slice_from bytes_equal
item_lost = refl

split_shard-overwritten_example :
    let f' = split_shard toy_hash toy_moment four_forest four_shard in
    let k = length (remove_shard "root" four_forest.shards) in
    (right : Shard) × (f'' : Forest) × (get_elem? f'.shards (suc k) ≡ some right)
    × (contents f'.memory right.items ≡ drop (4 / 2) (contents four_forest.memory four_shard.items))
    × (add_data toy_hash toy_moment (9 ∷ []) f' ≡ ok f'')
    × (get_elem? f''.shards (suc k) ≡ some right)
    × (contents f''.memory right.items ≡ (9 ∷ []) ∷ drop 1 (contents f'.memory right.items))
split_shard-overwritten_example =
    split_shard-overwritten toy_hash toy_moment toy_moment four_forest four_shard (9 ∷ [])
      (record { filled = omega arith; within = omega arith }) (omega arith) left_chosen

contains-add_all_example :
    (bf : BloomFilter) × (add_all toy_hash ((1 ∷ []) ∷ (2 ∷ []) ∷ []) (new_bloom_filter 1_024 3)
      ≡ ok bf)
    × All (λ item. contains toy_hash item bf ≡ ok true) ((1 ∷ []) ∷ (2 ∷ []) ∷ [])
contains-add_all_example =
    contains-add_all toy_hash 1_024 3 ((1 ∷ []) ∷ (2 ∷ []) ∷ []) (omega arith)

abbrev one_item : BloomFilter
one_item = record { bits = true ∷ replicate 299 false; num_hash = 3 }

add_all-high_bits_example : bit_at (true ∷ replicate 299 false) 270 ≡ false
unfolding new_bloom_filter add
add_all-high_bits_example =
    add_all-high_bits toy_hash (λ b. omega arith) 300 3 ((1 ∷ []) ∷ []) one_item 270 refl
      (omega arith)
