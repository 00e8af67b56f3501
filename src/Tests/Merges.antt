-- ===== src/Tests/Merges.antt =====
-- Two shards that were not used for a thousand seconds.
use blockchain_test.Prelude.{◌^◌, ◌≤◌, refl, some, [], ◌∷◌, arith, length}
use blockchain_test.Prelude.Int.{pos}
use blockchain_test.Merkle.{leaf}
use blockchain_test.Forest.{Forest, Moment, idle_shards, merge_low_activity_shards}
use blockchain_test.Forest.Adding.{IsForest}
use blockchain_test.Forest.Merging.{ProvesPair, merge_low_activity_shards-IsForest}
use blockchain_test.Tests.Toys.{toy_hash}
use blockchain_test.Tests.Forests.{toy_moment}

abbrev two_shards : Forest
two_shards = record {
  shards =
      record {
        id = "a";
        root = some (leaf (toy_hash (7 ∷ [])) (7 ∷ []));
        items = record { array = 0; offset = 0; len = 1; cap = 1 };
        load = 1;
        last_accessed = pos 0;
      }
      ∷ record {
        id = "b";
        root = some (leaf (toy_hash (8 ∷ [])) (8 ∷ []));
        items = record { array = 1; offset = 0; len = 1; cap = 1 };
        load = 1;
        last_accessed = pos 0;
      }
      ∷ [];
  memory = ((7 ∷ []) ∷ []) ∷ ((8 ∷ []) ∷ []) ∷ [];
}

abbrev late : Moment
late = record toy_moment { now = pos (10 ^ 12) }

two_shards-IsForest : IsForest two_shards
two_shards-IsForest = record {
  sound = (
    (record { filled = omega arith; within = omega arith }, λ h. (_, refl)),
    ((record { filled = omega arith; within = omega arith }, λ h. (_, refl)), tt),
  );
  room = (0, _, refl, omega arith);
}

merge_low_activity_shards-IsForest_example :
    let f' = merge_low_activity_shards toy_hash late two_shards in
    IsForest f'
    × (2 ≤ length two_shards.shards
        → ProvesPair toy_hash late two_shards f' (idle_shards toy_hash late.now two_shards.shards))
merge_low_activity_shards-IsForest_example =
    merge_low_activity_shards-IsForest toy_hash late two_shards two_shards-IsForest
