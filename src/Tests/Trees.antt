-- ===== src/Tests/Trees.antt =====
-- Merkle trees over a few items.
use blockchain_test.Prelude.{◌≡◌, refl, some, ◌⊎◌, List, [], ◌∷◌}
use blockchain_test.Prelude.Bytes.{Bytes}
use blockchain_test.Merkle.{MerkleNode, leaf, branch, build_merkle_tree}
use blockchain_test.Merkle.Shape.{leaf_items, HasHashedLeaves, IsJoined, build_merkle_tree-leaves}
use blockchain_test.Merkle.Binding.{Collision, root_binding}
use blockchain_test.Block.{transaction_trie}
use blockchain_test.Block.Roots.{ids, transaction_root_binding}
use blockchain_test.Tests.Toys.{toy_hash, toy_sized, reward}
use blockchain_test.Tx.{Transaction}

abbrev items : List Bytes
items = (1 ∷ []) ∷ (2 ∷ []) ∷ (3 ∷ []) ∷ []

build_merkle_tree-leaves_example :
    (t : MerkleNode) × (build_merkle_tree toy_hash items ≡ some t)
    × (leaf_items t ≡ items)
    × HasHashedLeaves toy_hash t
    × IsJoined toy_hash t
build_merkle_tree-leaves_example =
    build_merkle_tree-leaves toy_hash (1 ∷ []) ((2 ∷ []) ∷ (3 ∷ []) ∷ [])

root_binding_example : (items ≡ items) ⊎ Collision toy_hash
root_binding_example =
    let built = build_merkle_tree-leaves toy_hash (1 ∷ []) ((2 ∷ []) ∷ (3 ∷ []) ∷ []) in
    root_binding toy_hash toy_sized items items {t = built.0} {u = built.0} refl built.1 built.1
      refl

-- A transaction with an identifier of 32 bytes.
abbrev identified : Transaction
identified = record reward { id = toy_hash [] }

abbrev pair : List Transaction
pair = identified ∷ identified ∷ []

abbrev pair_root : MerkleNode
pair_root = branch (toy_hash []) (leaf (toy_hash []) []) (leaf (toy_hash []) [])

transaction_root_binding_example : (ids pair ≡ ids pair) ⊎ Collision toy_hash
unfolding transaction_trie
transaction_root_binding_example =
    transaction_root_binding toy_hash toy_sized pair pair {t = pair_root} {u = pair_root} refl
      (refl, (refl, tt)) (refl, (refl, tt)) refl refl refl
