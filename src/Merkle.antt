-- ===== src/Merkle.antt =====
-- Merkle trees: `MerkleNode` and `buildMerkleTree` of Blockchain/adaptive_merkle_forest.go, and the
-- loop that `HashTransactions` of Blockchain/block.go writes out once more.
pub mod Shape
pub mod Binding
use mathlib.Core.List.{head?}
use blockchain_test.Prelude.{ℕ, zero, suc, Option, List, [], ◌∷◌, ◌++◌, map, length}
use blockchain_test.Prelude.Bytes.{Bytes}

-- The code builds nodes of two shapes: `&MerkleNode{Hash, Data}` with nil children, and
-- `&MerkleNode{Hash, Left, Right}` with nil data.
pub data MerkleNode : Type 0 where
  leaf : Bytes → Bytes → MerkleNode
  branch : Bytes → MerkleNode → MerkleNode → MerkleNode

-- The field `Hash`.
abbrev pub node_hash : MerkleNode → Bytes
node_hash (leaf h d) = h
node_hash (branch h l r) = h

module _ (sha256 : Bytes → Bytes) where
  -- One round of the loop: neighbours are joined, and a last node without one is carried over.
  unfoldable pub merkle_level : List MerkleNode → List MerkleNode
  merkle_level [] = []
  merkle_level (a ∷ []) = a ∷ []
  merkle_level (a ∷ b ∷ rest) = branch (sha256 (node_hash a ++ node_hash b)) a b ∷ merkle_level rest

  -- `for len(nodes) > 1 { … nodes = levelNodes }`, on fuel.
  unfoldable pub merkle_loop : ℕ → List MerkleNode → List MerkleNode
  merkle_loop zero nodes = nodes
  merkle_loop (suc f) [] = []
  merkle_loop (suc f) (a ∷ []) = a ∷ []
  merkle_loop (suc f) (a ∷ b ∷ rest) = merkle_loop f (merkle_level (a ∷ b ∷ rest))

  -- `&MerkleNode{Hash: hash[:], Data: item}`
  abbrev pub item_leaf : Bytes → MerkleNode
  item_leaf item = leaf (sha256 item) item

  -- nil for no data. As many rounds as there are items are enough (Merkle/Shape).
  unfoldable pub build_merkle_tree : List Bytes → Option MerkleNode
  unfolding merkle_loop merkle_level
  build_merkle_tree items = head? (merkle_loop (length items) (map item_leaf items))
