-- ===== src/Block.antt =====
-- Blockchain/block.go: a block, the Merkle root of its transactions, and the pruned copy of a block.
pub mod Roots
pub mod Create
use mathlib.Core.List.{head?}
use blockchain_test.Prelude.{
  Bool, false, ◌||◌, Option, none, some, String, List, [], ◌∷◌, map, length, str_eq, if◌then◌else◌,
}
use blockchain_test.Prelude.Int.{ℤ, pos}
use blockchain_test.Prelude.Bytes.{Bytes, bytes_equal}
use blockchain_test.Prelude.Float.{Float64, FloatOps}
use blockchain_test.Merkle.{MerkleNode, leaf, node_hash, merkle_level, merkle_loop}
use blockchain_test.Tx.{Transaction, TxInput, TxOutput}

pub record Block : Type 0 where
  pub hash : Bytes
  pub transactions : List Transaction
  pub prev_hash : Bytes
  pub nonce : ℤ
  pub timestamp : ℤ
  pub state_root : Bytes
  pub accumulator_root : Bytes
  pub tx_trie : Option MerkleNode
  pub entropy_value : Float64

-- `&MerkleNode{Hash: tx.ID}`
abbrev pub id_leaf : Transaction → MerkleNode
id_leaf tx = leaf tx.id []

module _ (sha256 : Bytes → Bytes) where
  -- The tree that `HashTransactions` builds over the transactions' identifiers.
  unfoldable pub transaction_trie : List Transaction → Option MerkleNode
  unfolding merkle_loop merkle_level
  transaction_trie txs = head? (merkle_loop sha256 (length txs) (map id_leaf txs))

  keep_trie : Block → Option MerkleNode → Bytes × Block
  keep_trie b none = (sha256 [], b)
  keep_trie b (some t) = (node_hash t, record b { tx_trie = some t })

  cached_or_built : Block → Option MerkleNode → Bytes × Block
  unfolding keep_trie
  cached_or_built b (some t) = (node_hash t, b)
  cached_or_built b none = keep_trie b (transaction_trie b.transactions)

  -- The root, and the block with the tree that the method stores in it.
  unfoldable pub hash_transactions : Block → Bytes × Block
  unfolding cached_or_built
  hash_transactions b = cached_or_built b b.tx_trie

-- A Go map used as a set of strings: its keys.
has_key : List Bytes → Bytes → Bool
has_key [] k = false
has_key (x ∷ xs) k = bytes_equal x k || has_key xs k

add_key : Bytes → List Bytes → List Bytes
unfolding has_key
add_key k keys = if has_key keys k then keys else k ∷ keys

has_name : List String → String → Bool
has_name [] k = false
has_name (x ∷ xs) k = str_eq x k || has_name xs k

add_name : String → List String → List String
unfolding has_name
add_name k keys = if has_name keys k then keys else k ∷ keys

input_keys : List TxInput → List Bytes → List Bytes
input_keys [] keys = keys
input_keys (i ∷ rest) keys = input_keys rest (add_key i.id keys)

output_keys : List TxOutput → List String → List String
output_keys [] keys = keys
output_keys (o ∷ rest) keys = output_keys rest (add_name o.pub_key keys)

unique_inputs : List Transaction → List Bytes → List Bytes
unique_inputs [] keys = keys
unique_inputs (tx ∷ rest) keys = unique_inputs rest (input_keys tx.inputs keys)

unique_outputs : List Transaction → List String → List String
unique_outputs [] keys = keys
unique_outputs (tx ∷ rest) keys = unique_outputs rest (output_keys tx.outputs keys)

module _ (ops : FloatOps) where
  open ops use {add, div, of_int, literal}

  unfoldable pub calculate_block_entropy : List Transaction → Float64
  unfolding unique_inputs unique_outputs input_keys output_keys add_key add_name
  calculate_block_entropy [] = literal 0 0
  calculate_block_entropy (tx ∷ rest) =
      let txs = tx ∷ rest in
      let count = of_int (pos (length txs)) in
      let input_entropy = div (of_int (pos (length (unique_inputs txs [])))) count in
      let output_entropy = div (of_int (pos (length (unique_outputs txs [])))) count in
      div (add input_entropy output_entropy) (literal 2 0)

-- `&Transaction{ID: tx.ID}`
abbrev pub id_only : Transaction → Transaction
id_only tx = record {
  id = tx.id;
  inputs = [];
  outputs = [];
  timestamp = pos 0;
  signature = none;
  lock_time = pos 0;
  state_proof = none;
}

unfoldable pub prune_block_data : Block → Block
prune_block_data b = record {
  hash = b.hash;
  transactions = map id_only b.transactions;
  prev_hash = b.prev_hash;
  nonce = b.nonce;
  timestamp = b.timestamp;
  state_root = b.state_root;
  accumulator_root = b.accumulator_root;
  tx_trie = none;
  entropy_value = b.entropy_value;
}
