-- ===== src/Chain/Integrity.antt =====
-- `VerifyBlockIntegrity` of Blockchain/blockchain.go.
pub mod Laws
use blockchain_test.Prelude.{
  ℕ, zero, suc, ◌+◌, Bool, true, false, not, Option, none, some, String, str_eq, List, [], ◌∷◌,
  ◌++◌, length, ◌==◌, if◌then◌else◌, Map, lookup,
}
use blockchain_test.Prelude.Int.{ℤ}
use blockchain_test.Prelude.Bytes.{Bytes, bytes_equal}
use blockchain_test.Prelude.Float.{FloatOps}
use blockchain_test.Outcome.{
  Result, ok, panic, key_not_found, decode_failed, verification_failed, nil_pointer, ◌>>=◌,
}
use blockchain_test.Merkle.{MerkleNode, node_hash}
use blockchain_test.Tx.{Transaction}
use blockchain_test.Block.{Block, hash_transactions}
use blockchain_test.Block.Create.{create_block}
use blockchain_test.Pow.{new_proof, validate}
use blockchain_test.Forest.{Forest, Moment, add_data, generate_merkle_proof}
use blockchain_test.Bloom.{create_commitment}
use blockchain_test.Chain.{
  Services, BlockChain, Occasion, last_hash_key, or_not_found, is_some, is_strong, tx_ids, add_each,
}
use blockchain_test.Network.{ConsistencyLevel, get_consistency_level}

module _ {Db : Type 0} (s : Services Db) where
  open s use {encode, sha256}

  -- Where the forest has no proof of the block's hash, the block is added and asked for again.
  unfoldable pub retry : Occasion → ℕ → Block → Forest → Bool → Result (Bool × Block × Forest)
  unfolding add_each
  retry t n b f true = ok (true, b, f)
  retry t n b f false = add_each s t n (b.hash ∷ encode b ∷ []) f >>= λ f'.
      generate_merkle_proof b.hash f' >>= λ proof. ok (is_some proof, b, f')

  unfoldable pub check_forest : Occasion → ℕ → Block → Forest → Result (Bool × Block × Forest)
  unfolding retry
  check_forest t n b f = generate_merkle_proof b.hash f >>= λ proof. retry t n b f (is_some proof)

  -- `block.TxTrie.Hash`
  abbrev pub trie_hash : Option MerkleNode → Result Bytes
  trie_hash none = panic nil_pointer
  trie_hash (some tree) = ok (node_hash tree)

  unfoldable pub check_root : Occasion → ℕ → Bytes × Block → Forest → Result (Bool × Block × Forest)
  unfolding check_forest
  check_root t n (root, b) f =
      let rest = check_forest t n b f in
      trie_hash b.tx_trie >>= λ stored. if bytes_equal root stored then rest else ok (false, b, f)

  -- The verdict, the block as the method leaves it, and the forest. The constructors of a chain
  -- always make a forest, so `chain.AMF != nil` holds.
  unfoldable pub verify_block_integrity :
      Occasion → ℕ → Block → Forest → Result (Bool × Block × Forest)
  unfolding check_root
  verify_block_integrity t n block f =
      let (valid, b) = validate sha256 (new_proof block) in
      let rest = check_root t n (hash_transactions sha256 b) f in
      if not valid
      then ok (false, b, f)
      else if length b.prev_hash == 0
      then ok (true, b, f)
      else rest
