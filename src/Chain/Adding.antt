-- ===== src/Chain/Adding.antt =====
-- `AddBlock` of Blockchain/blockchain.go.
pub mod Storing
pub mod Laws
use blockchain_test.Prelude.{
  ℕ, zero, suc, ◌+◌, Bool, true, false, not, Option, none, some, String, str_eq, List, [], ◌∷◌,
  ◌++◌, length, ◌==◌, if◌then◌else◌, Map, lookup,
}
use blockchain_test.Prelude.Int.{ℤ}
use blockchain_test.Prelude.Bytes.{Bytes, bytes_equal}
use blockchain_test.Prelude.Float.{FloatOps}
use blockchain_test.Outcome.{
  Result, ok, panic, key_not_found, decode_failed, verification_failed, nil_pointer, ◌>>=◌,
}
use blockchain_test.Merkle.{MerkleNode, node_hash}
use blockchain_test.Tx.{Transaction}
use blockchain_test.Block.{Block, hash_transactions}
use blockchain_test.Block.Create.{create_block}
use blockchain_test.Pow.{new_proof, validate}
use blockchain_test.Forest.{Forest, Moment, add_data, generate_merkle_proof}
use blockchain_test.Bloom.{create_commitment}
use blockchain_test.Chain.{
  Services, BlockChain, Occasion, last_hash_key, or_not_found, is_some, is_strong, tx_ids, add_each,
}
use blockchain_test.Network.{ConsistencyLevel, get_consistency_level}
use blockchain_test.Chain.Integrity.{verify_block_integrity}

module _ {Db : Type 0} (s : Services Db) where
  open s use {get, put, encode, hex, sha256, floats}

  -- The database writes, and the commitment where the level is strong.
  unfoldable pub store_block : ConsistencyLevel → Block → Forest → BlockChain Db → BlockChain Db
  store_block level b f chain = record chain {
    last_hash = b.hash;
    database = put last_hash_key b.hash (put b.hash (encode b) chain.database);
    amf = f;
    commitments =
        if is_strong level
        then (create_commitment sha256 (hex b.hash) (encode b) chain.commitments).1
        else chain.commitments;
  }

  abbrev pub store_verified :
      ConsistencyLevel → BlockChain Db → Bool × Block × Forest → Result (BlockChain Db)
  store_verified level chain (valid, b, f) =
      if not valid then panic verification_failed else ok (store_block level b f chain)

  unfoldable pub add_new :
      List Transaction → Occasion → Block → BlockChain Db → Result (BlockChain Db)
  unfolding add_each verify_block_integrity store_block
  add_new txs t b chain = add_each s t 0 (tx_ids txs ++ b.hash ∷ encode b ∷ []) chain.amf >>= λ f.
      verify_block_integrity s t (length txs + 2) b f
      >>= store_verified
          (get_consistency_level chain.node_id chain.consistency_mgr.node_consistency) chain

  unfoldable pub add_block : List Transaction → Occasion → BlockChain Db → Result (BlockChain Db)
  unfolding add_new
  add_block txs t chain = or_not_found (get last_hash_key chain.database) >>= λ last.
      add_new txs t (create_block sha256 floats txs last t.now t.start) chain
