-- ===== src/Chain/Integrity/Laws.antt =====
-- What `VerifyBlockIntegrity` checks of a block that carries its tree, and what it does not.
use mathlib.Core.List.{head?}
use blockchain_test.Prelude.{
  inl, inr, ℕ, zero, suc, ◌≡◌, refl, ap, ◌∙◌, true, some, List, [], ◌∷◌, map, length, ◌==◌,
  Bool-cases,
}
use blockchain_test.Prelude.Bytes.{Bytes, bytes_equal_refl}
use blockchain_test.Outcome.{ok}
use blockchain_test.Merkle.{MerkleNode, node_hash, merkle_loop, merkle_level}
use blockchain_test.Tx.{Transaction}
use blockchain_test.Block.{Block, transaction_trie, hash_transactions, id_leaf}
use blockchain_test.Pow.{new_proof, init_data, validate}
use blockchain_test.Forest.{Forest, generate_merkle_proof}
use blockchain_test.Chain.{Services, Occasion}
use blockchain_test.Chain.Integrity.{verify_block_integrity}

module _ {Db : Type 0} (s : Services Db) where
  open s use {get, put, encode, decode, sha256, floats}

  loop-some :
      (f : ℕ) (a : MerkleNode) (ns : List MerkleNode)
      → (t : MerkleNode) × (head? (merkle_loop sha256 f (a ∷ ns)) ≡ some t)
  unfolding merkle_loop merkle_level
  loop-some zero a ns = (a, refl)
  loop-some (suc f) a [] = (a, refl)
  loop-some (suc f) a (b ∷ ns) = loop-some f _ _

  pub trie-some :
      (tx : Transaction) (txs : List Transaction)
      → (t : MerkleNode) × (transaction_trie sha256 (tx ∷ txs) ≡ some t)
  unfolding transaction_trie
  trie-some tx txs = loop-some (suc (length txs)) (id_leaf tx) (map id_leaf txs)

  hash_transactions-stored :
      (b : Block) (t : MerkleNode)
      → b.tx_trie ≡ some t
      → hash_transactions sha256 b ≡ (node_hash t, b)
  unfolding hash_transactions
  hash_transactions-stored b t e = rw e refl

  validate-stored :
      (b : Block) (t : MerkleNode) → b.tx_trie ≡ some t → (validate sha256 (new_proof b)).1 ≡ b
  unfolding validate init_data new_proof
  validate-stored b t e = ap (λ (r : Bytes × Block). r.1) (hash_transactions-stored b t e)

  pub verify-stored :
      (t : Occasion) (n : ℕ) (b : Block) (f : Forest) (tree : MerkleNode) (proof : List Bytes)
      → b.tx_trie ≡ some tree
      → (validate sha256 (new_proof b)).0 ≡ true
      → generate_merkle_proof b.hash f ≡ ok (some proof)
      → verify_block_integrity s t n b f ≡ ok (true, b, f)
  unfolding verify_block_integrity
  verify-stored t n b f tree proof stored valid found =
      rw
        (
          valid,
          validate-stored b tree stored,
          hash_transactions-stored b tree stored,
          stored,
          bytes_equal_refl (node_hash tree),
          found,
        )
        (elim (Bool-cases (length b.prev_hash == 0)) [
          | inl first ↦ rw first refl
          | inr later ↦ rw later refl
        ])

  validate-other :
      (b : Block) (tree : MerkleNode) (txs : List Transaction)
      → b.tx_trie ≡ some tree
      → (validate sha256 (new_proof (record b { transactions = txs }))).0
        ≡ (validate sha256 (new_proof b)).0
  unfolding validate init_data new_proof
  validate-other b tree txs stored = rw (
    hash_transactions-stored b tree stored,
    hash_transactions-stored (record b { transactions = txs }) tree stored,
  )

  -- `VerifyBlockIntegrity` does not read the transactions of a block that carries a tree: if such a
  -- block passes `Validate` and its hash is in the forest, then with any other transactions in
  -- their place the block is accepted.
  pub verify-replaced :
      (t : Occasion) (n : ℕ) (b : Block) (f : Forest) (tree : MerkleNode) (proof : List Bytes)
      (txs : List Transaction)
      → b.tx_trie ≡ some tree
      → (validate sha256 (new_proof b)).0 ≡ true
      → generate_merkle_proof b.hash f ≡ ok (some proof)
      → let tampered = record b { transactions = txs } in
        verify_block_integrity s t n tampered f ≡ ok (true, tampered, f)
  verify-replaced t n b f tree proof txs stored valid found =
      verify-stored t n (record b { transactions = txs }) f tree proof stored
        (validate-other b tree txs stored ∙ valid) found
