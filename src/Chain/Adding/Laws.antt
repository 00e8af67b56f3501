-- ===== src/Chain/Adding/Laws.antt =====
-- `AddBlock`: the new chain is the old one with the new block in front.
use mathlib.Core.Path.{subst}
use blockchain_test.Prelude.{
  ℕ, ◌+◌, ◌≤◌, ◌<◌, ◌≡◌, refl, sym, ap, ◌∙◌, true, none, some, List, [], ◌∷◌, ◌++◌, arith, length,
}
use native.Mathlib.Decide.{dec_lt}
use blockchain_test.Prelude.Int.{ℤ}
use blockchain_test.Prelude.Bytes.{Bytes, bytes_equal_refl}
use blockchain_test.Outcome.{ok}
use blockchain_test.Tx.{Transaction}
use blockchain_test.Block.{Block, transaction_trie}
use blockchain_test.Block.Create.{prepare_block, create_block}
use blockchain_test.Block.Create.Laws.{created, create_block-valid}
use blockchain_test.Pow.{new_proof, max_int64, run}
use blockchain_test.Pow.Run.{meets, run-Found}
use blockchain_test.Forest.{Forest, generate_merkle_proof}
use blockchain_test.Chain.{Services, BlockChain, Occasion, last_hash_key, tx_ids, add_each}
use blockchain_test.Network.{get_consistency_level}
use blockchain_test.Chain.Walk.{IsLinked}
use blockchain_test.Chain.Adding.{store_block, add_block}
use blockchain_test.Chain.Adding.Storing.{Laws, IsLinked-new}
use blockchain_test.Chain.Integrity.Laws.{trie-some, verify-stored}

module _ {Db : Type 0} (s : Services Db) (laws : Laws s) where
  open s use {get, put, encode, decode, sha256, floats}

  -- The hash that `CreateBlock` stores is one of sha256 where some nonce meets the target.
  pub create_block-hash :
      (txs : List Transaction) (prev : Bytes) (now : ℤ) (start k : ℕ)
      → start ≤ k
      → k < max_int64
      → meets sha256 (new_proof (prepare_block sha256 floats txs prev now)) k ≡ true
      → length (create_block sha256 floats txs prev now start).hash ≡ 32
  create_block-hash txs prev now start k p q hit =
      let pow = new_proof (prepare_block sha256 floats txs prev now) in
      let found = run-Found sha256 pow start (omega arith) in
      rw (created sha256 floats txs prev now start (omega arith))
        (elim (dec_lt (run sha256 pow start).0 max_int64) [
          | yes inside ↦ ap length (found.stopped inside).1 ∙ laws.sized _
          | no outside ↦ absurd (cc (hit, found.passed k p (omega arith)))
        ])

  -- Take a chain whose newest block is `last` and whose blocks are linked, at least one
  -- transaction, and a nonce from the start on that meets the target. If gob gives the new block
  -- back, its hash is no key of the database yet, and the forest proves the hash after the block's
  -- data went in, `AddBlock` returns a chain with the new block as its newest, linked to the old
  -- blocks.
  pub add_block-extends :
      (tx : Transaction) (txs : List Transaction) (t : Occasion) (chain : BlockChain Db)
      (last : Bytes) (blocks : List Block) (k : ℕ) (f : Forest) (proof : List Bytes)
      → get last_hash_key chain.database ≡ some last
      → IsLinked s chain.database last blocks
      → t.start ≤ k
      → k < max_int64
      → meets sha256 (new_proof (prepare_block sha256 floats (tx ∷ txs) last t.now)) k ≡ true
      → let b = create_block sha256 floats (tx ∷ txs) last t.now t.start in
        decode (encode b) ≡ some b
        → get b.hash chain.database ≡ none
        → add_each s t 0 (tx_ids (tx ∷ txs) ++ b.hash ∷ encode b ∷ []) chain.amf ≡ ok f
        → generate_merkle_proof b.hash f ≡ ok (some proof)
        → (chain' : BlockChain Db) × (add_block s (tx ∷ txs) t chain ≡ ok chain')
          × (chain'.last_hash ≡ b.hash)
          × (get last_hash_key chain'.database ≡ some b.hash)
          × IsLinked s chain'.database b.hash (b ∷ blocks)
          × (chain'.amf ≡ f)
  unfolding add_block store_block
  add_block-extends tx txs t chain last blocks k f proof at linked p q hit back new added found =
      let b = create_block sha256 floats (tx ∷ txs) last t.now t.start in
      let (valid, prev, held, _, consistent) =
        create_block-valid sha256 floats (tx ∷ txs) last t.now t.start k p q hit in
      let (tree, e) = trie-some s tx txs in
      let stored : b.tx_trie ≡ some tree = consistent ∙ ap (transaction_trie sha256) held ∙ e in
      let verified = verify-stored s t (length (tx ∷ txs) + 2) b f tree proof stored valid found in
      let size = create_block-hash (tx ∷ txs) last t.now t.start k p q hit in
      (
        store_block s (get_consistency_level chain.node_id chain.consistency_mgr.node_consistency) b
            f chain,
        rw (at, added, verified) refl,
        refl,
        laws.get-put last_hash_key last_hash_key b.hash _
            ∙ rw (bytes_equal_refl last_hash_key) refl,
        IsLinked-new s laws chain.database b blocks size back new
            (subst (λ h. IsLinked s chain.database h blocks) (sym prev) linked),
        refl,
      )
