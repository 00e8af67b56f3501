-- ===== src/Chain/Opening/Laws.antt =====
-- What a chain holds after it is made, and after it is opened again.
use blockchain_test.Prelude.{
  ℕ, ◌≤◌, ◌<◌, ◌≡◌, refl, ap, ◌∙◌, true, none, some, String, List, [], ◌∷◌, arith, length,
}
use blockchain_test.Prelude.Int.{ℤ, pos}
use blockchain_test.Prelude.Bytes.{Bytes, bytes_equal_refl}
use blockchain_test.Outcome.{ok, ◌>>=◌}
use blockchain_test.Tx.{Transaction, coinbase_tx}
use blockchain_test.Block.{Block}
use blockchain_test.Block.Create.{prepare_block, create_block}
use blockchain_test.Block.Create.Laws.{create_block-valid}
use blockchain_test.Pow.{new_proof, max_int64, validate}
use blockchain_test.Pow.Run.{meets}
use blockchain_test.Forest.{new_forest}
use blockchain_test.Forest.Adding.{IsForest}
use blockchain_test.Forest.Proving.{add_data-proved}
use blockchain_test.Chain.{Services, BlockChain, Occasion, last_hash_key}
use blockchain_test.Chain.Opening.{
  with_amf, new_chain, init_block_chain, continue_block_chain, genesis_data,
}
use blockchain_test.Chain.Walk.{IsLinked}
use blockchain_test.Chain.Rebuild.{rebuild_amf-IsForest}
use blockchain_test.Chain.Adding.Storing.{Laws, next-new}
use blockchain_test.Chain.Adding.Laws.{create_block-hash}

pub new_forest-IsForest : (now : ℤ) → IsForest (new_forest now)
unfolding new_forest
new_forest-IsForest now = record {
  sound = ((record { filled = omega arith; within = omega arith }, λ h. absurd (omega arith)), tt);
  room = (0, _, refl, omega arith);
}

module _ {Db : Type 0} (s : Services Db) where
  open s use {get, put, encode, decode, sha256, encode_tx, reward_text, floats}

  -- The transaction of the first block.
  abbrev pub first_reward : ℤ → String → Transaction
  first_reward minted address =
      coinbase_tx sha256 encode_tx reward_text minted address genesis_data (pos 100)

  -- Where there is no database, and a nonce from the start on meets the target for the first block,
  -- which gob gives back, `InitBlockChain` returns a chain of that one block. The block passes
  -- `Validate` and holds the reward of 100 for the address, and `AddData` will succeed on the forest.
  pub init_block_chain-IsLinked :
      (laws : Laws s) (address : String) (minted born : ℤ) (t : Occasion) (k : ℕ)
      → t.start ≤ k
      → k < max_int64
      → let txs = first_reward minted address ∷ [] in
        meets sha256 (new_proof (prepare_block sha256 floats txs [] t.now)) k ≡ true
        → let b = create_block sha256 floats (first_reward minted address ∷ []) [] t.now t.start in
          decode (encode b) ≡ some b
          → (chain : BlockChain Db) × (init_block_chain s address minted born t none ≡ ok chain)
            × (get last_hash_key chain.database ≡ some b.hash)
            × IsLinked s chain.database b.hash (b ∷ [])
            × ((validate sha256 (new_proof b)).0 ≡ true)
            × (b.transactions ≡ first_reward minted address ∷ [])
            × IsForest chain.amf
  unfolding init_block_chain
  init_block_chain-IsLinked laws address minted born t k p q hit back =
      let txs = first_reward minted address ∷ [] in
      let b = create_block sha256 floats txs [] t.now t.start in
      let (valid, prev, held, _, _) =
        create_block-valid sha256 floats txs [] t.now t.start k p q hit in
      let size = create_block-hash s laws txs [] t.now t.start k p q hit in
      let (f, added, sound, _, _) =
        add_data-proved sha256 (t.moments 0) b.hash (new_forest born) (new_forest-IsForest born) in
      (
        _,
        ap
            (λ r. r >>= λ f. ok (
              with_amf s
                (new_chain s born b.hash (put last_hash_key b.hash (put b.hash (encode b) s.fresh)))
                f))
            added,
        laws.get-put last_hash_key last_hash_key b.hash _
            ∙ rw (bytes_equal_refl last_hash_key) refl,
        (size, next-new s laws s.fresh b size back, ap length prev),
        valid,
        held,
        sound,
      )

  -- A linked chain is opened again, with as much fuel as there are blocks: the database and the last
  -- hash are the stored ones, and `AddData` will succeed on the forest. The consistency levels, the
  -- trust scores and the commitments start empty.
  pub continue_block_chain-IsLinked :
      (fuel : ℕ) (born : ℤ) (t : Occasion) (db : Db) (last : Bytes) (blocks : List Block)
      → get last_hash_key db ≡ some last
      → IsLinked s db last blocks
      → length blocks ≤ fuel
      → (chain : BlockChain Db) × (continue_block_chain s fuel born t (some db) ≡ some (ok chain))
        × (chain.database ≡ db)
        × (chain.last_hash ≡ last)
        × IsForest chain.amf
        × (chain.consistency_mgr.node_consistency ≡ [])
        × (chain.trust_scores ≡ [])
        × (chain.commitments ≡ [])
  unfolding continue_block_chain
  continue_block_chain-IsLinked fuel born t db last blocks at linked enough =
      let (f, e, _, sound) =
        rebuild_amf-IsForest s fuel t db last blocks (new_forest born) linked enough
          (new_forest-IsForest born) in
      (
        with_amf s (new_chain s born last db) f,
        rw (at, e) refl,
        refl,
        refl,
        sound,
        refl,
        refl,
        refl,
      )
