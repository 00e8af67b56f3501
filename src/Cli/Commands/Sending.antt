-- ===== src/Cli/Commands/Sending.antt =====
-- `getbalance` after `send`.
use text.Mathlib.TextEquality.{eq_iff}
use blockchain_test.Prelude.{
  ℕ, ◌≤◌, ◌<◌, ◌≡◌, ◌≢◌, refl, ap, ◌∙◌, true, false, inl, inr, none, some, String, str_eq, List, [],
  ◌∷◌, ◌++◌, arith, length, Bool-cases, if◌then◌else◌,
}
use blockchain_test.Prelude.Int.{ℤ, pos, ltb_ℤ, ◌≤ℤ◌, add64}
use blockchain_test.Prelude.Bytes.{Bytes}
use blockchain_test.Outcome.{ok}
use blockchain_test.Run.{returns}
use blockchain_test.Tx.{Transaction, TxOutput, can_be_unlocked}
use blockchain_test.Block.{Block}
use blockchain_test.Block.Create.{prepare_block, create_block}
use blockchain_test.Block.Create.Laws.{create_block-valid}
use blockchain_test.Pow.{new_proof, max_int64}
use blockchain_test.Pow.Run.{meets}
use blockchain_test.Utxo.{own_outputs, find_utxo, find_spendable_outputs}
use blockchain_test.Utxo.Payment.{find_utxo-payment}
use blockchain_test.Transfer.{build_outputs, new_transaction}
use blockchain_test.Transfer.Laws.{new_transaction-eq-ok}
use blockchain_test.Forest.{Forest, generate_merkle_proof}
use blockchain_test.Chain.Walk.{walk-IsLinked}
use blockchain_test.Chain.{BlockChain, walk, tx_ids, add_each}
use blockchain_test.Chain.Adding.Storing.{Laws}
use blockchain_test.Chain.Adding.Laws.{add_block-extends}
use blockchain_test.Wallet.{validate_address}
use blockchain_test.Cli.{World, Event, Env, sent, balance_of, platform, sum_values}
use blockchain_test.Cli.Commands.{checked, opened, stored, get_balance, send}
use blockchain_test.Cli.Commands.Settings.{Holds}
use blockchain_test.Cli.Commands.Funds.{sum_values-own, get_balance-Holds, opened-IsLinked}

-- The change goes back to the payer.
change-others :
    (from to address : String) (amount acc : ℤ)
    → from ≢ address
    → (rest : List TxOutput) × (build_outputs from to amount acc
        ≡ record { value = amount; pub_key = to; metadata = none } ∷ rest)
      × (own_outputs address rest ≡ [])
unfolding build_outputs own_outputs can_be_unlocked
change-others from to address amount acc other =
    let different : str_eq from address ≡ false = ground (arith, eq_iff from address) in
    elim (Bool-cases (ltb_ℤ amount acc)) [
      | inl more ↦ (_, refl, rw (more, different) refl)
      | inr exact ↦ (_, refl, rw exact refl)
    ]

module _ {Db Key : Type 0} (env : Env Db Key) where
  open env use {services, crypto}

  abbrev pub payment_block : Transaction → Event Key → Bytes → Block
  payment_block tx e last =
      create_block services.sha256 services.floats (tx ∷ []) last e.block.now e.block.start

  -- Take a world that holds linked blocks, two valid addresses, the first with a name, an amount that is
  -- not negative, a transaction that `NewTransaction` makes of them, and a nonce from the start on that
  -- meets the target for the block of that transaction. If gob gives the block back, its hash is no key
  -- of the database yet, and the forest of the opened chain proves the hash after the block's data went
  -- in, `send` returns; the world then holds the new block in front of the old ones, and the locks that
  -- `NewTransaction` left. With fuel for these blocks, the balance of any valid address but the sender's
  -- is from then on what it was before, and for the receiver's the int sum of that and the amount.
  pub send-balance :
      (laws : Laws services) (from to : String) (amount : ℤ) (e : Event Key) (w : World Db)
      (chain : BlockChain Db) (last : Bytes) (blocks : List Block) (tx : Transaction) (k : ℕ)
      (f : Forest) (proof : List Bytes)
      → validate_address crypto from ≡ ok true
      → validate_address crypto to ≡ ok true
      → from ≢ ""
      → pos 0 ≤ℤ amount
      → Holds env w last blocks
      → length blocks ≤ e.fuel
      → opened env e w ≡ returns chain
      → let r = new_transaction (platform services) from to amount e.now (ok blocks) w.locks in
        r.0 ≡ ok tx
        → e.block.start ≤ k
        → k < max_int64
        → meets services.sha256
            (new_proof (prepare_block services.sha256 services.floats (tx ∷ []) last e.block.now))
            k
          ≡ true
        → let b = payment_block tx e last in
          services.decode (services.encode b) ≡ some b
          → services.get b.hash chain.database ≡ none
          → add_each services e.block 0
              (tx_ids (tx ∷ []) ++ b.hash ∷ services.encode b ∷ [])
              chain.amf
            ≡ ok f
          → generate_merkle_proof b.hash f ≡ ok (some proof)
          → (w' : World Db) × (send env from to amount e w ≡ returns (w', sent ∷ []))
            × (w'.locks ≡ r.1)
            × Holds env w' b.hash (b ∷ blocks)
            × ((other : String) (later : Event Key)
                → from ≢ other
                → validate_address crypto other ≡ ok true
                → length blocks < later.fuel
                → (total : ℤ) × (get_balance env other later w
                    ≡ returns (w, balance_of other total ∷ []))
                  × (get_balance env other later w'
                      ≡ returns (
                        w',
                        balance_of other (if str_eq to other then add64 total amount else total)
                            ∷ [],
                      )))
  unfolding send checked can_be_unlocked
  send-balance laws from to amount e w chain last blocks tx k f proof valid valid' named nonneg h
        enough back made p q hit gob new held found =
      let b = payment_block tx e last in
      let r = new_transaction (platform services) from to amount e.now (ok blocks) w.locks in
      let (newest, linked, at) = opened-IsLinked env e w chain last blocks h enough back in
      let walked : walk services e.fuel chain.database chain.last_hash ≡ some (ok blocks) =
        rw at (walk-IsLinked services chain.database blocks last e.fuel linked enough) in
      let (chain', stored_new, _, newest', linked', _) =
        add_block-extends services laws tx [] e.block chain last blocks k f proof newest linked p q
          hit gob new held found in
      let w' = (stored env w r.1 (sent ∷ []) chain').0 in
      let h' : Holds env w' b.hash (b ∷ blocks) = record {
        db = chain'.database;
        there = refl;
        newest = newest';
        linked = linked';
      } in
      let (_, _, kept, _, _) =
        create_block-valid services.sha256 services.floats (tx ∷ []) last e.block.now e.block.start
          k p q hit in
      let (_, signed, outputs, _, _) =
        new_transaction-eq-ok (platform services) from to amount e.now blocks w.locks tx named
          nonneg made in
      let acc = (find_spendable_outputs services.hex from amount blocks).0 in
      (
        w',
        rw (valid, valid', back, walked, made, stored_new) refl,
        refl,
        h',
        λ other later different known room.
            let out : TxOutput = record { value = amount; pub_key = to; metadata = none } in
            let (rest, split, none_own) = change-others from to other amount acc different in
            (
              sum_values (pos 0) (find_utxo services.hex other blocks),
              get_balance-Holds env other later w last blocks known h (omega arith),
              get_balance-Holds env other later w' b.hash (b ∷ blocks) known h' (omega arith)
                  ∙ ap (λ n. returns (w', balance_of other n ∷ []))
                      (ap (sum_values (pos 0)) (
                          find_utxo-payment services.hex other from b blocks tx out rest different
                            kept signed (outputs ∙ split) none_own)
                        ∙ sum_values-own other out (find_utxo services.hex other blocks)),
            ),
      )
