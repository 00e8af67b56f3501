-- ===== src/Cli/Commands/Funds.antt =====
-- `getbalance` after `addfunds`.
use mathlib.Core.Path.{subst}
use blockchain_test.Prelude.{
  ℕ, ◌≤◌, ◌<◌, ◌≡◌, refl, ap, ◌∙◌, true, false, inl, inr, none, some, String, str_eq, List, [], ◌∷◌,
  ◌++◌, arith, length, Bool-cases, if◌then◌else◌,
}
use blockchain_test.Prelude.Int.{ℤ, pos, leb_ℤ, add64}
use blockchain_test.Prelude.Wrapping.{add64_swap}
use blockchain_test.Prelude.Bytes.{Bytes}
use blockchain_test.Outcome.{ok}
use blockchain_test.Run.{returns}
use blockchain_test.Tx.{TxOutput, can_be_unlocked, coinbase_tx, coinbase_tx-is_coinbase}
use blockchain_test.Block.{Block}
use blockchain_test.Block.Create.{prepare_block, create_block}
use blockchain_test.Block.Create.Laws.{create_block-valid}
use blockchain_test.Pow.{new_proof, max_int64}
use blockchain_test.Pow.Run.{meets}
use blockchain_test.Utxo.{own_outputs, find_utxo}
use blockchain_test.Utxo.Reward.{find_utxo-reward}
use blockchain_test.Forest.{Forest, generate_merkle_proof}
use blockchain_test.Chain.Walk.{IsLinked}
use blockchain_test.Chain.{BlockChain, last_hash_key, tx_ids, add_each}
use blockchain_test.Chain.Adding.Storing.{Laws}
use blockchain_test.Chain.Adding.Laws.{add_block-extends}
use blockchain_test.Wallet.{validate_address}
use blockchain_test.Cli.{World, Event, Env, added, balance_of, sum_values}
use blockchain_test.Cli.Commands.{checked, opened, stored, get_balance, funding, add_funds}
use blockchain_test.Cli.Commands.Settings.{Holds, opened-Holds}

sum_values-add :
    (total a : ℤ) (outs : List TxOutput)
    → sum_values (add64 total a) outs ≡ add64 (sum_values total outs) a
unfolding sum_values
sum_values-add total a [] = refl
sum_values-add total a (out ∷ outs) =
    ap (λ t. sum_values t outs) (add64_swap total a out.value)
    ∙ sum_values-add (add64 total out.value) a outs

-- One more output in front adds its value where it is one of the address.
pub sum_values-own :
    (address : String) (out : TxOutput) (outs : List TxOutput)
    → sum_values (pos 0) (own_outputs address (out ∷ []) ++ outs) ≡ (
        if can_be_unlocked out address
        then add64 (sum_values (pos 0) outs) out.value
        else sum_values (pos 0) outs)
unfolding own_outputs sum_values
sum_values-own address out outs = elim (Bool-cases (can_be_unlocked out address)) [
  | inl e ↦ rw e (sum_values-add (pos 0) out.value outs)
  | inr e ↦ rw e refl
]

module _ {Db Key : Type 0} (env : Env Db Key) where
  open env use {services, crypto}

  -- The balance of a valid address on a linked chain is the sum of its unspent outputs.
  pub get_balance-Holds :
      (addr : String) (e : Event Key) (w : World Db) (last : Bytes) (blocks : List Block)
      → validate_address crypto addr ≡ ok true
      → Holds env w last blocks
      → length blocks ≤ e.fuel
      → get_balance env addr e w
        ≡ returns
            (w, balance_of addr (sum_values (pos 0) (find_utxo services.hex addr blocks)) ∷ [])
  unfolding get_balance checked
  get_balance-Holds addr e w last blocks valid h enough =
      let r = opened-Holds env e w last blocks h enough in rw (valid, r.1, r.2) refl

  -- The chain that is opened is the one that the world holds.
  pub opened-IsLinked :
      (e : Event Key) (w : World Db) (chain : BlockChain Db) (last : Bytes) (blocks : List Block)
      → Holds env w last blocks
      → length blocks ≤ e.fuel
      → opened env e w ≡ returns chain
      → (services.get last_hash_key chain.database ≡ some last)
        × IsLinked services chain.database last blocks
        × (chain.last_hash ≡ last)
  opened-IsLinked e w chain last blocks h enough back =
      let (chain', back', _, _, newest, linked, at, _, _) =
        opened-Holds env e w last blocks h enough in
      let same : chain' ≡ chain = cc in
      subst
        (λ c.
          (services.get last_hash_key c.database ≡ some last)
          × IsLinked services c.database last blocks
          × (c.last_hash ≡ last))
        same (newest, linked, at)

  abbrev pub funding_block : String → ℤ → Event Key → Bytes → Block
  funding_block addr amount e last =
      create_block services.sha256 services.floats (funding env addr amount e ∷ []) last e.block.now
        e.block.start

  -- Take a world that holds linked blocks, a valid address, a positive amount, and a nonce from the
  -- start on that meets the target for the block of the new coinbase transaction. If gob gives that
  -- block back, its hash is no key of the database yet, and the forest of the opened chain proves the
  -- hash after the block's data went in, `addFunds` returns, and the world then holds the new block in
  -- front of the old ones. With fuel for these blocks, the balance of any valid address is from then on
  -- what it was before, and for the funded address the int sum of that and the amount.
  pub add_funds-balance :
      (laws : Laws services) (addr : String) (amount : ℤ) (e : Event Key) (w : World Db)
      (chain : BlockChain Db) (last : Bytes) (blocks : List Block) (k : ℕ) (f : Forest)
      (proof : List Bytes)
      → validate_address crypto addr ≡ ok true
      → leb_ℤ amount (pos 0) ≡ false
      → Holds env w last blocks
      → length blocks ≤ e.fuel
      → opened env e w ≡ returns chain
      → e.block.start ≤ k
      → k < max_int64
      → meets services.sha256
          (new_proof (
            prepare_block services.sha256 services.floats
              (funding env addr amount e ∷ [])
              last
              e.block.now))
          k
        ≡ true
      → let b = funding_block addr amount e last in
        services.decode (services.encode b) ≡ some b
        → services.get b.hash chain.database ≡ none
        → add_each services e.block 0
            (tx_ids (funding env addr amount e ∷ []) ++ b.hash ∷ services.encode b ∷ [])
            chain.amf
          ≡ ok f
        → generate_merkle_proof b.hash f ≡ ok (some proof)
        → (w' : World Db) × (add_funds env addr amount e w ≡ returns (w', added amount addr ∷ []))
          × Holds env w' b.hash (b ∷ blocks)
          × ((other : String) (later : Event Key)
              → validate_address crypto other ≡ ok true
              → length blocks < later.fuel
              → (total : ℤ) × (get_balance env other later w
                  ≡ returns (w, balance_of other total ∷ []))
                × (get_balance env other later w'
                    ≡ returns (
                      w',
                      balance_of other (if str_eq addr other then add64 total amount else total)
                          ∷ [],
                    )))
  unfolding add_funds checked coinbase_tx can_be_unlocked
  add_funds-balance laws addr amount e w chain last blocks k f proof valid positive h enough back p
        q hit gob new held found =
      let b = funding_block addr amount e last in
      let txs = funding env addr amount e ∷ [] in
      let (newest, linked, _) = opened-IsLinked e w chain last blocks h enough back in
      let (chain', made, _, newest', linked', _) =
        add_block-extends services laws (funding env addr amount e) [] e.block chain last blocks k f
          proof newest linked p q hit gob new held found in
      let w' = (stored env w w.locks (added amount addr ∷ []) chain').0 in
      let h' : Holds env w' b.hash (b ∷ blocks) = record {
        db = chain'.database;
        there = refl;
        newest = newest';
        linked = linked';
      } in
      let (_, _, kept, _, _) =
        create_block-valid services.sha256 services.floats txs last e.block.now e.block.start k p q
          hit in
      let coinbase =
        coinbase_tx-is_coinbase services.sha256 services.encode_tx services.reward_text e.now addr
          (env.reward_line amount) amount in
      (
        w',
        rw (valid, positive, back, made) refl,
        h',
        λ other later known room.
            let out : TxOutput = record { value = amount; pub_key = addr; metadata = none } in
            (
              sum_values (pos 0) (find_utxo services.hex other blocks),
              get_balance-Holds other later w last blocks known h (omega arith),
              get_balance-Holds other later w' b.hash (b ∷ blocks) known h' (omega arith)
                  ∙ ap (λ n. returns (w', balance_of other n ∷ []))
                      (ap (sum_values (pos 0)) (
                          find_utxo-reward services.hex other b blocks (funding env addr amount e)
                            out kept refl coinbase)
                        ∙ sum_values-own other out (find_utxo services.hex other blocks)),
            ),
      )
