-- ===== src/Transfer.antt =====
-- `NewTransaction` of Blockchain/transaction.go.
pub mod Laws
pub mod Payment
use blockchain_test.Prelude.{
  ℕ, Bool, Option, none, some, String, List, [], ◌∷◌, ◌++◌, map, Map, if◌then◌else◌,
}
use blockchain_test.Prelude.Int.{ℤ, pos, ltb_ℤ, sub64}
use blockchain_test.Prelude.Bytes.{Bytes}
use blockchain_test.Outcome.{Result, ok, panic, address_locked, not_enough_funds, bad_hex, ◌>>=◌}
use blockchain_test.Tx.{Transaction, TxInput, TxOutput, set_id}
use blockchain_test.Block.{Block}
use blockchain_test.Utxo.{find_spendable_outputs}
use blockchain_test.Locks.{Locks, lock_address, unlock_address, is_address_locked}

-- What the function uses and does not implement: sha256, the gob encoding of a transaction, the hex
-- encoding, and the order in which `range` visits a map.
pub record Platform : Type 0 where
  pub sha256 : Bytes → Bytes
  pub encode_tx : Transaction → Bytes
  pub hex : Bytes → String
  pub unhex : String → Option Bytes
  pub visit : Map (List ℤ) → Map (List ℤ)

abbrev pub spending : Bytes → String → ℤ → TxInput
spending id from out = record { id = id; out_index = out; signature = from; state_proof = none }

abbrev or_bad_hex : Option Bytes → Result Bytes
or_bad_hex none = panic bad_hex
or_bad_hex (some id) = ok id

unfoldable pub build_outputs : String → String → ℤ → ℤ → List TxOutput
build_outputs from to amount acc =
    record { value = amount; pub_key = to; metadata = none }
    ∷ (if ltb_ℤ amount acc
        then record { value = sub64 acc amount; pub_key = from; metadata = none } ∷ []
        else [])

module _ (p : Platform) where
  open p use {sha256, encode_tx, hex, unhex, visit}

  unfoldable pub build_inputs : String → Map (List ℤ) → Result (List TxInput)
  build_inputs from [] = ok []
  build_inputs from ((tx_id, outs) ∷ rest) = do
    id ← or_bad_hex (unhex tx_id)
    inputs ← build_inputs from rest
    ok (map (spending id from) outs ++ inputs)

  with_proof : Transaction → Transaction
  with_proof tx = record tx { state_proof = some (sha256 tx.id) }

  unfoldable pub assemble : String → String → ℤ → ℤ → ℤ → Map (List ℤ) → Result Transaction
  unfolding build_inputs build_outputs with_proof set_id
  assemble from to amount now acc outs = do
    inputs ← build_inputs from (visit outs)
    ok (
        with_proof (
          set_id sha256 encode_tx (record {
            id = [];
            inputs = inputs;
            outputs = build_outputs from to amount acc;
            timestamp = now;
            signature = none;
            lock_time = pos 0;
            state_proof = none;
          })))

  -- After the lock is taken; `log.Panic` for missing funds unlocks first.
  spend_found : String → String → ℤ → ℤ → ℤ × Map (List ℤ) → Locks → Result Transaction × Locks
  spend_found from to amount now (acc, outs) locks =
      if ltb_ℤ acc amount
      then (panic not_enough_funds, unlock_address from locks)
      else (assemble from to amount now acc outs, locks)

  spend_walked : String → String → ℤ → ℤ → Result (List Block) → Locks → Result Transaction × Locks
  unfolding spend_found
  spend_walked from to amount now (panic e) locks = (panic e, locks)
  spend_walked from to amount now (ok blocks) locks =
      spend_found from to amount now (find_spendable_outputs hex from amount blocks) locks

  -- `walked` is what the iterator over the chain yields, and `now` is `time.Now().Unix()`. The
  -- deferred `UnlockAddress` runs on every way out, by a panic too.
  unfoldable pub new_transaction :
      String → String → ℤ → ℤ → Result (List Block) → Locks → Result Transaction × Locks
  unfolding spend_walked
  new_transaction from to amount now walked locks =
      if is_address_locked from locks
      then (panic address_locked, locks)
      else (let (r, locks') = spend_walked from to amount now walked (lock_address from locks) in
          (r, unlock_address from locks'))
