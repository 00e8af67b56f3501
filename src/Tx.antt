-- ===== src/Tx.antt =====
-- Blockchain/tx.go and Blockchain/transaction.go: transactions, their identifiers and their check.
use blockchain_test.Prelude.{
  ◌≡◌, refl, ◌%◌, Bool, true, false, ◌&&◌, Option, none, some, String, List, [], ◌∷◌, ◌++◌, length,
  ◌==◌, str_eq, if◌then◌else◌,
}
use blockchain_test.Prelude.Int.{ℤ, pos, negsuc, eq_ℤ, to_word}
use blockchain_test.Prelude.Bytes.{Bytes, bytes_equal}

pub record TxOutput : Type 0 where
  pub value : ℤ
  pub pub_key : String
  pub metadata : Option Bytes

pub record TxInput : Type 0 where
  pub id : Bytes
  pub out_index : ℤ
  pub signature : String
  pub state_proof : Option Bytes

pub record Transaction : Type 0 where
  pub id : Bytes
  pub inputs : List TxInput
  pub outputs : List TxOutput
  pub timestamp : ℤ
  pub signature : Option Bytes
  pub lock_time : ℤ
  pub state_proof : Option Bytes

unfoldable pub can_unlock : TxInput → String → Bool
can_unlock input who = str_eq input.signature who

unfoldable pub can_be_unlocked : TxOutput → String → Bool
can_be_unlocked out who = str_eq out.pub_key who

coinbase_inputs : List TxInput → Bool
coinbase_inputs [] = false
coinbase_inputs (input ∷ []) = length input.id == 0 && eq_ℤ input.out_index (negsuc 0)
coinbase_inputs (input ∷ other ∷ rest) = false

unfoldable pub is_coinbase : Transaction → Bool
unfolding coinbase_inputs
is_coinbase tx = coinbase_inputs tx.inputs

module _ (sha256 : Bytes → Bytes) (encode_tx : Transaction → Bytes) where
  -- The gob encoder writes into a buffer in memory, which does not fail.
  unfoldable pub set_id : Transaction → Transaction
  set_id tx = record tx { id = sha256 (encode_tx tx) }

  -- `reward` is `fmt.Sprintf("Reward %d to %s", amount, to)`, and `now` is `time.Now().Unix()`.
  unfoldable pub coinbase_tx : (ℤ → String → String) → ℤ → String → String → ℤ → Transaction
  unfolding set_id
  coinbase_tx reward now to note amount =
      let text = if str_eq note "" then reward amount to else note in
      set_id (record {
        id = [];
        inputs =
            record { id = []; out_index = negsuc 0; signature = text; state_proof = none } ∷ [];
        outputs = record { value = amount; pub_key = to; metadata = none } ∷ [];
        timestamp = now;
        signature = none;
        lock_time = pos 0;
        state_proof = none;
      })

  pub coinbase_tx-is_coinbase :
      (reward : ℤ → String → String) (now : ℤ) (to note : String) (amount : ℤ)
      → is_coinbase (coinbase_tx reward now to note amount) ≡ true
  unfolding coinbase_tx is_coinbase
  coinbase_tx-is_coinbase reward now to note amount = refl

unfoldable pub all_signed : List TxInput → Bool
all_signed [] = true
all_signed (input ∷ rest) = if str_eq input.signature "" then false else all_signed rest

module _ (sha256 : Bytes → Bytes) where
  proof_matches : Option Bytes → Bytes → Bool
  proof_matches none id = false
  proof_matches (some proof) id = bytes_equal proof (sha256 id)

  unfoldable pub verify_transaction : Transaction → Bool
  unfolding is_coinbase all_signed proof_matches
  verify_transaction tx =
      if is_coinbase tx
      then true
      else if all_signed tx.inputs
      then proof_matches tx.state_proof tx.id
      else false

  fresh_proof : Transaction → Option Bytes → Bytes × Transaction
  fresh_proof tx (some proof) = (proof, tx)
  fresh_proof tx none =
      let proof = sha256 (tx.id ++ (to_word tx.timestamp % 256) ∷ []) in
      (proof, record tx { state_proof = some proof })

  -- The bytes returned, and the transaction as the method leaves it.
  unfoldable pub create_state_proof : Transaction → Bytes × Transaction
  unfolding fresh_proof
  create_state_proof tx = fresh_proof tx tx.state_proof
