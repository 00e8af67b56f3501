-- ===== src/Utxo.antt =====
-- The scans for unspent outputs of Blockchain/blockchain.go, over the blocks from the last one to
-- the first. `hex` is `hex.EncodeToString`.
pub mod Spent
pub mod Spendable
pub mod Balance
pub mod Reward
pub mod Payment
use blockchain_test.Prelude.{
  ℕ, ◌+◌, Bool, true, false, ◌&&◌, ◌||◌, Option, none, some, String, List, [], ◌∷◌, ◌++◌, Map,
  lookup, insert, if◌then◌else◌,
}
use blockchain_test.Prelude.Int.{ℤ, pos, eq_ℤ, ltb_ℤ, leb_ℤ, add64}
use blockchain_test.Prelude.Bytes.{Bytes}
use blockchain_test.Tx.{Transaction, TxInput, TxOutput, can_unlock, can_be_unlocked, is_coinbase}
use blockchain_test.Block.{Block}

-- `m[k]` of a map of slices: nil for a key that is not there.
abbrev pub entry : Option (List ℤ) → List ℤ
entry none = []
entry (some xs) = xs

abbrev pub indices_at : String → Map (List ℤ) → List ℤ
indices_at k m = entry (lookup k m)

-- `m[k] = append(m[k], i)`
abbrev pub push_index : String → ℤ → Map (List ℤ) → Map (List ℤ)
push_index k i m = insert k (indices_at k m ++ i ∷ []) m

unfoldable pub contains_index : ℤ → List ℤ → Bool
contains_index i [] = false
contains_index i (x ∷ xs) = eq_ℤ x i || contains_index i xs

-- The outputs of one transaction: it is listed once for each that is not spent and unlocks.
unfoldable pub unspent_outputs :
    String → Transaction → List ℤ → ℕ → List TxOutput → List Transaction
unspent_outputs address tx spent i [] = []
unspent_outputs address tx spent i (out ∷ outs) =
    let later = unspent_outputs address tx spent (i + 1) outs in
    if contains_index (pos i) spent
    then later
    else if can_be_unlocked out address
    then tx ∷ later
    else later

module _ (hex : Bytes → String) (address : String) where
  unfoldable pub mark_inputs : List TxInput → Map (List ℤ) → Map (List ℤ)
  mark_inputs [] spent = spent
  mark_inputs (input ∷ inputs) spent =
      mark_inputs inputs (
        if can_unlock input address then push_index (hex input.id) input.out_index spent else spent)

  -- The transactions listed so far, and the outputs known to be spent.
  unfoldable pub scan_transaction :
      Transaction → List Transaction × Map (List ℤ) → List Transaction × Map (List ℤ)
  unfolding unspent_outputs mark_inputs
  scan_transaction tx (found, spent) = (
    found ++ unspent_outputs address tx (indices_at (hex tx.id) spent) 0 tx.outputs,
    if is_coinbase tx then spent else mark_inputs tx.inputs spent,
  )

  unfoldable pub scan_transactions :
      List Transaction → List Transaction × Map (List ℤ) → List Transaction × Map (List ℤ)
  unfolding scan_transaction
  scan_transactions [] s = s
  scan_transactions (tx ∷ txs) s = scan_transactions txs (scan_transaction tx s)

  unfoldable pub scan_blocks :
      List Block → List Transaction × Map (List ℤ) → List Transaction × Map (List ℤ)
  unfolding scan_transactions
  scan_blocks [] s = s
  scan_blocks (b ∷ blocks) s = scan_blocks blocks (scan_transactions b.transactions s)

  unfoldable pub find_unspent_transactions : List Block → List Transaction
  unfolding scan_blocks
  find_unspent_transactions blocks = (scan_blocks blocks ([], [])).0

unfoldable pub own_outputs : String → List TxOutput → List TxOutput
own_outputs address [] = []
own_outputs address (out ∷ outs) =
    let later = own_outputs address outs in
    if can_be_unlocked out address then out ∷ later else later

unfoldable pub outputs_of : String → List Transaction → List TxOutput
unfolding own_outputs
outputs_of address [] = []
outputs_of address (tx ∷ txs) = own_outputs address tx.outputs ++ outputs_of address txs

unfoldable pub find_utxo : (Bytes → String) → String → List Block → List TxOutput
unfolding find_unspent_transactions outputs_of
find_utxo hex address blocks = outputs_of address (find_unspent_transactions hex address blocks)

-- What the labelled loop `Work` carries: `accumulated`, `unspentOuts`, and whether it was left.
pub record Gathered : Type 0 where
  pub accumulated : ℤ
  pub outs : Map (List ℤ)
  pub finished : Bool

module _ (hex : Bytes → String) (address : String) (amount : ℤ) where
  take_output : String → ℕ → TxOutput → Gathered → Gathered
  take_output tx_id i out g =
      let accumulated = add64 g.accumulated out.value in
      record {
        accumulated = accumulated;
        outs = push_index tx_id (pos i) g.outs;
        finished = leb_ℤ amount accumulated;
      }

  gather_outputs : String → ℕ → List TxOutput → Gathered → Gathered
  unfolding take_output
  gather_outputs tx_id i [] g = g
  gather_outputs tx_id i (out ∷ outs) g =
      let taken = take_output tx_id i out g in
      let after_taken = gather_outputs tx_id (i + 1) outs taken in
      let after_skipped = gather_outputs tx_id (i + 1) outs g in
      if can_be_unlocked out address && ltb_ℤ g.accumulated amount
      then (if taken.finished then taken else after_taken)
      else after_skipped

  gather : List Transaction → Gathered → Gathered
  unfolding gather_outputs
  gather [] g = g
  gather (tx ∷ txs) g =
      let g' = gather_outputs (hex tx.id) 0 tx.outputs g in
      let later = gather txs g' in if g'.finished then g' else later

  unfoldable pub find_spendable_outputs : List Block → ℤ × Map (List ℤ)
  unfolding gather find_unspent_transactions
  find_spendable_outputs blocks =
      let g =
        gather (find_unspent_transactions hex address blocks)
          (record { accumulated = pos 0; outs = []; finished = false }) in
      (g.accumulated, g.outs)
