-- ===== src/Utxo/Payment.antt =====
-- What a newest block with one payment changes for everyone but the payer.
use mathlib.Core.List.{append-nil}
use text.Mathlib.TextEquality.{eq_iff}
use blockchain_test.Prelude.{
  inl, inr, ℕ, ◌+◌, ◌≡◌, ◌≢◌, refl, ap, ◌∙◌, false, String, str_eq, List, [], ◌∷◌, ◌++◌, arith, All,
  Bool-cases, Map, lookup,
}
use blockchain_test.Prelude.Int.{ℤ}
use blockchain_test.Prelude.Bytes.{Bytes}
use blockchain_test.Tx.{Transaction, TxInput, TxOutput, can_unlock, can_be_unlocked, is_coinbase}
use blockchain_test.Block.{Block}
use blockchain_test.Transfer.Laws.{SignedBy}
use blockchain_test.Utxo.{
  contains_index, unspent_outputs, mark_inputs, scan_transaction, scan_transactions, scan_blocks,
  find_unspent_transactions, own_outputs, outputs_of, find_utxo,
}
use blockchain_test.Utxo.Balance.{outputs_of-append}
use blockchain_test.Utxo.Reward.{scan_blocks-front}

module _ (hex : Bytes → String) (address : String) where
  -- Inputs that another signed spend nothing of the address.
  mark_inputs-others :
      (from : String) (inputs : List TxInput) (spent : Map (List ℤ))
      → from ≢ address
      → All (SignedBy from) inputs
      → mark_inputs hex address inputs spent ≡ spent
  unfolding mark_inputs can_unlock
  mark_inputs-others from [] spent other h = refl
  mark_inputs-others from (input ∷ inputs) spent other (s, h) =
      let different : str_eq from address ≡ false = ground (arith, eq_iff from address) in
      let not_own : can_unlock input address ≡ false = rw s different in
      rw not_own (mark_inputs-others from inputs spent other h)

  unspent-none :
      (tx : Transaction) (i : ℕ) (outs : List TxOutput)
      → own_outputs address outs ≡ []
      → unspent_outputs address tx [] i outs ≡ []
  unfolding own_outputs unspent_outputs contains_index
  unspent-none tx i [] h = refl
  unspent-none tx i (out ∷ outs) h = ground (arith, unspent-none tx (i + 1) outs)

  listed-payment :
      (from : String) (tx : Transaction)
      → from ≢ address
      → All (SignedBy from) tx.inputs
      → scan_transactions hex address (tx ∷ []) ([], [])
        ≡ (unspent_outputs address tx [] 0 tx.outputs ++ [], [])
  unfolding scan_transactions scan_transaction lookup
  listed-payment from tx other h =
      let marked = mark_inputs-others from tx.inputs [] other h in
      let front = append-nil (unspent_outputs address tx [] 0 tx.outputs) in
      elim (Bool-cases (is_coinbase tx)) [
        | inl e ↦ rw (e, front) refl
        | inr e ↦ rw (e, front, marked) refl
      ]

  outputs_of-paid :
      (tx : Transaction) (out : TxOutput) (rest : List TxOutput)
      → tx.outputs ≡ out ∷ rest
      → own_outputs address rest ≡ []
      → outputs_of address (unspent_outputs address tx [] 0 tx.outputs)
        ≡ own_outputs address (out ∷ [])
  unfolding outputs_of own_outputs unspent_outputs contains_index
  outputs_of-paid tx out rest paid none =
      let later = unspent-none tx 1 rest none in
      let own = append-nil (own_outputs address tx.outputs) ∙ ap (own_outputs address) paid in
      ap (λ outs. outputs_of address (unspent_outputs address tx [] 0 outs)) paid
      ∙ elim (Bool-cases (can_be_unlocked out address)) [
        | inl e ↦ rw (e, later) (own ∙ rw (e, none) refl)
        | inr e ↦ rw (e, later) refl
      ]

  -- A newest block with one transaction of another payer adds the first output, where it is one of
  -- the address and the others are not, and changes nothing else.
  pub find_utxo-payment :
      (from : String) (b : Block) (blocks : List Block) (tx : Transaction) (out : TxOutput)
      (rest : List TxOutput)
      → from ≢ address
      → b.transactions ≡ tx ∷ []
      → All (SignedBy from) tx.inputs
      → tx.outputs ≡ out ∷ rest
      → own_outputs address rest ≡ []
      → find_utxo hex address (b ∷ blocks)
        ≡ own_outputs address (out ∷ []) ++ find_utxo hex address blocks
  unfolding find_utxo find_unspent_transactions scan_blocks
  find_utxo-payment from b blocks tx out rest other held signed paid none =
      let own = unspent_outputs address tx [] 0 tx.outputs in
      let scanned : scan_transactions hex address b.transactions ([], []) ≡ (own ++ [], []) =
        ap (λ txs. scan_transactions hex address txs ([], [])) held
        ∙ listed-payment from tx other signed in
      ap (λ r. outputs_of address (scan_blocks hex address blocks r).0) scanned
      ∙ ap (outputs_of address) (scan_blocks-front hex address blocks own [] [])
      ∙ outputs_of-append address own _
      ∙ ap (λ outs. outs ++ find_utxo hex address blocks) (outputs_of-paid tx out rest paid none)
