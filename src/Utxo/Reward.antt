-- ===== src/Utxo/Reward.antt =====
-- What a newest block with nothing but a coinbase transaction adds to `FindUTXO`.
use mathlib.Core.List.{append_assoc, append-nil}
use blockchain_test.Prelude.{
  ◌≡◌, refl, ap, ◌∙◌, true, String, List, [], ◌∷◌, ◌++◌, Bool-cases, inl, inr, Map, lookup,
}
use blockchain_test.Prelude.Int.{ℤ}
use blockchain_test.Prelude.Bytes.{Bytes}
use blockchain_test.Tx.{Transaction, TxOutput, can_be_unlocked, is_coinbase}
use blockchain_test.Block.{Block}
use blockchain_test.Utxo.{
  contains_index, unspent_outputs, scan_transaction, scan_transactions, scan_blocks,
  find_unspent_transactions, own_outputs, outputs_of, find_utxo,
}
use blockchain_test.Utxo.Balance.{outputs_of-append}

module _ (hex : Bytes → String) (address : String) where
  -- What is listed already stays in front, and the rest of the scan does not depend on it.
  scan_transactions-front :
      (txs : List Transaction) (front found : List Transaction) (spent : Map (List ℤ))
      → let r = scan_transactions hex address txs (found, spent) in
        scan_transactions hex address txs (front ++ found, spent) ≡ (front ++ r.0, r.1)
  unfolding scan_transactions scan_transaction
  scan_transactions-front [] front found spent = refl
  scan_transactions-front (tx ∷ txs) front found spent =
      let spent' = (scan_transaction hex address tx (found, spent)).1 in
      ap (λ l. scan_transactions hex address txs (l, spent')) (append_assoc front found _)
      ∙ scan_transactions-front txs front _ _

  pub scan_blocks-front :
      (blocks : List Block) (front found : List Transaction) (spent : Map (List ℤ))
      → (scan_blocks hex address blocks (front ++ found, spent)).0
        ≡ front ++ (scan_blocks hex address blocks (found, spent)).0
  unfolding scan_blocks
  scan_blocks-front [] front found spent = refl
  scan_blocks-front (b ∷ blocks) front found spent =
      ap (λ r. (scan_blocks hex address blocks r).0)
        (scan_transactions-front b.transactions front found spent)
      ∙ scan_blocks-front blocks front _ _

  listed-coinbase :
      (tx : Transaction)
      → is_coinbase tx ≡ true
      → scan_transactions hex address (tx ∷ []) ([], [])
        ≡ (unspent_outputs address tx [] 0 tx.outputs ++ [], [])
  unfolding scan_transactions scan_transaction lookup
  listed-coinbase tx coinbase =
      rw (coinbase, append-nil (unspent_outputs address tx [] 0 tx.outputs)) refl

  outputs_of-listed :
      (tx : Transaction) (out : TxOutput)
      → tx.outputs ≡ out ∷ []
      → outputs_of address (unspent_outputs address tx [] 0 tx.outputs)
        ≡ own_outputs address (out ∷ [])
  unfolding outputs_of unspent_outputs contains_index
  outputs_of-listed tx out one = elim (Bool-cases (can_be_unlocked out address)) [
    | inl e ↦ rw (one, e) (rw e refl)
    | inr e ↦ rw (one, e) refl
  ]

  -- A newest block with one coinbase transaction of one output adds that output, where it is one of
  -- the address, and changes nothing else.
  pub find_utxo-reward :
      (b : Block) (blocks : List Block) (tx : Transaction) (out : TxOutput)
      → b.transactions ≡ tx ∷ []
      → tx.outputs ≡ out ∷ []
      → is_coinbase tx ≡ true
      → find_utxo hex address (b ∷ blocks)
        ≡ own_outputs address (out ∷ []) ++ find_utxo hex address blocks
  unfolding find_utxo find_unspent_transactions scan_blocks
  find_utxo-reward b blocks tx out held one coinbase =
      let own = unspent_outputs address tx [] 0 tx.outputs in
      let scanned : scan_transactions hex address b.transactions ([], []) ≡ (own ++ [], []) =
        ap (λ txs. scan_transactions hex address txs ([], [])) held ∙ listed-coinbase tx coinbase in
      ap (λ r. outputs_of address (scan_blocks hex address blocks r).0) scanned
      ∙ ap (outputs_of address) (scan_blocks-front blocks own [] [])
      ∙ outputs_of-append address own _
      ∙ ap (λ outs. outs ++ find_utxo hex address blocks) (outputs_of-listed tx out one)
