-- ===== src/Transfer/Payment.antt =====
-- `NewTransaction` where the sender has enough: it returns, and what it returns.
use blockchain_test.Prelude.{
  ◌≡◌, ◌≢◌, refl, ap, ◌∙◌, true, false, none, some, String, List, [], ◌∷◌, Map, All, arith,
  if◌then◌else◌,
}
use blockchain_test.Prelude.Int.{ℤ, pos, ltb_ℤ, sub64, ◌≤ℤ◌}
use blockchain_test.Prelude.Bytes.{Bytes}
use blockchain_test.Outcome.{Result, ok, ◌>>=◌}
use blockchain_test.Tx.{Transaction, TxInput, verify_transaction}
use blockchain_test.Block.{Block}
use blockchain_test.Utxo.{find_spendable_outputs}
use blockchain_test.Locks.{Locks, is_address_locked}
use blockchain_test.Transfer.{
  Platform, or_bad_hex, build_inputs, build_outputs, assemble, new_transaction,
}
use blockchain_test.Transfer.Laws.{output_total, SignedBy, new_transaction-eq-ok}

-- A first step that returns, and then a second that does.
steps_return :
    {A B : Type 0} (first : Result A) (next : A → Result B) (a : A)
    → first ≡ ok a
    → (b : B) × (next a ≡ ok b)
    → (b : B) × ((first >>= next) ≡ ok b)
steps_return first next a h (b, e) = (b, ap (λ r. r >>= next) h ∙ e)

module _ (p : Platform) (from : String) where
  -- Every identifier in the map is written in hex.
  abbrev pub IsReadable : Map (List ℤ) → Type 0
  IsReadable = All (λ e. (id : Bytes) × (p.unhex e.0 ≡ some id))

  build_inputs-total :
      (m : Map (List ℤ))
      → IsReadable m
      → (inputs : List TxInput) × (build_inputs p from m ≡ ok inputs)
  unfolding build_inputs
  build_inputs-total [] h = ([], refl)
  build_inputs-total (e ∷ m) ((id, r), h) =
      let (inputs, b) = build_inputs-total m h in
      steps_return (or_bad_hex (p.unhex e.0)) _ id (ap or_bad_hex r)
        (steps_return (build_inputs p from m) _ inputs b (_, refl))

  module _ (to : String) (amount now : ℤ) where
    assemble-total :
        (acc : ℤ) (outs : Map (List ℤ))
        → IsReadable (p.visit outs)
        → (tx : Transaction) × (assemble p from to amount now acc outs ≡ ok tx)
    unfolding assemble
    assemble-total acc outs h =
        let (inputs, b) = build_inputs-total (p.visit outs) h in
        steps_return (build_inputs p from (p.visit outs)) _ inputs b (_, refl)

    -- Let the sender have a name and no lock, the amount not be negative, the outputs found for it
    -- reach it, and their identifiers be in hex. Then the call returns a transaction. Its inputs are
    -- all signed by the sender; it pays the amount to the receiver first and the rest, if there is
    -- any, back to the sender; its outputs add up to what was found; and `VerifyTransaction` accepts
    -- it.
    pub new_transaction-paid :
        (blocks : List Block) (locks : Locks)
        → from ≢ ""
        → pos 0 ≤ℤ amount
        → is_address_locked from locks ≡ false
        → let (acc, outs) = find_spendable_outputs p.hex from amount blocks in
          amount ≤ℤ acc
          → IsReadable (p.visit outs)
          → (tx : Transaction) × ((new_transaction p from to amount now (ok blocks) locks).0
              ≡ ok tx)
            × All (SignedBy from) tx.inputs
            × (tx.outputs
                ≡ record { value = amount; pub_key = to; metadata = none }
                  ∷ (if ltb_ℤ amount acc
                      then record { value = sub64 acc amount; pub_key = from; metadata = none } ∷ []
                      else []))
            × (output_total tx.outputs ≡ acc)
            × (verify_transaction p.sha256 tx ≡ true)
    unfolding new_transaction build_outputs
    new_transaction-paid blocks locks named nonneg free enough readable =
        let (acc, outs) = find_spendable_outputs p.hex from amount blocks in
        let (tx, e) = assemble-total acc outs readable in
        let funded : ltb_ℤ acc amount ≡ false = ground arith in
        let returned : (new_transaction p from to amount now (ok blocks) locks).0 ≡ ok tx =
          rw (free, funded) e in
        let (_, signed, outputs, total, verified) =
          new_transaction-eq-ok p from to amount now blocks locks tx named nonneg returned in
        (tx, returned, signed, outputs, total, verified)
