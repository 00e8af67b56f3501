-- ===== src/Transfer/Laws.antt =====
-- What `NewTransaction` promises: the lock, the funds, and a transaction that verifies.
use text.Mathlib.TextEquality.{eq_iff}
use mathlib.Core.Path.{subst}
use blockchain_test.Prelude.{
  ℕ, suc, ◌-◌, ◌^◌, ◌<◌, ◌≡◌, ◌≢◌, refl, ap, ◌∙◌, true, false, not, ◌&&◌, inl, inr, none, some,
  String, List, [], ◌∷◌, ◌++◌, map, arith, Map, lookup, lookup-insert, lookup-delete, str_eq, All,
  All-append, if◌then◌else◌, Bool-cases,
}
use blockchain_test.Prelude.Int.{
  ℤ, pos, negsuc, ◌+ℤ◌, ◌≤ℤ◌, ltb_ℤ, IsInt64, sub64-eq, sub64-negsuc, -ℤ-IsInt64, +ℤ-zero,
  +ℤ-sub_cancel, eq_of_parts,
}
use blockchain_test.Prelude.Bytes.{Bytes, bytes_equal_refl}
use blockchain_test.Outcome.{Result, ok, panic, address_locked, >>=-eq-ok, ok-injective}
use blockchain_test.Tx.{Transaction, TxInput, TxOutput, verify_transaction, all_signed, set_id}
use blockchain_test.Block.{Block}
use blockchain_test.Utxo.{find_spendable_outputs}
use blockchain_test.Utxo.Spendable.{find_spendable_outputs-IsInt64, find_spendable_outputs-none}
use blockchain_test.Locks.{Locks, lock_address, unlock_address, is_address_locked}
use blockchain_test.Transfer.{
  Platform, or_bad_hex, spending, build_inputs, build_outputs, assemble, new_transaction,
  with_proof, spend_found, spend_walked,
}

-- The sum of the outputs' values.
abbrev pub output_total : List TxOutput → ℤ
output_total [] = pos 0
output_total (out ∷ outs) = out.value +ℤ output_total outs

abbrev pub SignedBy : String → TxInput → Type 0
SignedBy from input = input.signature ≡ from

module _ (p : Platform) (from to : String) (amount now : ℤ) where
  spend-unlocked :
      (walked : Result (List Block)) (locks : Locks) (a : String)
      → lookup a (
          unlock_address from
            (spend_walked p from to amount now walked (lock_address from locks)).1)
        ≡ (if str_eq from a then none else lookup a locks)
  unfolding spend_walked spend_found lock_address unlock_address
  spend-unlocked (panic e) locks a = simp (lookup-delete, lookup-insert) (ground arith)
  spend-unlocked (ok blocks) locks a =
      elim (Bool-cases (ltb_ℤ (find_spendable_outputs p.hex from amount blocks).0 amount)) [
        | inl short ↦ rw short (simp (lookup-delete, lookup-insert) (ground arith))
        | inr funded ↦ rw funded (simp (lookup-delete, lookup-insert) (ground arith))
      ]

  -- Whatever the outcome, a call leaves the locks of all other addresses alone. It finds the
  -- sender's lock taken and changes nothing, or it leaves the sender unlocked.
  pub new_transaction-locks :
      (walked : Result (List Block)) (locks : Locks) (a : String)
      → lookup a (new_transaction p from to amount now walked locks).1
        ≡ (if str_eq from a && not (is_address_locked from locks) then none else lookup a locks)
  unfolding new_transaction
  new_transaction-locks walked locks a = ground (arith, spend-unlocked walked locks a)

  -- A call for an address whose lock is taken panics.
  pub new_transaction-locked :
      (walked : Result (List Block)) (locks : Locks)
      → is_address_locked from locks ≡ true
      → new_transaction p from to amount now walked locks ≡ (panic address_locked, locks)
  unfolding new_transaction
  new_transaction-locked walked locks h = rw h

  build_outputs-total :
      (acc : ℤ)
      → IsInt64 acc
      → pos 0 ≤ℤ amount
      → amount ≤ℤ acc
      → output_total (build_outputs from to amount acc) ≡ acc
  unfolding build_outputs
  build_outputs-total acc r n e = elim (Bool-cases (ltb_ℤ amount acc)) [
    | inl more ↦
        rw (more, sub64-eq acc amount (-ℤ-IsInt64 acc amount r n e), +ℤ-zero)
          (+ℤ-sub_cancel acc amount)
    | inr same ↦ rw (same, +ℤ-zero) (ground (arith, eq_of_parts amount acc))
  ]

  spending-SignedBy :
      (id : Bytes) (outs : List ℤ) → All (SignedBy from) (map (spending id from) outs)
  spending-SignedBy id [] = tt
  spending-SignedBy id (out ∷ outs) = (refl, spending-SignedBy id outs)

  inputs-SignedBy :
      (outs : Map (List ℤ)) (inputs : List TxInput)
      → build_inputs p from outs ≡ ok inputs
      → All (SignedBy from) inputs
  unfolding build_inputs
  inputs-SignedBy [] inputs h = let e : [] ≡ inputs = cc in subst (All (SignedBy from)) e tt
  inputs-SignedBy ((tx_id, is) ∷ outs) inputs h =
      let (id, _, rest) = >>=-eq-ok (or_bad_hex (p.unhex tx_id)) _ h in
      let (more, built, last) = >>=-eq-ok (build_inputs p from outs) _ rest in
      let e : map (spending id from) is ++ more ≡ inputs = cc in
      subst (All (SignedBy from)) e (
        All-append (SignedBy from) (map (spending id from) is) more (spending-SignedBy id is)
          (inputs-SignedBy outs more built))

  -- What a transaction that is assembled consists of.
  record Assembled (acc : ℤ) (tx : Transaction) : Type 0 where
    inputs : All (SignedBy from) tx.inputs
    outputs : tx.outputs ≡ build_outputs from to amount acc
    proof : tx.state_proof ≡ some (p.sha256 tx.id)

  assemble-Assembled :
      (acc : ℤ) (outs : Map (List ℤ)) (tx : Transaction)
      → assemble p from to amount now acc outs ≡ ok tx
      → Assembled acc tx
  unfolding assemble
  assemble-Assembled acc outs tx h =
      let (inputs, built, last) = >>=-eq-ok (build_inputs p from (p.visit outs)) _ h in
      let signed = inputs-SignedBy (p.visit outs) inputs built in
      subst (Assembled acc) (ok-injective last)
        (record { inputs = signed; outputs = refl; proof = refl })

  verify-signed :
      (inputs : List TxInput) → from ≢ "" → All (SignedBy from) inputs → all_signed inputs ≡ true
  unfolding all_signed
  verify-signed [] ne h = refl
  verify-signed (input ∷ inputs) ne h =
      ground (arith, eq_iff input.signature "", verify-signed inputs ne h.1)

  verify-Assembled :
      (acc : ℤ) (tx : Transaction)
      → from ≢ ""
      → Assembled acc tx
      → verify_transaction p.sha256 tx ≡ true
  unfolding verify_transaction
  verify-Assembled acc tx ne t =
      rw (verify-signed tx.inputs ne t.inputs, t.proof, bytes_equal_refl (p.sha256 tx.id))
        (ground arith)

  -- A call that returns a transaction found at least the amount. The transaction's inputs are all
  -- signed by the sender, its first output pays the amount to the receiver, its outputs add up to
  -- the sum that was found if the amount is not negative, and `VerifyTransaction` accepts it.
  pub new_transaction-eq-ok :
      (blocks : List Block) (locks : Locks) (tx : Transaction)
      → from ≢ ""
      → pos 0 ≤ℤ amount
      → (new_transaction p from to amount now (ok blocks) locks).0 ≡ ok tx
      → let acc = (find_spendable_outputs p.hex from amount blocks).0 in
        (amount ≤ℤ acc)
        × All (SignedBy from) tx.inputs
        × (tx.outputs ≡ build_outputs from to amount acc)
        × (output_total tx.outputs ≡ acc)
        × (verify_transaction p.sha256 tx ≡ true)
  unfolding new_transaction spend_walked spend_found
  new_transaction-eq-ok blocks locks tx ne nonneg h =
      let (acc, outs) = find_spendable_outputs p.hex from amount blocks in
      elim (Bool-cases (is_address_locked from locks)) [
        | inl taken ↦ let h' = rw taken at h in cc
        | inr free ↦ elim (Bool-cases (ltb_ℤ acc amount)) [
          | inl short ↦ let h' = rw (free, short) at h in cc
          | inr funded ↦
              let t = assemble-Assembled acc outs tx (rw (free, funded) at h) in
              let enough : amount ≤ℤ acc = ground arith in
              (
                enough,
                t.inputs,
                t.outputs,
                ap output_total t.outputs
                    ∙ build_outputs-total acc
                        (find_spendable_outputs-IsInt64 p.hex from amount blocks) nonneg enough,
                verify-Assembled acc tx ne t,
              )
        ]
      ]

  -- The transaction that spends nothing.
  abbrev empty_spend : Transaction
  empty_spend = with_proof p (
      set_id p.sha256 p.encode_tx (record {
        id = [];
        inputs = [];
        outputs = build_outputs from to amount (pos 0);
        timestamp = now;
        signature = none;
        lock_time = pos 0;
        state_proof = none;
      }))

  assemble-nothing : p.visit [] ≡ [] → assemble p from to amount now (pos 0) [] ≡ ok empty_spend
  unfolding assemble
  assemble-nothing h = rw h

  negative_outputs :
      (n : ℕ)
      → n < 2 ^ 63 - 1
      → amount ≡ negsuc n
      → empty_spend.outputs
        ≡ record { value = amount; pub_key = to; metadata = none }
          ∷ record { value = pos (suc n); pub_key = from; metadata = none }
          ∷ []
  unfolding assemble
  negative_outputs n small neg = rw (neg, sub64-negsuc n small) (ground arith)

  -- A negative amount from -(2 ^ 63 - 1) on is not refused. If the sender is not locked, and the map of no outputs has no
  -- entry to visit, the transaction that is returned spends nothing, pays the negative amount to the
  -- receiver and the same positive amount to the sender.
  pub new_transaction-negative :
      (blocks : List Block) (locks : Locks) (n : ℕ)
      → n < 2 ^ 63 - 1
      → amount ≡ negsuc n
      → p.visit [] ≡ []
      → is_address_locked from locks ≡ false
      → (tx : Transaction) × ((new_transaction p from to amount now (ok blocks) locks).0 ≡ ok tx)
        × (tx.inputs ≡ [])
        × (tx.outputs
            ≡ record { value = amount; pub_key = to; metadata = none }
              ∷ record { value = pos (suc n); pub_key = from; metadata = none }
              ∷ [])
  unfolding new_transaction with_proof set_id
  new_transaction-negative blocks locks n small neg nothing free =
      let none_taken : ltb_ℤ (pos 0) amount ≡ false = rw neg (ground arith) in
      (
        empty_spend,
        rw (free, find_spendable_outputs-none p.hex from amount blocks none_taken, none_taken)
            (assemble-nothing nothing),
        refl,
        negative_outputs n small neg,
      )
