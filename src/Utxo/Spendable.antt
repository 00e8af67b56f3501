-- ===== src/Utxo/Spendable.antt =====
-- What `FindSpendableOutputs` gathers: the shortest run of candidates that reaches the amount. It
-- takes every own output of a listed transaction for spendable: outputs that are spent already, and
-- the same output again where its transaction is listed again, count too.
use mathlib.Core.List.{append_assoc, append-nil}
use mathlib.Core.Path.{subst}
use text.Mathlib.TextEquality.{eq_iff}
use blockchain_test.Prelude.{
  ℕ, ◌+◌, ◌≡◌, refl, sym, ap, ◌∙◌, ◌⊎◌, inl, inr, true, false, String, List, [], ◌∷◌, ◌++◌, arith,
  Map, str_eq, lookup-insert, lookup, Bool-cases, if◌then◌else◌,
}
use blockchain_test.Prelude.Int.{ℤ, pos, ◌≤ℤ◌, ltb_ℤ, add64, IsInt64, wrap64-IsInt64}
use blockchain_test.Prelude.Bytes.{Bytes}
use blockchain_test.Tx.{Transaction, TxOutput, can_be_unlocked}
use blockchain_test.Block.{Block}
use blockchain_test.Utxo.{
  indices_at, push_index, Gathered, take_output, gather_outputs, gather, find_spendable_outputs,
  find_unspent_transactions,
}

-- An output that the loops come to: the transaction's identifier in hex, the index, the value.
pub record Candidate : Type 0 where
  pub tx_id : String
  pub index : ℤ
  pub value : ℤ

module _ (address : String) where
  abbrev pub candidates_in : String → ℕ → List TxOutput → List Candidate
  candidates_in tx_id i [] = []
  candidates_in tx_id i (out ∷ outs) =
      let later = candidates_in tx_id (i + 1) outs in
      if can_be_unlocked out address
      then record { tx_id = tx_id; index = pos i; value = out.value } ∷ later
      else later

  -- Every own output of every transaction of the list, spent before or not, and again for each time
  -- that the list has the transaction.
  abbrev pub candidates : (Bytes → String) → List Transaction → List Candidate
  candidates hex [] = []
  candidates hex (tx ∷ txs) = candidates_in (hex tx.id) 0 tx.outputs ++ candidates hex txs

-- The candidates taken, one after the other, while the sum is below the amount.
abbrev pub chosen : ℤ → ℤ → List Candidate → List Candidate
chosen amount acc [] = []
chosen amount acc (c ∷ cs) =
    let later = chosen amount (add64 acc c.value) cs in if ltb_ℤ acc amount then c ∷ later else []

-- The sum of the values in `int`, from `acc` on.
abbrev pub total : ℤ → List Candidate → ℤ
total acc [] = acc
total acc (c ∷ cs) = total (add64 acc c.value) cs

-- The indices of the candidates of one transaction.
abbrev pub indices_of : String → List Candidate → List ℤ
indices_of k [] = []
indices_of k (c ∷ cs) =
    let later = indices_of k cs in if str_eq c.tx_id k then c.index ∷ later else later

abbrev recorded : List Candidate → Map (List ℤ) → Map (List ℤ)
recorded [] m = m
recorded (c ∷ cs) m = recorded cs (push_index c.tx_id c.index m)

chosen-enough :
    (amount acc : ℤ) (cs : List Candidate) → ltb_ℤ acc amount ≡ false → chosen amount acc cs ≡ []
chosen-enough amount acc [] h = refl
chosen-enough amount acc (c ∷ cs) h = rw h

chosen-append :
    (amount acc : ℤ) (xs ys : List Candidate)
    → chosen amount acc (xs ++ ys)
      ≡ chosen amount acc xs ++ chosen amount (total acc (chosen amount acc xs)) ys
chosen-append amount acc [] ys = refl
chosen-append amount acc (c ∷ xs) ys = elim (Bool-cases (ltb_ℤ acc amount)) [
  | inl more ↦ rw more (ap (λ t. c ∷ t) (chosen-append amount (add64 acc c.value) xs ys))
  | inr enough ↦ rw enough (sym (chosen-enough amount acc ys enough))
]

total-append : (acc : ℤ) (xs ys : List Candidate) → total acc (xs ++ ys) ≡ total (total acc xs) ys
total-append acc [] ys = refl
total-append acc (c ∷ xs) ys = total-append (add64 acc c.value) xs ys

recorded-append :
    (xs ys : List Candidate) (m : Map (List ℤ))
    → recorded (xs ++ ys) m ≡ recorded ys (recorded xs m)
recorded-append [] ys m = refl
recorded-append (c ∷ xs) ys m = recorded-append xs ys (push_index c.tx_id c.index m)

indices-push :
    (j k : String) (i : ℤ) (m : Map (List ℤ))
    → indices_at k (push_index j i m)
      ≡ (if str_eq j k then indices_at k m ++ i ∷ [] else indices_at k m)
indices-push j k i m = rw lookup-insert (ground (arith, eq_iff j k))

indices-recorded :
    (k : String) (cs : List Candidate) (m : Map (List ℤ))
    → indices_at k (recorded cs m) ≡ indices_at k m ++ indices_of k cs
indices-recorded k [] m = sym (append-nil (indices_at k m))
indices-recorded k (c ∷ cs) m =
    indices-recorded k cs (push_index c.tx_id c.index m) ∙ elim (Bool-cases (str_eq c.tx_id k)) [
      | inl same ↦ rw (indices-push c.tx_id k c.index m, same) (append_assoc (indices_at k m) _ _)
      | inr other ↦ rw (indices-push c.tx_id k c.index m, other)
    ]

chosen-all :
    (amount acc : ℤ) (cs : List Candidate)
    → (amount ≤ℤ total acc (chosen amount acc cs)) ⊎ (chosen amount acc cs ≡ cs)
chosen-all amount acc [] = inr refl
chosen-all amount acc (c ∷ cs) = ground (arith, chosen-all amount (add64 acc c.value) cs)

total-IsInt64 : (acc : ℤ) (cs : List Candidate) → IsInt64 acc → IsInt64 (total acc cs)
unfolding add64
total-IsInt64 acc [] h = h
total-IsInt64 acc (c ∷ cs) h = total-IsInt64 (add64 acc c.value) cs (wrap64-IsInt64 _)

no_entries : (k : String) (is : List ℤ) → indices_at k [] ++ is ≡ is
unfolding lookup
no_entries k is = refl

module _ (hex : Bytes → String) (address : String) (amount : ℤ) where
  -- What a run of the loops leaves, if `cs` are the candidates that it passes.
  record Gathers (cs : List Candidate) (g r : Gathered) : Type 0 where
    sum : r.accumulated ≡ total g.accumulated (chosen amount g.accumulated cs)
    entries : r.outs ≡ recorded (chosen amount g.accumulated cs) g.outs
    reached : r.finished ≡ true → ltb_ℤ r.accumulated amount ≡ false

  gather_outputs-Gathers :
      (tx_id : String) (i : ℕ) (outs : List TxOutput) (g : Gathered)
      → g.finished ≡ false
      → Gathers
          (candidates_in address tx_id i outs)
          g
          (gather_outputs hex address amount tx_id i outs g)
  unfolding gather_outputs take_output
  gather_outputs-Gathers tx_id i [] g h = record { sum = refl; entries = refl; reached = λ e. cc }
  gather_outputs-Gathers tx_id i (out ∷ outs) g h =
      let c : Candidate = record { tx_id = tx_id; index = pos i; value = out.value } in
      ground (
        arith,
        chosen-enough amount g.accumulated (candidates_in address tx_id (i + 1) outs),
        chosen-enough amount (add64 g.accumulated out.value)
            (candidates_in address tx_id (i + 1) outs),
        gather_outputs-Gathers tx_id (i + 1) outs g,
        gather_outputs-Gathers tx_id (i + 1) outs (take_output hex address amount tx_id i out g),
      )

  finished-Gathers :
      (ys : List Candidate) (r : Gathered) → ltb_ℤ r.accumulated amount ≡ false → Gathers ys r r
  finished-Gathers ys r h = record {
    sum = rw (chosen-enough amount r.accumulated ys h);
    entries = rw (chosen-enough amount r.accumulated ys h);
    reached = λ e. h;
  }

  joined :
      (xs ys : List Candidate) {g r s : Gathered}
      → Gathers xs g r
      → Gathers ys r s
      → Gathers (xs ++ ys) g s
  joined xs ys {g} {r} {s} t u =
      let both = chosen-append amount g.accumulated xs ys in
      let first = chosen amount g.accumulated xs in
      record {
        sum =
            u.sum
            ∙ ap (λ a. total a (chosen amount a ys)) t.sum
            ∙ sym (ap (total g.accumulated) both ∙ total-append g.accumulated first _);
        entries =
            u.entries
            ∙ ap (λ a. recorded (chosen amount a ys) r.outs) t.sum
            ∙ ap (recorded (chosen amount (total g.accumulated first) ys)) t.entries
            ∙ sym (ap (λ cs. recorded cs g.outs) both ∙ recorded-append first _ g.outs);
        reached = u.reached;
      }

  gather-Gathers :
      (txs : List Transaction) (g : Gathered)
      → g.finished ≡ false
      → Gathers (candidates address hex txs) g (gather hex address amount txs g)
  unfolding gather
  gather-Gathers [] g h = record { sum = refl; entries = refl; reached = λ e. cc }
  gather-Gathers (tx ∷ txs) g h =
      let r = gather_outputs hex address amount (hex tx.id) 0 tx.outputs g in
      let t = gather_outputs-Gathers (hex tx.id) 0 tx.outputs g h in
      elim (Bool-cases r.finished) [
        | inl done ↦ rw done (
            joined _ (candidates address hex txs) t
              (finished-Gathers (candidates address hex txs) r (t.reached done)))
        | inr more ↦ rw more (joined _ (candidates address hex txs) t (gather-Gathers txs r more))
      ]

  -- The candidates are all outputs that belong to the address of each transaction that
  -- `FindUnspentTransactions` lists: those already spent too, and again for each time that the
  -- transaction is listed. `FindSpendableOutputs` takes them one after the other while their sum, in
  -- `int` arithmetic, is below the amount: it returns that sum, and for each transaction the indices
  -- of the candidates taken. The sum reaches the amount, or every candidate was taken.
  pub find_spendable_outputs-chosen :
      (blocks : List Block)
      → let cs = candidates address hex (find_unspent_transactions hex address blocks) in
        let taken = chosen amount (pos 0) cs in
        let (acc, outs) = find_spendable_outputs hex address amount blocks in
        (acc ≡ total (pos 0) taken)
        × ((k : String) → indices_at k outs ≡ indices_of k taken)
        × ((amount ≤ℤ acc) ⊎ (taken ≡ cs))
  unfolding find_spendable_outputs
  find_spendable_outputs-chosen blocks =
      let txs = find_unspent_transactions hex address blocks in
      let cs = candidates address hex txs in
      let start : Gathered = record { accumulated = pos 0; outs = []; finished = false } in
      let t = gather-Gathers txs start refl in
      (
        t.sum,
        λ k.
            ap (indices_at k) t.entries
            ∙ indices-recorded k (chosen amount (pos 0) cs) []
            ∙ no_entries k _,
        rw t.sum (chosen-all amount (pos 0) cs),
      )

  -- The sum is an `int`.
  pub find_spendable_outputs-IsInt64 :
      (blocks : List Block) → IsInt64 (find_spendable_outputs hex address amount blocks).0
  find_spendable_outputs-IsInt64 blocks =
      let cs = candidates address hex (find_unspent_transactions hex address blocks) in
      subst IsInt64 (sym (find_spendable_outputs-chosen blocks).0)
        (total-IsInt64 (pos 0) (chosen amount (pos 0) cs) (omega arith))

  -- For an amount that is not positive nothing is taken.
  pub find_spendable_outputs-none :
      (blocks : List Block)
      → ltb_ℤ (pos 0) amount ≡ false
      → find_spendable_outputs hex address amount blocks ≡ (pos 0, [])
  unfolding find_spendable_outputs
  find_spendable_outputs-none blocks h =
      let txs = find_unspent_transactions hex address blocks in
      let start : Gathered = record { accumulated = pos 0; outs = []; finished = false } in
      let t = gather-Gathers txs start refl in
      let nothing = chosen-enough amount (pos 0) (candidates address hex txs) h in
      let sum = rw nothing at t.sum in
      let entries = rw nothing at t.entries in λ i. (sum i, entries i)
