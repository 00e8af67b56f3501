-- ===== src/Utxo/Balance.antt =====
-- What `FindUTXO` returns: the unspent outputs where a transaction pays an address at most once and
-- the scan passes the spenders first, and too many where a transaction pays the address twice or is
-- spent in its own block.
use mathlib.Core.List.{append_assoc, append-nil}
use blockchain_test.Prelude.{
  ℕ, ◌+◌, ◌≤◌, ◌≡◌, refl, sym, ap, ◌∙◌, ◌⊎◌, inl, inr, true, false, ◌||◌, String, List, [], ◌∷◌,
  ◌++◌, map, arith, length, All,
}
use blockchain_test.Prelude.Int.{ℤ, pos}
use blockchain_test.Prelude.Bytes.{Bytes}
use blockchain_test.Tx.{Transaction, TxOutput, can_be_unlocked}
use blockchain_test.Block.{Block}
use blockchain_test.Utxo.{own_outputs, outputs_of, find_utxo}
use blockchain_test.Utxo.Spent.{
  unspent_of, is_spent, listed, all_transactions, find_unspent_transactions-listed,
}

-- The outputs of the address that no transaction of `all` spends, each once, in the order of the scan.
abbrev pub utxo : String → List Transaction → List Transaction → List TxOutput
utxo address all [] = []
utxo address all (tx ∷ older) = unspent_of address all tx 0 tx.outputs ++ utxo address all older

-- No transaction spends an output of its own or of a transaction that the scan passed before it.
abbrev pub SpendersFirst : String → List Transaction → Type 0
SpendersFirst address [] = Unit {0}
SpendersFirst address (tx ∷ older) =
    ((i : ℕ) → is_spent address (tx ∷ older) tx.id (pos i) ≡ false) × SpendersFirst address older

-- Every transaction has at most one output for the address.
abbrev pub PaysOnce : String → List Transaction → Type 0
PaysOnce address = All (λ tx. length (own_outputs address tx.outputs) ≤ 1)

module _ (address : String) where
  pub outputs_of-append :
      (xs ys : List Transaction)
      → outputs_of address (xs ++ ys) ≡ outputs_of address xs ++ outputs_of address ys
  unfolding outputs_of
  outputs_of-append [] ys = refl
  outputs_of-append (tx ∷ xs) ys =
      rw (outputs_of-append xs ys) (sym (append_assoc (own_outputs address tx.outputs) _ _))

  unspent-none :
      (newer : List Transaction) (tx : Transaction) (i : ℕ) (outs : List TxOutput)
      → own_outputs address outs ≡ []
      → unspent_of address newer tx i outs ≡ []
  unfolding own_outputs
  unspent-none newer tx i [] h = refl
  unspent-none newer tx i (out ∷ outs) h = ground (arith, unspent-none newer tx (i + 1) outs)

  unspent-cases :
      (newer : List Transaction) (tx : Transaction) (i : ℕ) (outs : List TxOutput)
      → length (own_outputs address outs) ≤ 1
      → (unspent_of address newer tx i outs ≡ [])
        ⊎ (unspent_of address newer tx i outs ≡ own_outputs address outs)
  unfolding own_outputs
  unspent-cases newer tx i [] h = inl refl
  unspent-cases newer tx i (out ∷ outs) h =
      grind (arith, unspent-cases newer tx (i + 1) outs, unspent-none newer tx (i + 1) outs)

  -- A transaction listed once for each of its own outputs, of which there is at most one.
  listing-own :
      (tx : Transaction) (outs : List TxOutput)
      → own_outputs address tx.outputs ≡ outs
      → length outs ≤ 1
      → outputs_of address (map (λ _. tx) outs) ≡ outs
  unfolding outputs_of
  listing-own tx [] e h = refl
  listing-own tx (out ∷ []) e h = append-nil (own_outputs address tx.outputs) ∙ e
  listing-own tx (out ∷ out' ∷ outs) e h = absurd (omega arith)

  listing-once :
      (newer : List Transaction) (tx : Transaction)
      → length (own_outputs address tx.outputs) ≤ 1
      → outputs_of address (map (λ _. tx) (unspent_of address newer tx 0 tx.outputs))
        ≡ unspent_of address newer tx 0 tx.outputs
  listing-once newer tx h = elim (unspent-cases newer tx 0 tx.outputs h) [
    | inl e ↦ rw e (unfold outputs_of in refl)
    | inr e ↦ rw e (listing-own tx (own_outputs address tx.outputs) refl h)
  ]

  -- The outputs spent in all of the chain are those spent by the transactions passed, if no other
  -- transaction spends them.
  unspent-same :
      (newer txs all : List Transaction) (tx : Transaction)
      → ((id : Bytes) (i : ℤ)
          → is_spent address all id i ≡ (is_spent address newer id i || is_spent address txs id i))
      → ((i : ℕ) → is_spent address txs tx.id (pos i) ≡ false)
      → (i : ℕ) (outs : List TxOutput)
      → unspent_of address newer tx i outs ≡ unspent_of address all tx i outs
  unspent-same newer txs all tx same first i [] = refl
  unspent-same newer txs all tx same first i (out ∷ outs) =
      ground
        (arith, same tx.id (pos i), first i, unspent-same newer txs all tx same first (i + 1) outs)

  outputs-listed :
      (newer txs all : List Transaction)
      → ((id : Bytes) (i : ℤ)
          → is_spent address all id i ≡ (is_spent address newer id i || is_spent address txs id i))
      → SpendersFirst address txs
      → PaysOnce address txs
      → outputs_of address (listed address newer txs) ≡ utxo address all txs
  unfolding outputs_of
  outputs-listed newer [] all same first h = refl
  outputs-listed newer (tx ∷ txs) all same first h =
      outputs_of-append (map (λ _. tx) (unspent_of address newer tx 0 tx.outputs)) _
      ∙ rw
          (
            listing-once newer tx h.0,
            unspent-same newer (tx ∷ txs) all tx same first.0 0 tx.outputs,
            outputs-listed (tx ∷ newer) txs all (λ id i. ground (arith, same id i)) first.1 h.1,
          )
          refl

module _ (hex : Bytes → String) (hex_injective : (a b : Bytes) → hex a ≡ hex b → a ≡ b)
    (address : String) where
  -- If every transaction has at most one output for the address, and no transaction spends an output
  -- of its own or of a transaction that the scan passed before it, `FindUTXO` returns exactly the
  -- outputs of the address that no transaction of the whole chain spends, each once.
  pub find_utxo_exact :
      (blocks : List Block)
      → PaysOnce address (all_transactions blocks)
      → SpendersFirst address (all_transactions blocks)
      → find_utxo hex address blocks
        ≡ utxo address (all_transactions blocks) (all_transactions blocks)
  unfolding find_utxo
  find_utxo_exact blocks h first =
      rw (find_unspent_transactions-listed hex hex_injective address blocks) (
        outputs-listed address [] (all_transactions blocks) (all_transactions blocks) (λ id i. refl)
          first h)

  -- If the newest block begins with a transaction whose only output belongs to the address and with
  -- a transaction that spends it, `FindUTXO` still returns the output, though the output is not
  -- among those that no transaction of the chain spends.
  pub find_utxo_same_block :
      (block : Block) (older : List Block) (tx spender : Transaction) (more : List Transaction)
      (out : TxOutput)
      → block.transactions ≡ tx ∷ spender ∷ more
      → tx.outputs ≡ out ∷ []
      → can_be_unlocked out address ≡ true
      → is_spent address (spender ∷ []) tx.id (pos 0) ≡ true
      → ((rest : List TxOutput) × (find_utxo hex address (block ∷ older) ≡ out ∷ rest))
        × (unspent_of address (all_transactions (block ∷ older)) tx 0 tx.outputs ≡ [])
  unfolding find_utxo outputs_of
  find_utxo_same_block block older tx spender more out e o own spent =
      let all = all_transactions (block ∷ older) in
      let unspent : unspent_of address [] tx 0 tx.outputs ≡ out ∷ [] =
        ap (unspent_of address [] tx 0) o ∙ rw own refl in
      let mine : own_outputs address tx.outputs ≡ out ∷ [] =
        ap (own_outputs address) o ∙ (unfold own_outputs in rw own refl) in
      let gone : is_spent address all tx.id (pos 0) ≡ true = rw e (ground arith) in
      (
        (
          outputs_of address (listed address (tx ∷ []) (spender ∷ more ++ all_transactions older)),
          rw
              (
                find_unspent_transactions-listed hex hex_injective address (block ∷ older),
                e,
                unspent,
              )
              (rw mine refl),
        ),
        ap (unspent_of address all tx 0) o ∙ rw (own, gone) refl,
      )

  -- If the newest transaction has two outputs and both belong to the address, `FindUTXO` returns
  -- each of them twice.
  pub find_utxo_doubles :
      (blocks : List Block) (tx : Transaction) (older : List Transaction) (a b : TxOutput)
      → all_transactions blocks ≡ tx ∷ older
      → tx.outputs ≡ a ∷ b ∷ []
      → can_be_unlocked a address ≡ true
      → can_be_unlocked b address ≡ true
      → find_utxo hex address blocks
        ≡ a ∷ b ∷ a ∷ b ∷ outputs_of address (listed address (tx ∷ []) older)
  unfolding find_utxo outputs_of
  find_utxo_doubles blocks tx older a b e o p q =
      let unspent : unspent_of address [] tx 0 tx.outputs ≡ a ∷ b ∷ [] =
        ap (unspent_of address [] tx 0) o ∙ rw (p, q) in
      let own : own_outputs address tx.outputs ≡ a ∷ b ∷ [] =
        ap (own_outputs address) o ∙ (unfold own_outputs in rw (p, q)) in
      rw (find_unspent_transactions-listed hex hex_injective address blocks, e, unspent, own)
