-- ===== src/Utxo/Spent.antt =====
-- The map of spent outputs stands for a predicate on the transactions passed: those of newer blocks
-- and the earlier ones of the same block, which `newer` holds.
use blockchain_test.Prelude.{
  ℕ, ◌+◌, ◌≡◌, refl, sym, ap, ◌∙◌, Bool, false, not, ◌&&◌, ◌||◌, String, List, [], ◌∷◌, ◌++◌, map,
  arith, Map, lookup, lookup-insert, str_eq, if◌then◌else◌,
}
use text.Mathlib.TextEquality.{eq_iff}
use mathlib.Core.List.{append_assoc, append-nil}
use blockchain_test.Prelude.Int.{ℤ, pos, eq_ℤ}
use blockchain_test.Prelude.Bytes.{Bytes, bytes_equal, bytes_equal_iff}
use blockchain_test.Tx.{Transaction, TxInput, TxOutput, can_unlock, can_be_unlocked, is_coinbase}
use blockchain_test.Block.{Block}
use blockchain_test.Utxo.{
  indices_at, push_index, contains_index, unspent_outputs, mark_inputs, scan_transaction,
  scan_transactions, scan_blocks, find_unspent_transactions,
}

-- The input is signed by the address and names output `i` of the transaction `id`.
abbrev pub input_spends : String → TxInput → Bytes → ℤ → Bool
input_spends address input id i =
    can_unlock input address && (bytes_equal input.id id && eq_ℤ input.out_index i)

abbrev pub inputs_spend : String → List TxInput → Bytes → ℤ → Bool
inputs_spend address [] id i = false
inputs_spend address (input ∷ inputs) id i =
    input_spends address input id i || inputs_spend address inputs id i

-- Some transaction of the list that is not a coinbase spends output `i` of `id` for the address.
abbrev pub is_spent : String → List Transaction → Bytes → ℤ → Bool
is_spent address [] id i = false
is_spent address (tx ∷ txs) id i =
    not (is_coinbase tx) && inputs_spend address tx.inputs id i || is_spent address txs id i

-- The outputs of `tx` from index `i` on that belong to the address and that no transaction of the
-- first list spends.
abbrev pub unspent_of : String → List Transaction → Transaction → ℕ → List TxOutput → List TxOutput
unspent_of address newer tx i [] = []
unspent_of address newer tx i (out ∷ outs) =
    let later = unspent_of address newer tx (i + 1) outs in
    if can_be_unlocked out address && not (is_spent address newer tx.id (pos i))
    then out ∷ later
    else later

-- Each transaction once for every unspent output; `newer` are the transactions already passed.
abbrev pub listed : String → List Transaction → List Transaction → List Transaction
listed address newer [] = []
listed address newer (tx ∷ older) =
    map (λ _. tx) (unspent_of address newer tx 0 tx.outputs) ++ listed address (tx ∷ newer) older

abbrev pub all_transactions : List Block → List Transaction
all_transactions [] = []
all_transactions (b ∷ blocks) = b.transactions ++ all_transactions blocks

contains-append :
    (i : ℤ) (xs ys : List ℤ)
    → contains_index i (xs ++ ys) ≡ (contains_index i xs || contains_index i ys)
unfolding contains_index
contains-append i [] ys = refl
contains-append i (x ∷ xs) ys = ground (arith, contains-append i xs ys)

module _ (hex : Bytes → String) (hex_injective : (a b : Bytes) → hex a ≡ hex b → a ≡ b)
    (address : String) where
  hex_eq : (a b : Bytes) → str_eq (hex a) (hex b) ≡ bytes_equal a b
  hex_eq a b = ground (
    arith,
    eq_iff (hex a) (hex b),
    bytes_equal_iff a b,
    hex_injective a b,
    ap hex {x = a} {y = b},
  )

  -- The map answers as the predicate does.
  abbrev Represents : Map (List ℤ) → List Transaction → Type 0
  Represents spent newer =
      (id : Bytes) (i : ℤ)
      → contains_index i (indices_at (hex id) spent) ≡ is_spent address newer id i

  contains-push :
      (id' id : Bytes) (j i : ℤ) (spent : Map (List ℤ))
      → contains_index i (indices_at (hex id) (push_index (hex id') j spent))
        ≡ ((bytes_equal id' id && eq_ℤ j i) || contains_index i (indices_at (hex id) spent))
  unfolding contains_index
  contains-push id' id j i spent =
      rw (lookup-insert, hex_eq id' id)
        (ground
          (arith, bytes_equal_iff id' id, contains-append i (indices_at (hex id') spent) (j ∷ [])))

  contains-mark :
      (inputs : List TxInput) (spent : Map (List ℤ)) (id : Bytes) (i : ℤ)
      → contains_index i (indices_at (hex id) (mark_inputs hex address inputs spent))
        ≡ (inputs_spend address inputs id i || contains_index i (indices_at (hex id) spent))
  unfolding mark_inputs
  contains-mark [] spent id i = refl
  contains-mark (input ∷ inputs) spent id i =
      contains-mark inputs
        (if can_unlock input address
          then push_index (hex input.id) input.out_index spent
          else spent)
        id i
      ∙ ground (arith, contains-push input.id id input.out_index i spent)

  Represents-scan :
      (tx : Transaction) (found : List Transaction) (spent : Map (List ℤ))
      (newer : List Transaction)
      → Represents spent newer
      → Represents (scan_transaction hex address tx (found, spent)).1 (tx ∷ newer)
  unfolding scan_transaction
  Represents-scan tx found spent newer h id i =
      ground (arith, h id i, contains-mark tx.inputs spent id i)

  outputs-unspent :
      (tx : Transaction) (spent : Map (List ℤ)) (newer : List Transaction)
      → Represents spent newer
      → (i : ℕ) (outs : List TxOutput)
      → unspent_outputs address tx (indices_at (hex tx.id) spent) i outs
        ≡ map (λ _. tx) (unspent_of address newer tx i outs)
  unfolding unspent_outputs
  outputs-unspent tx spent newer h i [] = refl
  outputs-unspent tx spent newer h i (out ∷ outs) =
      ground (arith, h tx.id (pos i), outputs-unspent tx spent newer h (i + 1) outs)

  scan-listed :
      (txs : List Transaction) (found : List Transaction) (spent : Map (List ℤ))
      (newer : List Transaction)
      → Represents spent newer
      → (scan_transactions hex address txs (found, spent)).0 ≡ found ++ listed address newer txs
  unfolding scan_transactions scan_transaction
  scan-listed [] found spent newer h = sym (append-nil found)
  scan-listed (tx ∷ txs) found spent newer h =
      let (found', spent') = scan_transaction hex address tx (found, spent) in
      scan-listed txs found' spent' (tx ∷ newer) (Represents-scan tx found spent newer h)
      ∙ rw (outputs-unspent tx spent newer h 0 tx.outputs) (
          append_assoc found (map (λ _. tx) (unspent_of address newer tx 0 tx.outputs))
            (listed address (tx ∷ newer) txs))

  scan-append :
      (xs ys : List Transaction) (s : List Transaction × Map (List ℤ))
      → scan_transactions hex address (xs ++ ys) s
        ≡ scan_transactions hex address ys (scan_transactions hex address xs s)
  unfolding scan_transactions
  scan-append [] ys s = refl
  scan-append (tx ∷ xs) ys s = scan-append xs ys (scan_transaction hex address tx s)

  scan_blocks-flat :
      (blocks : List Block) (s : List Transaction × Map (List ℤ))
      → scan_blocks hex address blocks s ≡ scan_transactions hex address (all_transactions blocks) s
  unfolding scan_blocks
  scan_blocks-flat [] s = refl
  scan_blocks-flat (b ∷ blocks) s =
      scan_blocks-flat blocks (scan_transactions hex address b.transactions s)
      ∙ sym (scan-append b.transactions (all_transactions blocks) s)

  -- `FindUnspentTransactions` lists, from the newest block to the oldest and in each block from the
  -- first to the last, each transaction once for every output that belongs to the address and that
  -- no transaction passed before it spends.
  pub find_unspent_transactions-listed :
      (blocks : List Block)
      → find_unspent_transactions hex address blocks ≡ listed address [] (all_transactions blocks)
  unfolding find_unspent_transactions contains_index lookup
  find_unspent_transactions-listed blocks =
      ap (λ (s : List Transaction × Map (List ℤ)). s.0) (scan_blocks-flat blocks ([], []))
      ∙ scan-listed (all_transactions blocks) [] [] [] (λ id i. refl)
