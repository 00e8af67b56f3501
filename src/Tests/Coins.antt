-- ===== src/Tests/Coins.antt =====
-- Coins of two addresses over two blocks.
use text.Mathlib.TextEquality.{eq_iff}
use blockchain_test.Prelude.{
  false, ◌≡◌, ◌≢◌, refl, ◌⊎◌, true, not, ◌&&◌, none, String, List, [], ◌∷◌, arith, lookup, insert,
  delete, str_eq, All, if◌then◌else◌,
}
use blockchain_test.Prelude.Int.{ltb_ℤ, pos, negsuc, ◌≤ℤ◌, sub64, add64, ◌+ℤ◌, ◌-ℤ◌}
use blockchain_test.Prelude.Bytes.{bytes_equal}
use blockchain_test.Outcome.{ok}
use blockchain_test.Tx.{
  Transaction, TxOutput, can_be_unlocked, can_unlock, is_coinbase, verify_transaction, set_id,
}
use blockchain_test.Block.{Block}
use blockchain_test.Utxo.{
  find_unspent_transactions, find_utxo, contains_index, own_outputs, outputs_of, indices_at,
  find_spendable_outputs,
}
use blockchain_test.Utxo.Spent.{
  unspent_of, listed, all_transactions, find_unspent_transactions-listed,
}
use blockchain_test.Utxo.Balance.{
  utxo, PaysOnce, SpendersFirst, find_utxo_exact, find_utxo_same_block, find_utxo_doubles,
}
use blockchain_test.Utxo.Spendable.{
  candidates, chosen, total, indices_of, find_spendable_outputs-chosen,
}
use blockchain_test.Locks.{is_address_locked}
use blockchain_test.Transfer.{new_transaction, assemble}
use blockchain_test.Transfer.Laws.{
  new_transaction-locks, new_transaction-negative, output_total, SignedBy,
}
use blockchain_test.Transfer.Payment.{IsReadable, new_transaction-paid}
use blockchain_test.Tests.Toys.{
  toy_hash, toy_hex, toy_hex_injective, toy_platform, paid, reward, self_payment, first_block,
  second_block, block_of,
}

-- Names what a run of the scans computes with.
program : Unit {0}
unfolding can_be_unlocked can_unlock is_coinbase lookup insert delete contains_index own_outputs
    find_spendable_outputs find_unspent_transactions add64 sub64 ◌+ℤ◌ ◌-ℤ◌ bytes_equal set_id
    new_transaction is_address_locked assemble
program = tt

abbrev chain : List Block
chain = second_block ∷ first_block ∷ []

find_unspent_transactions-listed_example :
    find_unspent_transactions toy_hex "ann" chain ≡ listed "ann" [] (all_transactions chain)
find_unspent_transactions-listed_example =
    find_unspent_transactions-listed toy_hex toy_hex_injective "ann" chain

-- "ann" pays "bob" all of her coins.
abbrev full_payment : Transaction
full_payment = record self_payment { outputs = paid "bob" 100 ∷ [] }

abbrev spent_later : List Block
spent_later = block_of (11 ∷ []) (10 ∷ []) (full_payment ∷ []) ∷ first_block ∷ []

pays_once : PaysOnce "ann" (all_transactions spent_later)
unfolding program
pays_once = omega arith

spenders_first : SpendersFirst "ann" (all_transactions spent_later)
unfolding program
spenders_first = (λ i. refl, (λ i. refl, tt))

find_utxo_exact_example :
    find_utxo toy_hex "ann" spent_later
    ≡ utxo "ann" (all_transactions spent_later) (all_transactions spent_later)
find_utxo_exact_example =
    find_utxo_exact toy_hex toy_hex_injective "ann" spent_later pays_once spenders_first

-- The coins of "ann" are gone, and "bob" has them.
spent_once :
    (find_utxo toy_hex "ann" spent_later ≡ [])
    × (find_utxo toy_hex "bob" spent_later ≡ paid "bob" 100 ∷ [])
unfolding program find_utxo
spent_once = (refl, refl)

abbrev spent_at_once : Block
spent_at_once = block_of (11 ∷ []) [] (reward ∷ full_payment ∷ [])

find_utxo_same_block_example :
    ((rest : List TxOutput) × (find_utxo toy_hex "ann" (spent_at_once ∷ [])
        ≡ paid "ann" 100 ∷ rest))
    × (unspent_of "ann" (all_transactions (spent_at_once ∷ [])) reward 0 reward.outputs ≡ [])
unfolding can_be_unlocked can_unlock bytes_equal is_coinbase
find_utxo_same_block_example =
    find_utxo_same_block toy_hex toy_hex_injective "ann" spent_at_once [] reward full_payment []
      (paid "ann" 100) refl refl refl refl

find_utxo_doubles_example :
    find_utxo toy_hex "ann" chain
    ≡ paid "ann" 30
      ∷ paid "ann" 70
      ∷ paid "ann" 30
      ∷ paid "ann" 70
      ∷ outputs_of "ann" (listed "ann" (self_payment ∷ []) (reward ∷ []))
unfolding can_be_unlocked
find_utxo_doubles_example =
    find_utxo_doubles toy_hex toy_hex_injective "ann" chain self_payment (reward ∷ [])
      (paid "ann" 30) (paid "ann" 70) refl refl refl refl

find_spendable_outputs-chosen_example :
    let cs = candidates "ann" toy_hex (find_unspent_transactions toy_hex "ann" chain) in
    let taken = chosen (pos 50) (pos 0) cs in
    let (acc, outs) = find_spendable_outputs toy_hex "ann" (pos 50) chain in
    (acc ≡ total (pos 0) taken)
    × ((k : String) → indices_at k outs ≡ indices_of k taken)
    × ((pos 50 ≤ℤ acc) ⊎ (taken ≡ cs))
find_spendable_outputs-chosen_example = find_spendable_outputs-chosen toy_hex "ann" (pos 50) chain

-- The self-payment is listed twice: where 120 are asked for, its first output is spent twice.
spends_twice :
    find_spendable_outputs toy_hex "ann" (pos 120) chain
    ≡ (pos 130, ("aab", pos 0 ∷ pos 1 ∷ pos 0 ∷ []) ∷ [])
unfolding program
spends_twice = refl

ann_is_named : ◌≢◌ {A = String} "ann" ""
ann_is_named = ground (arith, eq_iff "ann" "")

ann_is_free : is_address_locked "ann" [] ≡ false
unfolding program
ann_is_free = refl

enough : pos 50 ≤ℤ (find_spendable_outputs toy_hex "ann" (pos 50) chain).0
unfolding program
enough = omega arith

readable : IsReadable toy_platform "ann" (find_spendable_outputs toy_hex "ann" (pos 50) chain).1
unfolding program
readable = ((_, refl), tt)

new_transaction-paid_example :
    let acc = (find_spendable_outputs toy_hex "ann" (pos 50) chain).0 in
    (tx : Transaction) × ((new_transaction toy_platform "ann" "bob"
        (pos 50)
        (pos 9)
        (ok chain)
        []).0
      ≡ ok tx)
    × All (SignedBy "ann") tx.inputs
    × (tx.outputs
        ≡ record { value = pos 50; pub_key = "bob"; metadata = none }
          ∷ (if ltb_ℤ (pos 50) acc
              then record { value = sub64 acc (pos 50); pub_key = "ann"; metadata = none } ∷ []
              else []))
    × (output_total tx.outputs ≡ acc)
    × (verify_transaction toy_hash tx ≡ true)
new_transaction-paid_example =
    new_transaction-paid toy_platform "ann" "bob" (pos 50) (pos 9) chain [] ann_is_named
      (omega arith) ann_is_free enough readable

new_transaction-locks_example :
    lookup "bob"
      (new_transaction toy_platform "ann" "bob" (pos 50) (pos 9) (ok chain) (("bob", true) ∷ [])).1
    ≡ (if str_eq "ann" "bob" && not (is_address_locked "ann" (("bob", true) ∷ []))
        then none
        else lookup "bob" (("bob", true) ∷ []))
new_transaction-locks_example =
    new_transaction-locks toy_platform "ann" "bob" (pos 50) (pos 9) (ok chain) (("bob", true) ∷ [])
      "bob"

new_transaction-negative_example :
    (tx : Transaction) × ((new_transaction toy_platform "ann" "bob"
        (negsuc 4)
        (pos 9)
        (ok chain)
        []).0
      ≡ ok tx)
    × (tx.inputs ≡ [])
    × (tx.outputs
        ≡ record { value = negsuc 4; pub_key = "bob"; metadata = none }
          ∷ record { value = pos 5; pub_key = "ann"; metadata = none }
          ∷ [])
unfolding is_address_locked lookup
new_transaction-negative_example =
    new_transaction-negative toy_platform "ann" "bob" (negsuc 4) (pos 9) chain [] 4 (omega arith)
      refl refl refl
