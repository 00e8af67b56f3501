-- ===== src/Tests/Payments.antt =====
-- A payment of 30 out of a reward of 100.
use text.Mathlib.TextEquality.{eq_iff}
use blockchain_test.Prelude.{
  ℕ, ◌<◌, ◌≡◌, ◌≢◌, refl, ap, ◌∙◌, true, none, some, String, str_eq, List, [], ◌∷◌, ◌++◌, arith,
  replicate, lookup, insert, if◌then◌else◌,
}
use blockchain_test.Prelude.Int.{ℤ, pos, add64, ◌+ℤ◌, sub64, ◌-ℤ◌}
use blockchain_test.Prelude.Bytes.{Bytes, bytes_equal, set_bytes}
use blockchain_test.Outcome.{ok}
use blockchain_test.Run.{returns}
use blockchain_test.Tx.{Transaction, can_be_unlocked}
use blockchain_test.Block.{Block, hash_transactions, transaction_trie}
use blockchain_test.Block.Create.{rune_bytes, prepare_block, create_block}
use blockchain_test.Pow.{new_proof, init_data, run, to_hex}
use blockchain_test.Merkle.{build_merkle_tree}
use blockchain_test.Slices.{append_items}
use blockchain_test.Forest.{Forest, new_forest, add_data, generate_merkle_proof}
use blockchain_test.Locks.{is_address_locked}
use blockchain_test.Transfer.{assemble, new_transaction}
use blockchain_test.Utxo.{contains_index, find_spendable_outputs}
use blockchain_test.Chain.{Services, BlockChain, next, walk, add_each, rebuild_amf}
use blockchain_test.Chain.Walk.{IsLinked}
use blockchain_test.Chain.Adding.Storing.{Laws}
use blockchain_test.Chain.Opening.{continue_block_chain}
use blockchain_test.Wallet.{base58_decode, check_sum, check_full, validate_address}
use blockchain_test.Cli.{World, Event, Env, sent, balance_of, platform}
use blockchain_test.Cli.Commands.{opened, send, get_balance}
use blockchain_test.Cli.Commands.Settings.{Holds}
use blockchain_test.Cli.Commands.Sending.{payment_block, send-balance}
use blockchain_test.Tests.Toys.{toy_hash, toy_sized, toy_meets, toy_floats, reward, paid, block_of}
use blockchain_test.Tests.Chains.{Store, get_toy, head, toy_services, store, occasion, head_stored}
use blockchain_test.Tests.Wallets.{toy_crypto}
use blockchain_test.Tests.Funds.{or_else, blank, new_bytes, or_blank, items}
use blockchain_test.Tests.Commands.{toy_env, event, world}

abbrev payer : String
payer = "baaaaaaabbbbb"

abbrev payee : String
payee = "aaaaabbbbb"

payer_valid : validate_address toy_crypto payer ≡ ok true
unfolding validate_address base58_decode check_full check_sum bytes_equal
payer_valid = refl

payee_valid : validate_address toy_crypto payee ≡ ok true
unfolding validate_address base58_decode check_full check_sum bytes_equal
payee_valid = refl

abbrev first : Block
first = block_of head [] (record reward { outputs = paid payer 100 ∷ [] } ∷ [])

-- The reward is spent: 30 for the payee, and 70 back.
abbrev payment : Transaction
payment = record {
  id = replicate 32 0;
  inputs = record { id = 1 ∷ []; out_index = pos 0; signature = payer; state_proof = none } ∷ [];
  outputs = paid payee 30 ∷ paid payer 70 ∷ [];
  timestamp = pos 7;
  signature = none;
  lock_time = pos 0;
  state_proof = some (replicate 32 0);
}

made :
    (new_transaction (platform toy_services) payer payee (pos 30) (pos 7) (ok (first ∷ [])) []).0
    ≡ ok payment
unfolding new_transaction is_address_locked lookup find_spendable_outputs contains_index
    can_be_unlocked add64 ◌+ℤ◌ sub64 ◌-ℤ◌ assemble insert
made = refl

abbrev new_block : Block
new_block = payment_block toy_env payment event head

abbrev paying_services : Services Store
paying_services = record toy_services {
  decode = λ v. if bytes_equal v [] then some first else some new_block;
}

paying_services-Laws : Laws paying_services
paying_services-Laws = record { get-put = λ j k v db. refl; sized = toy_sized }

abbrev paying_env : Env Store ℕ
paying_env = record toy_env { services = paying_services }

paying_store-IsLinked : IsLinked paying_services store head (first ∷ [])
unfolding next bytes_equal
paying_store-IsLinked = (refl, refl, refl)

paying-Holds : Holds paying_env world head (first ∷ [])
paying-Holds = record {
  db = store;
  there = refl;
  newest = head_stored;
  linked = paying_store-IsLinked;
}

new_hash : new_block.hash ≡ replicate 31 0 ++ 133 ∷ []
unfolding create_block run set_bytes init_data hash_transactions new_proof transaction_trie
    rune_bytes to_hex
new_hash = refl

new_prev : new_block.prev_hash ≡ head
unfolding create_block run set_bytes init_data hash_transactions new_proof transaction_trie
    rune_bytes to_hex
new_prev = refl

abbrev opened_chain : BlockChain Store
opened_chain = or_else blank (opened paying_env event world)

opened_again : opened paying_env event world ≡ returns opened_chain
unfolding opened continue_block_chain rebuild_amf walk next add_each add_data new_forest
    append_items bytes_equal
opened_again = refl

abbrev full_forest : Forest
full_forest = or_blank (add_each paying_services occasion 0 (items new_bytes head) opened_chain.amf)

items_added :
    add_each paying_services occasion 0 (items new_bytes head) opened_chain.amf ≡ ok full_forest
unfolding opened continue_block_chain rebuild_amf walk next add_each add_data new_forest
    append_items bytes_equal
items_added = refl

added_items :
    add_each paying_services occasion 0 (items new_block.hash new_block.prev_hash) opened_chain.amf
    ≡ ok full_forest
added_items =
    ap
      (λ (h : Bytes).
        add_each paying_services occasion 0 (items h new_block.prev_hash) opened_chain.amf)
      new_hash
    ∙ ap (λ (h : Bytes). add_each paying_services occasion 0 (items new_bytes h) opened_chain.amf)
        new_prev
    ∙ items_added

proved : (p : List Bytes) × (generate_merkle_proof new_bytes full_forest ≡ ok (some p))
unfolding opened continue_block_chain rebuild_amf walk next add_each add_data new_forest
    append_items bytes_equal generate_merkle_proof build_merkle_tree
proved = (_, refl)

in_full_forest : generate_merkle_proof new_block.hash full_forest ≡ ok (some proved.0)
in_full_forest = ap (λ (h : Bytes). generate_merkle_proof h full_forest) new_hash ∙ proved.1

not_stored : get_toy new_block.hash opened_chain.database ≡ none
unfolding opened continue_block_chain rebuild_amf walk next add_each add_data new_forest
    append_items bytes_equal
not_stored = rw new_hash refl

new_back :
    (if bytes_equal new_block.prev_hash [] then some first else some new_block) ≡ some new_block
unfolding bytes_equal
new_back = rw new_prev refl

payer_is_named : ◌≢◌ {A = String} payer ""
payer_is_named = ground (arith, eq_iff payer "")

send-balance_example :
    (w' : World Store) × (send paying_env payer payee (pos 30) event world
      ≡ returns (w', sent ∷ []))
    × (w'.locks
        ≡ (new_transaction
            (platform toy_services)
            payer
            payee
            (pos 30)
            (pos 7)
            (ok (first ∷ []))
            []).1)
    × Holds paying_env w' new_block.hash (new_block ∷ first ∷ [])
    × ((other : String) (later : Event ℕ)
        → payer ≢ other
        → validate_address toy_crypto other ≡ ok true
        → 1 < later.fuel
        → (total : ℤ) × (get_balance paying_env other later world
            ≡ returns (world, balance_of other total ∷ []))
          × (get_balance paying_env other later w'
              ≡ returns (
                w',
                balance_of other (if str_eq payee other then add64 total (pos 30) else total) ∷ [],
              )))
send-balance_example =
    let prepared = prepare_block toy_hash toy_floats (payment ∷ []) head (pos 1_700_000_000) in
    send-balance paying_env paying_services-Laws payer payee (pos 30) event world opened_chain head
      (first ∷ []) payment 6 full_forest proved.0 payer_valid payee_valid payer_is_named
      (omega arith) paying-Holds (omega arith) opened_again made (omega arith) (omega arith)
      (toy_meets prepared (init_data toy_hash (new_proof prepared) (pos 6)).0) new_back not_stored
      added_items in_full_forest
