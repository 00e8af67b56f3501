-- ===== src/Tests/Funds.antt =====
-- A first block for an address, and funds for an address of the wallet file.
use blockchain_test.Prelude.{
  ℕ, ◌<◌, ◌≡◌, refl, ap, ◌∙◌, true, none, some, String, str_eq, List, [], ◌∷◌, ◌++◌, arith,
  replicate, if◌then◌else◌,
}
use blockchain_test.Prelude.Int.{ℤ, pos, add64}
use blockchain_test.Prelude.Bytes.{Bytes, bytes_equal, set_bytes}
use blockchain_test.Outcome.{Result, ok, panic}
use blockchain_test.Run.{Run, returns, unfinished, fails}
use blockchain_test.Tx.{coinbase_tx}
use blockchain_test.Block.{Block, hash_transactions, transaction_trie}
use blockchain_test.Block.Create.{rune_bytes, prepare_block, create_block}
use blockchain_test.Pow.{new_proof, init_data, run, to_hex, validate}
use blockchain_test.Merkle.{build_merkle_tree}
use blockchain_test.Slices.{append_items}
use blockchain_test.Forest.{Forest, new_forest, add_data, generate_merkle_proof}
use blockchain_test.Forest.Adding.{IsForest}
use blockchain_test.Chain.{Services, BlockChain, last_hash_key, next, walk, add_each, rebuild_amf}
use blockchain_test.Chain.Walk.{IsLinked}
use blockchain_test.Chain.Adding.Storing.{Laws}
use blockchain_test.Chain.Opening.{init_block_chain, continue_block_chain}
use blockchain_test.Chain.Opening.Laws.{first_reward, init_block_chain-IsLinked}
use blockchain_test.Wallet.{validate_address}
use blockchain_test.Cli.{World, Event, Env, added, balance_of}
use blockchain_test.Cli.Commands.{opened, funding, add_funds, get_balance}
use blockchain_test.Cli.Commands.Settings.{Holds}
use blockchain_test.Cli.Commands.Funds.{funding_block, add_funds-balance}
use blockchain_test.Tests.Toys.{toy_hash, toy_sized, toy_meets, toy_floats}
use blockchain_test.Tests.Chains.{
  Store, get_toy, head, root_block, toy_services, store, occasion, head_stored,
}
use blockchain_test.Tests.Wallets.{toy_crypto, own_address, own_address_valid}
use blockchain_test.Tests.Commands.{toy_env, event, world}

abbrev genesis_block : Block
genesis_block =
    create_block toy_hash toy_floats (first_reward toy_services (pos 7) "ann" ∷ []) [] occasion.now
      occasion.start

-- The first block is the only one that can be decoded.
abbrev genesis_services : Services Store
genesis_services = record toy_services { decode = λ v. some genesis_block }

genesis_services-Laws : Laws genesis_services
genesis_services-Laws = record { get-put = λ j k v db. refl; sized = toy_sized }

init_block_chain-IsLinked_example :
    (chain : BlockChain Store) × (init_block_chain genesis_services "ann"
        (pos 7)
        (pos 0)
        occasion
        none
      ≡ ok chain)
    × (get_toy last_hash_key chain.database ≡ some genesis_block.hash)
    × IsLinked genesis_services chain.database genesis_block.hash (genesis_block ∷ [])
    × ((validate toy_hash (new_proof genesis_block)).0 ≡ true)
    × (genesis_block.transactions ≡ first_reward toy_services (pos 7) "ann" ∷ [])
    × IsForest chain.amf
init_block_chain-IsLinked_example =
    init_block_chain-IsLinked genesis_services genesis_services-Laws "ann" (pos 7) (pos 0) occasion
      6 (omega arith) (omega arith)
      (toy_meets
        (prepare_block toy_hash toy_floats (first_reward toy_services (pos 7) "ann" ∷ []) []
          occasion.now)
        (init_data toy_hash
          (new_proof (
            prepare_block toy_hash toy_floats (first_reward toy_services (pos 7) "ann" ∷ []) []
              occasion.now))
          (pos 6)).0)
      refl

abbrev new_block : Block
new_block = funding_block toy_env own_address (pos 5) event head

-- As before, and the block with the funds.
abbrev funding_services : Services Store
funding_services = record toy_services {
  decode = λ v. if bytes_equal v [] then some root_block else some new_block;
}

funding_services-Laws : Laws funding_services
funding_services-Laws = record { get-put = λ j k v db. refl; sized = toy_sized }

abbrev funding_env : Env Store ℕ
funding_env = record toy_env { services = funding_services }

funding_store-IsLinked : IsLinked funding_services store head (root_block ∷ [])
unfolding next bytes_equal
funding_store-IsLinked = (refl, refl, refl)

funding-Holds : Holds funding_env world head (root_block ∷ [])
funding-Holds = record {
  db = store;
  there = refl;
  newest = head_stored;
  linked = funding_store-IsLinked;
}

abbrev pub or_else : BlockChain Store → Run (BlockChain Store) → BlockChain Store
or_else c unfinished = c
or_else c (fails e) = c
or_else c (returns chain) = chain

new_hash : new_block.hash ≡ replicate 31 0 ++ 133 ∷ []
unfolding create_block run set_bytes init_data hash_transactions new_proof transaction_trie
    rune_bytes to_hex coinbase_tx
new_hash = refl

new_prev : new_block.prev_hash ≡ head
unfolding create_block run set_bytes init_data hash_transactions new_proof transaction_trie
    rune_bytes to_hex coinbase_tx
new_prev = refl

abbrev pub blank : BlockChain Store
blank = record {
  last_hash = [];
  database = [];
  amf = new_forest (pos 0);
  consistency_mgr = record {
    node_consistency = [];
    network_stats = record { latency = pos 0; partition_prob = 0; last_heartbeats = [] };
  };
  commitments = [];
  node_id = "";
  trust_scores = [];
}

abbrev opened_chain : BlockChain Store
opened_chain = or_else blank (opened funding_env event world)

opened_again : opened funding_env event world ≡ returns opened_chain
unfolding opened continue_block_chain rebuild_amf walk next add_each add_data new_forest
    append_items bytes_equal
opened_again = refl

abbrev pub new_bytes : Bytes
new_bytes = replicate 31 0 ++ 133 ∷ []

abbrev pub or_blank : Result Forest → Forest
or_blank (ok f) = f
or_blank (panic e) = blank.amf

-- The three items that `AddBlock` adds, and the forest after them.
abbrev pub items : Bytes → Bytes → List Bytes
items hash prev = replicate 32 0 ∷ hash ∷ prev ∷ []

abbrev full_forest : Forest
full_forest =
    or_blank (add_each funding_services occasion 0 (items new_bytes head) opened_chain.amf)

items_added :
    add_each funding_services occasion 0 (items new_bytes head) opened_chain.amf ≡ ok full_forest
unfolding opened continue_block_chain rebuild_amf walk next add_each add_data new_forest
    append_items bytes_equal
items_added = refl

added_items :
    add_each funding_services occasion 0 (items new_block.hash new_block.prev_hash) opened_chain.amf
    ≡ ok full_forest
added_items =
    ap
      (λ (h : Bytes).
        add_each funding_services occasion 0 (items h new_block.prev_hash) opened_chain.amf)
      new_hash
    ∙ ap (λ (h : Bytes). add_each funding_services occasion 0 (items new_bytes h) opened_chain.amf)
        new_prev
    ∙ items_added

proved : (p : List Bytes) × (generate_merkle_proof new_bytes full_forest ≡ ok (some p))
unfolding opened continue_block_chain rebuild_amf walk next add_each add_data new_forest
    append_items bytes_equal generate_merkle_proof build_merkle_tree
proved = (_, refl)

in_full_forest : generate_merkle_proof new_block.hash full_forest ≡ ok (some proved.0)
in_full_forest = ap (λ (h : Bytes). generate_merkle_proof h full_forest) new_hash ∙ proved.1

not_stored : get_toy new_block.hash opened_chain.database ≡ none
unfolding opened continue_block_chain rebuild_amf walk next add_each add_data new_forest
    append_items bytes_equal
not_stored = rw new_hash refl

new_back :
    (if bytes_equal new_block.prev_hash [] then some root_block else some new_block)
    ≡ some new_block
unfolding bytes_equal
new_back = rw new_prev refl

add_funds-balance_example :
    (w' : World Store) × (add_funds funding_env own_address (pos 5) event world
      ≡ returns (w', added (pos 5) own_address ∷ []))
    × Holds funding_env w' new_block.hash (new_block ∷ root_block ∷ [])
    × ((other : String) (later : Event ℕ)
        → validate_address toy_crypto other ≡ ok true
        → 1 < later.fuel
        → (total : ℤ) × (get_balance funding_env other later world
            ≡ returns (world, balance_of other total ∷ []))
          × (get_balance funding_env other later w'
              ≡ returns (
                w',
                balance_of other (if str_eq own_address other then add64 total (pos 5) else total)
                    ∷ [],
              )))
unfolding coinbase_tx
add_funds-balance_example =
    let txs = funding funding_env own_address (pos 5) event ∷ [] in
    let prepared = prepare_block toy_hash toy_floats txs head (pos 1_700_000_000) in
    add_funds-balance funding_env funding_services-Laws own_address (pos 5) event world opened_chain
      head (root_block ∷ []) 6 full_forest proved.0 own_address_valid refl funding-Holds
      (omega arith) opened_again (omega arith) (omega arith)
      (toy_meets prepared (init_data toy_hash (new_proof prepared) (pos 6)).0) new_back not_stored
      added_items in_full_forest
