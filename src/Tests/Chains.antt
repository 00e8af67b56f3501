-- ===== src/Tests/Chains.antt =====
-- A chain of one block, and the block that follows it.
use blockchain_test.Prelude.{
  ◌≡◌, refl, ap, ◌∙◌, true, Option, none, some, List, [], ◌∷◌, ◌++◌, arith, replicate,
  if◌then◌else◌,
}
use blockchain_test.Prelude.Int.{pos}
use blockchain_test.Prelude.Bytes.{Bytes, bytes_equal, set_bytes}
use blockchain_test.Outcome.{Result, ok, panic}
use blockchain_test.Block.{Block, hash_transactions, transaction_trie}
use blockchain_test.Block.Create.{rune_bytes, prepare_block, create_block}
use blockchain_test.Pow.{new_proof, init_data, run, to_hex, validate}
use blockchain_test.Merkle.{leaf, build_merkle_tree}
use blockchain_test.Forest.{Forest, new_forest, add_data, generate_merkle_proof}
use blockchain_test.Chain.{Services, BlockChain, Occasion, last_hash_key, next, add_each}
use blockchain_test.Chain.Integrity.{verify_block_integrity}
use blockchain_test.Chain.Adding.{add_block}
use blockchain_test.Chain.Walk.{IsLinked}
use blockchain_test.Chain.Integrity.Laws.{verify-replaced}
use blockchain_test.Chain.Adding.Storing.{Laws}
use blockchain_test.Chain.Adding.Laws.{add_block-extends}
use blockchain_test.Tests.Toys.{
  toy_hash, toy_sized, toy_meets, toy_floats, toy_hex, toy_unhex, reward, block_of,
}
use blockchain_test.Slices.{append_items}
use blockchain_test.Tests.Forests.{toy_moment, small_forest}

abbrev pub Store : Type 0
Store = List (Bytes × Bytes)

abbrev pub get_toy : Bytes → Store → Option Bytes
get_toy k [] = none
get_toy k ((j, v) ∷ db) = if bytes_equal j k then some v else get_toy k db

abbrev pub head : Bytes
head = replicate 32 9

abbrev pub root_block : Block
root_block = block_of head [] (reward ∷ [])

abbrev new_block : Block
new_block = create_block toy_hash toy_floats (reward ∷ []) head (pos 1_700_000_000) 5

abbrev pub toy_services : Services Store
toy_services = record {
  get = get_toy;
  put = λ k v db. (k, v) ∷ db;
  encode = λ b. b.prev_hash;
  decode = λ v. if bytes_equal v [] then some root_block else some new_block;
  hex = toy_hex;
  unhex = toy_unhex;
  encode_tx = λ tx. [];
  reward_text = λ amount to. to;
  visit = λ m. m;
  fresh = [];
  sha256 = toy_hash;
  floats = toy_floats;
}

pub toy_services-Laws : Laws toy_services
toy_services-Laws = record { get-put = λ j k v db. refl; sized = toy_sized }

abbrev pub store : Store
store = (last_hash_key, head) ∷ (head, []) ∷ []

pub store-IsLinked : IsLinked toy_services store head (root_block ∷ [])
unfolding next bytes_equal
store-IsLinked = (refl, refl, refl)

abbrev pub occasion : Occasion
occasion = record { now = pos 1_700_000_000; start = 5; moments = λ n. toy_moment }

abbrev chain : BlockChain Store
chain = record {
  last_hash = head;
  database = store;
  amf = small_forest;
  consistency_mgr = record {
    node_consistency = [];
    network_stats = record { latency = pos 0; partition_prob = 0; last_heartbeats = [] };
  };
  commitments = [];
  node_id = "node";
  trust_scores = [];
}

new_hash : new_block.hash ≡ replicate 31 0 ++ 136 ∷ []
unfolding create_block run set_bytes init_data hash_transactions new_proof transaction_trie
    rune_bytes to_hex
new_hash = refl

new_prev : new_block.prev_hash ≡ head
unfolding create_block run set_bytes init_data hash_transactions new_proof transaction_trie
    rune_bytes to_hex
new_prev = refl

new_back :
    (if bytes_equal new_block.prev_hash [] then some root_block else some new_block)
    ≡ some new_block
unfolding bytes_equal
new_back = rw new_prev refl

not_stored : get_toy new_block.hash store ≡ none
unfolding bytes_equal
not_stored = rw new_hash refl

-- The three items that `AddBlock` adds, with the hash and the encoding of the new block computed.
abbrev new_items : List Bytes
new_items = (1 ∷ []) ∷ (replicate 31 0 ++ 136 ∷ []) ∷ head ∷ []

abbrev or_small : Result Forest → Forest
or_small (ok f) = f
or_small (panic e) = small_forest

abbrev full_forest : Forest
full_forest = or_small (add_each toy_services occasion 0 new_items small_forest)

items_added : add_each toy_services occasion 0 new_items small_forest ≡ ok full_forest
unfolding add_each add_data new_forest append_items
items_added = refl

added :
    add_each toy_services occasion 0
      ((1 ∷ []) ∷ new_block.hash ∷ new_block.prev_hash ∷ [])
      small_forest
    ≡ ok full_forest
added =
    ap
      (λ (h : Bytes).
        add_each toy_services occasion 0 ((1 ∷ []) ∷ h ∷ new_block.prev_hash ∷ []) small_forest)
      new_hash
    ∙ ap
        (λ (h : Bytes).
          add_each toy_services occasion 0 ((1 ∷ []) ∷ (replicate 31 0 ++ 136 ∷ []) ∷ h ∷ [])
            small_forest)
        new_prev
    ∙ items_added

proved :
    (p : List Bytes) × (generate_merkle_proof (replicate 31 0 ++ 136 ∷ []) full_forest
      ≡ ok (some p))
unfolding add_each add_data new_forest append_items generate_merkle_proof bytes_equal
    build_merkle_tree
proved = (_, refl)

in_full_forest : generate_merkle_proof new_block.hash full_forest ≡ ok (some proved.0)
in_full_forest = ap (λ (h : Bytes). generate_merkle_proof h full_forest) new_hash ∙ proved.1

pub head_stored : get_toy last_hash_key store ≡ some head
unfolding bytes_equal
head_stored = refl

add_block-extends_example :
    (chain' : BlockChain Store) × (add_block toy_services (reward ∷ []) occasion chain ≡ ok chain')
    × (chain'.last_hash ≡ new_block.hash)
    × (get_toy last_hash_key chain'.database ≡ some new_block.hash)
    × IsLinked toy_services chain'.database new_block.hash (new_block ∷ root_block ∷ [])
    × (chain'.amf ≡ full_forest)
add_block-extends_example =
    add_block-extends toy_services toy_services-Laws reward [] occasion chain head (root_block ∷ [])
      6 full_forest proved.0 head_stored store-IsLinked (omega arith) (omega arith)
      (toy_meets (prepare_block toy_hash toy_floats (reward ∷ []) head (pos 1_700_000_000))
        (init_data toy_hash
          (new_proof (prepare_block toy_hash toy_floats (reward ∷ []) head (pos 1_700_000_000)))
          (pos 6)).0)
      new_back not_stored added in_full_forest

-- The first block, with the tree over its reward, and then with the reward gone.
abbrev full_block : Block
full_block = record root_block { tx_trie = some (leaf (1 ∷ []) []); prev_hash = head }

abbrev forest_with : Forest
forest_with = or_small (add_each toy_services occasion 0 (head ∷ []) small_forest)

head_proved : (p : List Bytes) × (generate_merkle_proof head forest_with ≡ ok (some p))
unfolding add_each add_data new_forest append_items generate_merkle_proof bytes_equal
    build_merkle_tree
head_proved = (_, refl)

verify-replaced_example :
    let emptied = record full_block { transactions = [] } in
    verify_block_integrity toy_services occasion 0 emptied forest_with
    ≡ ok (true, emptied, forest_with)
unfolding validate set_bytes new_proof
verify-replaced_example =
    verify-replaced toy_services occasion 0 full_block forest_with (leaf (1 ∷ []) []) head_proved.0
      [] refl (toy_meets full_block (init_data toy_hash (new_proof full_block) (pos 0)).0)
      head_proved.1
