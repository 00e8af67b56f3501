-- ===== src/Tests/Commands.antt =====
-- Commands on the chain of one block, with the stand-ins for the packages.
use blockchain_test.Prelude.{
  ℕ, ◌+◌, ◌-◌, ◌<◌, ◌≡◌, ◌≢◌, refl, true, false, some, String, [], ◌∷◌, arith, if◌then◌else◌, ◌==◌,
  ==_iff,
}
use blockchain_test.Prelude.Int.{pos}
use blockchain_test.Prelude.Bytes.{bytes_equal}
use blockchain_test.Prelude.Float.{Float64}
use blockchain_test.Outcome.{ok, panic, index_out_of_range}
use blockchain_test.Run.{returns, unfinished}
use blockchain_test.Network.{causal_consistency, strong_consistency, get_consistency_level}
use blockchain_test.Chain.{BlockChain}
use blockchain_test.Chain.Opening.{continue_block_chain}
use blockchain_test.Chain.Opening.Laws.{continue_block_chain-IsLinked}
use blockchain_test.Forest.Adding.{IsForest}
use blockchain_test.Wallet.{address, check_sum}
use blockchain_test.Wallet.Store.{unreadable, holding}
use blockchain_test.Cli.{
  World, Event, Env, level_set, current_level, probability, new_address, address_line,
  invalid_option,
}
use blockchain_test.Cli.Commands.{
  set_consistency_level, view_network_status, create_wallet, list_addresses,
}
use blockchain_test.Cli.Commands.Settings.{Holds, set_consistency_level-forgotten}
use blockchain_test.Cli.Commands.Files.{create_wallet-overwrites}
use blockchain_test.Cli.Menu.{CommandLine}
use blockchain_test.Cli.Menu.Loop.{menu_turn, interactive_mode}
use blockchain_test.Cli.Menu.Steps.{ended, interactive_mode-end_of_input}
use blockchain_test.Cli.Flags.{Args, is_flag, global_flags}
use blockchain_test.Cli.Flags.Global.{global_flags-two}
use blockchain_test.Tests.Chains.{
  Store, head, root_block, toy_services, store, store-IsLinked, occasion, head_stored,
}
use blockchain_test.Tests.Wallets.{toy_crypto, own_address}

abbrev pub toy_env : Env Store ℕ
toy_env = record {
  services = toy_services;
  crypto = toy_crypto;
  reward_line = λ amount. "Reward";
  parse_float = λ text. some 0;
}

abbrev pub event : Event ℕ
event = record {
  fuel = 2;
  born = pos 0;
  opening = occasion;
  now = pos 7;
  block = occasion;
  generated = some (3, 4 ∷ [], 5 ∷ []);
  visit = λ n ws. ws;
}

-- A database with one block, and a wallet file that cannot be read.
abbrev pub world : World Store
world = record {
  disk = record { file = unreadable; writable = true };
  database = some store;
  locks = [];
}

world-Holds : Holds toy_env world head (root_block ∷ [])
world-Holds = record { db = store; there = refl; newest = head_stored; linked = store-IsLinked }

continue_block_chain-IsLinked_example :
    (chain : BlockChain Store) × (continue_block_chain toy_services 1 (pos 0) occasion (some store)
      ≡ some (ok chain))
    × (chain.database ≡ store)
    × (chain.last_hash ≡ head)
    × IsForest chain.amf
    × (chain.consistency_mgr.node_consistency ≡ [])
    × (chain.trust_scores ≡ [])
    × (chain.commitments ≡ [])
continue_block_chain-IsLinked_example =
    continue_block_chain-IsLinked toy_services 1 (pos 0) occasion store head (root_block ∷ [])
      head_stored store-IsLinked (omega arith)

set_consistency_level-forgotten_example :
    (chain : BlockChain Store) × (p : Float64) × (set_consistency_level toy_env "strong" event world
      ≡ returns (chain, world, level_set "strong" ∷ []))
    × ((node : String)
        → get_consistency_level node chain.consistency_mgr.node_consistency ≡ causal_consistency)
    × (view_network_status toy_env event world
        ≡ returns (world, current_level causal_consistency ∷ probability p ∷ []))
set_consistency_level-forgotten_example =
    set_consistency_level-forgotten toy_env "strong" strong_consistency event event world head
      (root_block ∷ []) refl world-Holds (omega arith) (omega arith)

create_wallet-overwrites_example :
    (w' : World Store) × (create_wallet toy_env event world
      ≡ returns (w', new_address own_address ∷ []))
    × (w'.disk.file ≡ holding (1 ∷ []))
    × (list_addresses toy_env event w' ≡ address_line own_address ∷ [])
unfolding bytes_equal address check_sum
create_wallet-overwrites_example =
    create_wallet-overwrites toy_env 3 (4 ∷ []) (5 ∷ []) (3 ∷ []) event event world tt refl refl
      refl refl refl

abbrev command_line : CommandLine
command_line = record {
  consistency = "";
  node_id = "";
  trust_score = 0;
  node_management_mode = false;
}

interactive_mode-end_of_input_example :
    (menu_turn toy_env event (ended toy_env command_line world [])
      ≡ returns (true, ended toy_env command_line world (invalid_option ∷ [])))
    × (interactive_mode toy_env 9 (λ n. event) 0 (ended toy_env command_line world []) ≡ unfinished)
interactive_mode-end_of_input_example =
    interactive_mode-end_of_input toy_env 9 0 (λ n. event) command_line world []

-- program -node n1 -consistency strong
abbrev two_flags : Args
two_flags = record {
  item = λ j. if j == 1 then "-node" else if j == 3 then "-consistency" else "n1";
  len = 5;
}

not_flag : (j : ℕ) → j < 5 → j ≢ 1 → j ≢ 3 → is_flag (two_flags.item j) ≡ false
not_flag j h one three =
    let e : (j == 1) ≡ false = ground (arith, ==_iff j 1) in
    let d : (j == 3) ≡ false = ground (arith, ==_iff j 3) in rw (e, d) refl

global_flags-two_example :
    (5 ≡ 1 + 4 → global_flags toy_env.parse_float command_line two_flags ≡ panic index_out_of_range)
    × (1 + 4 < 5
        → (args' : Args) × (global_flags toy_env.parse_float command_line two_flags
            ≡ ok (record command_line { node_id = "n1" }, args'))
          × (args'.len ≡ 5 - 2)
          × (args'.item 1 ≡ "-consistency"))
global_flags-two_example =
    global_flags-two toy_env.parse_float 1 command_line (record command_line { node_id = "n1" })
      two_flags (omega arith) not_flag refl refl refl
