-- ===== src/Cli/Dispatch.antt =====
-- `Run` of cli/cli.go: the commands. The package `flag` is a parameter: `parse` gives the flags of the
-- set with the name, each with its default where it is absent, or `none` where it ends the process.
use blockchain_test.Prelude.{
  ℕ, zero, suc, ◌+◌, ◌-◌, Bool, true, false, ◌||◌, Option, none, some, String, str_eq, List, [],
  ◌∷◌, ltb, if◌then◌else◌,
}
use blockchain_test.Prelude.Int.{ℤ, pos, leb_ℤ}
use blockchain_test.Prelude.Float.{Float64}
use blockchain_test.Outcome.{panic, bad_level}
use blockchain_test.Network.{strong_consistency, eventual_consistency}
use blockchain_test.Run.{Run, returns, of_result, ◌>>=◌}
use blockchain_test.Chain.{BlockChain}
use blockchain_test.Cli.{World, Event, Env, Line, usage}
use blockchain_test.Cli.Commands.{
  opened, leveled, print_chain, create_block_chain, get_balance, send, add_funds, validate_chain,
  set_trust, create_wallet, list_addresses,
}
use blockchain_test.Cli.Menu.{CommandLine}
use blockchain_test.Cli.Menu.Loop.{interactive_mode}
use blockchain_test.Cli.Flags.{Args, global_flags}

pub record Flags : Type 0 where
  pub address : String
  pub from : String
  pub to : String
  pub level : String
  pub node : String
  pub amount : ℤ
  pub score : Float64

-- How `Run` ends where nothing panics: by a return, by `runtime.Goexit`, by `os.Exit(0)` of the menu,
-- or in the package `flag`.
pub data Finish : Type 0 where
  returned goexit exited bad_flags : Finish

-- The items from index `i` on.
abbrev pub items_from : ℕ → ℕ → Args → List String
items_from zero i args = []
items_from (suc left) i args = args.item i ∷ items_from left (i + 1) args

abbrev pub Ended : Type 0 → Type 0
Ended Db = Finish × World Db × List Line

module _ {Db : Type 0} where
  abbrev pub returning : Run (World Db × List Line) → Run (Ended Db)
  returning r = r >>= λ (w, lines). returns (returned, w, lines)

  abbrev pub with_flags : World Db → Option Flags → (Flags → Run (Ended Db)) → Run (Ended Db)
  with_flags w none act = returns (bad_flags, w, usage ∷ [])
  with_flags w (some flags) act = act flags

module _ {Db Key : Type 0} (env : Env Db Key) (parse : String → List String → Option Flags) where
  -- The level for `setconsistency`, which takes two of the three.
  abbrev pub command_level : BlockChain Db → String → Run (BlockChain Db × List Line)
  command_level chain text =
      if str_eq text "strong"
      then returns (leveled env chain text (some strong_consistency))
      else if str_eq text "eventual"
      then returns (leveled env chain text (some eventual_consistency))
      else of_result (panic bad_level)

  abbrev pub consistency_command : String → Event Key → World Db → Run (World Db × List Line)
  consistency_command text e w =
      if str_eq text ""
      then of_result (panic bad_level)
      else (opened env e w >>= λ chain. command_level chain text >>= λ r. returns (w, r.1))

  -- `settrust` ends by `Goexit`.
  abbrev pub trust_command : Flags → Event Key → World Db → Run (Ended Db)
  trust_command flags e w =
      set_trust env flags.node flags.score e w >>= λ (chain, w', lines). returns (goexit, w', lines)

  -- The menu returns only where the process ends.
  abbrev pub menu : ℕ → (ℕ → Event Key) → CommandLine → List String → World Db → Run (Ended Db)
  menu turns events cli input w =
      interactive_mode env turns events 0
        (record { cli = cli; input = input; world = w; printed = [] })
      >>= λ s. returns (exited, s.world, s.printed)

  abbrev pub or_usage : World Db → Bool → Run (World Db × List Line) → Run (Ended Db)
  or_usage w true command = returns (goexit, w, usage ∷ [])
  or_usage w false command = returning command

  -- The command with the name, or the menu.
  unfoldable pub dispatch :
      String → List String → Event Key → World Db → Run (Ended Db) → Run (Ended Db)
  dispatch name rest e w other =
      if str_eq name "getbalance"
      then with_flags w (parse name rest)
          (λ flags. or_usage w (str_eq flags.address "") (get_balance env flags.address e w))
      else if str_eq name "createblockchain"
      then with_flags w (parse name rest)
          (λ flags. or_usage w (str_eq flags.address "") (create_block_chain env flags.address e w))
      else if str_eq name "printchain"
      then with_flags w (parse name rest) (λ flags. returning (print_chain env e w))
      else if str_eq name "send"
      then with_flags w (parse name rest) (λ flags.
        or_usage w (str_eq flags.from "" || str_eq flags.to "" || leb_ℤ flags.amount (pos 0))
          (send env flags.from flags.to flags.amount e w))
      else if str_eq name "createwallet"
      then with_flags w (parse name rest) (λ flags. returning (create_wallet env e w))
      else if str_eq name "listaddresses"
      then with_flags w (parse name rest) (λ flags. returns (returned, w, list_addresses env e w))
      else if str_eq name "validatechain"
      then with_flags w (parse name rest) (λ flags. returning (validate_chain env e w))
      else if str_eq name "setconsistency"
      then with_flags w (parse name rest) (λ flags. returning (consistency_command flags.level e w))
      else if str_eq name "settrust"
      then with_flags w (parse name rest) (λ flags. trust_command flags e w)
      else if str_eq name "addfunds"
      then with_flags w (parse name rest)
          (λ flags. returning (add_funds env flags.address flags.amount e w))
      else other

  -- `Goexit` after the menu is not reached.
  unfoldable pub run_command_line :
      ℕ → (ℕ → Event Key) → CommandLine → Args → List String → World Db → Run (Ended Db)
  unfolding global_flags dispatch
  run_command_line turns events cli args input w =
      of_result (global_flags env.parse_float cli args) >>= λ (cli', args').
      let in_menu = menu turns events cli' input w in
      if ltb args'.len 2
      then in_menu
      else dispatch (args'.item 1) (items_from (args'.len - 2) 2 args') (events 0) w in_menu
