-- ===== src/Cli/Menu/Loop.antt =====
-- The menu, its two modes and its loop.
use blockchain_test.Prelude.{
  ℕ, zero, suc, ◌+◌, Bool, true, false, String, str_eq, [], ◌∷◌, if◌then◌else◌,
}
use blockchain_test.Run.{Run, unfinished, returns, ◌>>=◌}
use blockchain_test.Cli.{Event, Env, invalid_option}
use blockchain_test.Cli.Commands.{
  print_chain, validate_chain, view_network_status, create_wallet, list_addresses,
}
use blockchain_test.Cli.Menu.{Session, first_line, say, scanned, after_command}
use blockchain_test.Cli.Menu.Options.{
  set_consistency_interactive, set_trust_interactive, initialize_blockchain_interactive,
  get_balance_interactive, send_interactive, add_funds_interactive,
}

module _ {Db Key : Type 0} (env : Env Db Key) where
  -- Whether the loop goes on.
  abbrev pub goes_on : Run (Session Db) → Run (Bool × Session Db)
  goes_on r = r >>= λ s. returns (true, s)

  abbrev pub moded : Bool → Session Db → Session Db
  moded mode s = record s { cli = record s.cli { node_management_mode = mode } }

  abbrev pub node_menu : String → Event Key → Session Db → Run (Bool × Session Db)
  node_menu choice e s = goes_on (
      if str_eq choice "1"
      then set_consistency_interactive env e s
      else if str_eq choice "2"
      then set_trust_interactive env e s
      else if str_eq choice "3"
      then (view_network_status env e s.world >>= λ o. returns (after_command s o))
      else if str_eq choice "4"
      then returns (moded false s)
      else returns (say (invalid_option ∷ []) s))

  abbrev pub main_menu : String → Event Key → Session Db → Run (Bool × Session Db)
  main_menu choice e s =
      if str_eq choice "1"
      then goes_on (create_wallet env e s.world >>= λ o. returns (after_command s o))
      else if str_eq choice "2"
      then returns (true, say (list_addresses env e s.world) s)
      else if str_eq choice "3"
      then goes_on (initialize_blockchain_interactive env e s)
      else if str_eq choice "4"
      then goes_on (get_balance_interactive env e s)
      else if str_eq choice "5"
      then goes_on (send_interactive env e s)
      else if str_eq choice "6"
      then goes_on (print_chain env e s.world >>= λ o. returns (after_command s o))
      else if str_eq choice "7"
      then goes_on (add_funds_interactive env e s)
      else if str_eq choice "8"
      then goes_on (validate_chain env e s.world >>= λ o. returns (after_command s o))
      else if str_eq choice "9"
      then returns (true, moded true s)
      else if str_eq choice "0"
      then returns (false, s)
      else returns (true, say (invalid_option ∷ []) s)

  unfoldable pub menu_turn : Event Key → Session Db → Run (Bool × Session Db)
  unfolding set_consistency_interactive set_trust_interactive initialize_blockchain_interactive
      get_balance_interactive send_interactive add_funds_interactive
  menu_turn e s =
      if s.cli.node_management_mode
      then node_menu (first_line s.input) e (scanned s)
      else main_menu (first_line s.input) e (scanned s)

  -- The loop ends where a turn ends the process; else it waits for a line.
  abbrev pub wait_for_enter : (Session Db → Run (Session Db)) → Bool × Session Db → Run (Session Db)
  wait_for_enter loop (false, s) = returns s
  wait_for_enter loop (true, s) = loop (scanned s)

  -- At most `turns` turns, from turn `n` on.
  unfoldable pub interactive_mode : ℕ → (ℕ → Event Key) → ℕ → Session Db → Run (Session Db)
  unfolding menu_turn
  interactive_mode zero events n s = unfinished
  interactive_mode (suc turns) events n s =
      menu_turn (events n) s >>= wait_for_enter (interactive_mode turns events (n + 1))
