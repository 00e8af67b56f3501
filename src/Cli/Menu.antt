-- ===== src/Cli/Menu.antt =====
-- The menu of cli/cli.go. A session is the lines that are still to be read and those printed so far.
pub mod Options
pub mod Loop
pub mod Steps
use blockchain_test.Prelude.{
  ℕ, zero, suc, ◌+◌, ◌-◌, Bool, true, false, ◌||◌, Option, none, some, String, str_eq, List, [],
  ◌∷◌, ◌++◌, length, get_elem?, if◌then◌else◌,
}
use blockchain_test.Prelude.Int.{ℤ, pos, pos_part, ltb_ℤ, eq_ℤ}
use blockchain_test.Prelude.Float.{Float64}
use blockchain_test.Outcome.{Result, ok, panic, index_out_of_range}
use blockchain_test.Run.{Run, unfinished, returns, of_result, ◌>>=◌}
use blockchain_test.Chain.{is_some}
use blockchain_test.Chain.Opening.{init_block_chain}
use blockchain_test.Wallet.Store.{LoadError, Wallets, create_wallets, get_all_addresses}
use blockchain_test.Cli.{
  World, Event, Env, Line, no_wallets, invalid_selection, invalid_amount, invalid_score,
  invalid_option, cancelled, chain_exists, chain_created, trust_set, level_of,
}
use blockchain_test.Cli.Atoi.{atoi}
use blockchain_test.Cli.Commands.{
  opened, leveled, print_chain, get_balance, send, add_funds, validate_chain, set_trust,
  view_network_status, create_wallet, list_addresses,
}

pub record CommandLine : Type 0 where
  pub consistency : String
  pub node_id : String
  pub trust_score : Float64
  pub node_management_mode : Bool

pub record Session (Db : Type 0) : Type 0 where
  pub cli : CommandLine
  pub input : List String
  pub world : World Db
  pub printed : List Line

-- `scanner.Text()` after `scanner.Scan()`: empty once the input is at its end.
abbrev pub first_line : List String → String
first_line [] = ""
first_line (line ∷ lines) = line

abbrev pub later_lines : List String → List String
later_lines [] = []
later_lines (line ∷ lines) = lines

abbrev pub addresses_or_none : Option LoadError × Wallets → (Wallets → Wallets) → List String
addresses_or_none (some err, ws) visit = []
addresses_or_none (none, ws) visit = get_all_addresses (visit ws)

pub data Choice : Type 0 where
  refused stopped : Choice
  picked : String → Choice

abbrev pub or_out_of_range : Option String → Result Choice
or_out_of_range none = panic index_out_of_range
or_out_of_range (some addr) = ok (picked addr)

-- What `Atoi` gives, as a number from 1 on in the list; 0 is to cancel.
unfoldable pub choose : List String → Option ℤ → Result Choice
choose addresses none = ok refused
choose addresses (some idx) =
    if ltb_ℤ idx (pos 0) || ltb_ℤ (pos (length addresses)) idx
    then ok refused
    else if eq_ℤ idx (pos 0)
    then ok stopped
    else or_out_of_range (get_elem? addresses (pos_part idx - 1))

abbrev pub consistency_choice : String → Option String
consistency_choice line =
    if str_eq line "1"
    then some "strong"
    else if str_eq line "2"
    then some "causal"
    else if str_eq line "3"
    then some "eventual"
    else none

module _ {Db : Type 0} where
  abbrev pub say : List Line → Session Db → Session Db
  say lines s = record s { printed = s.printed ++ lines }

  abbrev pub scanned : Session Db → Session Db
  scanned s = record s { input = later_lines s.input }

  abbrev pub selection : Session Db → Choice → Option String × Session Db
  selection s refused = (none, say (invalid_selection ∷ []) s)
  selection s stopped = (none, s)
  selection s (picked addr) = (some addr, s)

  abbrev pub with_selected :
      Option String × Session Db → (String → Session Db → Run (Session Db)) → Run (Session Db)
  with_selected (none, s) act = returns s
  with_selected (some addr, s) act = act addr s

  -- A command run from the menu.
  abbrev pub after_command : Session Db → World Db × List Line → Session Db
  after_command s (w, lines) = say lines (record s { world = w })
