-- ===== src/Cli/Menu/Options.antt =====
-- What the options of the menu do that ask for more: the interactive methods of cli/cli.go.
use blockchain_test.Prelude.{
  Bool, true, false, ◌||◌, Option, none, some, String, List, [], ◌∷◌, ◌++◌, if◌then◌else◌,
}
use blockchain_test.Prelude.Int.{ℤ}
use blockchain_test.Prelude.Float.{Float64}
use blockchain_test.Run.{Run, returns, of_result, ◌>>=◌}
use blockchain_test.Chain.{is_some}
use blockchain_test.Chain.Opening.{init_block_chain}
use blockchain_test.Wallet.Store.{Wallets, create_wallets}
use blockchain_test.Cli.{
  World, Event, Env, no_wallets, invalid_selection, invalid_amount, invalid_score, cancelled,
  chain_exists, chain_created, trust_set, level_of,
}
use blockchain_test.Cli.Atoi.{atoi}
use blockchain_test.Cli.Commands.{opened, leveled, get_balance, send, add_funds, set_trust}
use blockchain_test.Cli.Menu.{
  Session, first_line, addresses_or_none, Choice, refused, stopped, picked, choose,
  consistency_choice, say, scanned, selection, with_selected, after_command,
}

module _ {Db Key : Type 0} (env : Env Db Key) where
  open env use {services, crypto, parse_float}

  unfoldable pub get_all_addresses_of : (Wallets → Wallets) → World Db → List String
  get_all_addresses_of visit w = addresses_or_none (create_wallets crypto w.disk) visit

  abbrev pub select_from : List String → Session Db → Run (Option String × Session Db)
  select_from [] s = returns (none, say (no_wallets ∷ []) s)
  select_from (addr ∷ addrs) s =
      of_result (choose (addr ∷ addrs) (atoi (first_line s.input))) >>= λ c.
      returns (selection (scanned s) c)

  -- The prompt and the numbered list are left out.
  unfoldable pub select_address :
      (Wallets → Wallets) → Session Db → Run (Option String × Session Db)
  unfolding get_all_addresses_of choose
  select_address visit s = select_from (get_all_addresses_of visit s.world) s

  unfoldable pub get_balance_interactive : Event Key → Session Db → Run (Session Db)
  unfolding select_address
  get_balance_interactive e s = select_address (e.visit 0) s >>= λ r.
      with_selected r
        (λ addr s1. get_balance env addr e s1.world >>= λ o. returns (after_command s1 o))

  abbrev pub with_amount :
      Option ℤ → Session Db → (ℤ → Session Db → Run (Session Db)) → Run (Session Db)
  with_amount none s act = returns (say (invalid_amount ∷ []) s)
  with_amount (some amount) s act = act amount s

  unfoldable pub send_interactive : Event Key → Session Db → Run (Session Db)
  unfolding select_address
  send_interactive e s = select_address (e.visit 0) s >>= λ r. with_selected r (λ from s1.
      select_address (e.visit 1) s1 >>= λ q. with_selected q (λ to s2.
        with_amount (atoi (first_line s2.input)) (scanned s2)
          (λ amount s3. send env from to amount e s3.world >>= λ o. returns (after_command s3 o))))

  unfoldable pub add_funds_interactive : Event Key → Session Db → Run (Session Db)
  unfolding select_address
  add_funds_interactive e s = select_address (e.visit 0) s >>= λ r. with_selected r (λ addr s1.
      with_amount (atoi (first_line s1.input)) (scanned s1)
        (λ amount s2. add_funds env addr amount e s2.world >>= λ o. returns (after_command s2 o)))

  -- The chain is made only where `DBExists` finds none.
  abbrev pub initialize : Event Key → Session Db → Choice → Run (Session Db)
  initialize e s refused = returns (say (invalid_selection ∷ []) s)
  initialize e s stopped = returns (say (cancelled ∷ []) s)
  initialize e s (picked addr) =
      if is_some s.world.database
      then returns (say (chain_exists ∷ []) s)
      else (of_result (init_block_chain services addr e.now e.born e.block s.world.database)
          >>= λ chain. returns (
              after_command s
                (record s.world { database = some chain.database }, chain_created ∷ [])))

  abbrev pub initialize_from : Event Key → List String → Session Db → Run (Session Db)
  initialize_from e [] s = returns (say (no_wallets ∷ []) s)
  initialize_from e (addr ∷ addrs) s =
      of_result (choose (addr ∷ addrs) (atoi (first_line s.input))) >>= initialize e (scanned s)

  unfoldable pub initialize_blockchain_interactive : Event Key → Session Db → Run (Session Db)
  unfolding get_all_addresses_of choose
  initialize_blockchain_interactive e s =
      initialize_from e (get_all_addresses_of (e.visit 0) s.world) s

  -- The chain with the new level is closed, and forgotten.
  abbrev pub level_chosen : Event Key → Session Db → Option String → Run (Session Db)
  level_chosen e s none = returns (say (invalid_selection ∷ []) s)
  level_chosen e s (some text) =
      opened env e s.world >>= λ chain. returns (say (leveled env chain text (level_of text)).1 s)

  unfoldable pub set_consistency_interactive : Event Key → Session Db → Run (Session Db)
  set_consistency_interactive e s =
      level_chosen e (scanned s) (consistency_choice (first_line s.input))

  abbrev pub in_range : Float64 → Bool
  in_range score =
      if services.floats.lt score (services.floats.literal 0 0)
        || services.floats.lt (services.floats.literal 1 0) score
      then false
      else true

  abbrev pub trust_chosen : String → Event Key → Session Db → Option Float64 → Run (Session Db)
  trust_chosen node e s none = returns (say (invalid_score ∷ []) s)
  trust_chosen node e s (some score) =
      if in_range score
      then (set_trust env node score e s.world >>= λ (chain, w, lines).
          returns (after_command s (w, lines ++ trust_set node score ∷ [])))
      else returns (say (invalid_score ∷ []) s)

  unfoldable pub set_trust_interactive : Event Key → Session Db → Run (Session Db)
  set_trust_interactive e s =
      let s1 = scanned s in
      trust_chosen (first_line s.input) e (scanned s1) (parse_float (first_line s1.input))
