-- ===== src/Cli/Menu/Steps.antt =====
-- What a selection gives, and the loop of the menu after the end of the input.
use blockchain_test.Prelude.{
  ℕ, zero, suc, ◌+◌, ◌<◌, ◌≡◌, inl, inr, refl, true, Option, none, some, String, List, [], ◌∷◌,
  ◌++◌, arith, length, get_elem?, ltb, Bool-cases,
}
use blockchain_test.Prelude.Int.{ℤ, pos, negsuc}
use blockchain_test.Outcome.{ok}
use blockchain_test.Run.{unfinished, returns}
use blockchain_test.Wallet.Store.{Wallets}
use blockchain_test.Cli.{World, Event, Env, invalid_option}
use blockchain_test.Cli.Atoi.{atoi}
use blockchain_test.Cli.{Line}
use blockchain_test.Cli.Menu.{
  CommandLine, selection, Session, first_line, Choice, refused, stopped, picked, choose, scanned,
}
use blockchain_test.Cli.Menu.Options.{get_all_addresses_of, select_from, select_address}
use blockchain_test.Cli.Menu.Loop.{menu_turn, interactive_mode}

get_elem?-some {ℓ} :
    {A : Type ℓ} (xs : List A) (i : ℕ) → i < length xs → (a : A) × (get_elem? xs i ≡ some a)
get_elem?-some [] i p = absurd (omega arith)
get_elem?-some (x ∷ xs) zero p = (x, refl)
get_elem?-some (x ∷ xs) (suc i) p = get_elem?-some xs i (omega arith)

-- A choice never fails, and an address is picked only by its own number.
choose-picked :
    (addrs : List String) (o : Option ℤ)
    → (c : Choice) × (choose addrs o ≡ ok c)
      × ((addr : String)
          → c ≡ picked addr
          → (i : ℕ) × (o ≡ some (pos (suc i))) × (get_elem? addrs i ≡ some addr))
unfolding choose
choose-picked addrs none = (refused, refl, λ addr e. absurd (cc))
choose-picked addrs (some (negsuc n)) = (refused, ground arith, λ addr e. absurd (cc))
choose-picked addrs (some (pos zero)) = (stopped, ground arith, λ addr e. absurd (cc))
choose-picked addrs (some (pos (suc i))) = elim (Bool-cases (ltb (length addrs) (suc i))) [
  | inl out ↦ (refused, ground (arith, out), λ addr e. absurd (cc))
  | inr inside ↦
      let (a, at) = get_elem?-some addrs i (ground (arith, inside)) in
      (picked a, ground (arith, inside, at), λ addr e. (i, refl, cc))
]

module _ {Db Key : Type 0} (env : Env Db Key) where
  abbrev pub ended : CommandLine → World Db → List Line → Session Db
  ended cli w lines = record { cli = cli; input = []; world = w; printed = lines }

  end_of_input-turn :
      (e : Event Key) (cli : CommandLine) (w : World Db) (lines : List Line)
      → menu_turn env e (ended cli w lines)
        ≡ returns (true, ended cli w (lines ++ invalid_option ∷ []))
  unfolding menu_turn
  end_of_input-turn e cli w lines = elim (Bool-cases cli.node_management_mode) [
    | inl h ↦ rw h refl
    | inr h ↦ rw h refl
  ]

  -- After the end of the input each turn of the menu, in both modes, refuses the empty option and
  -- changes nothing else, so that the loop has not ended after any number of turns.
  pub interactive_mode-end_of_input :
      (turns n : ℕ) (events : ℕ → Event Key) (cli : CommandLine) (w : World Db) (lines : List Line)
      → (menu_turn env (events n) (ended cli w lines)
          ≡ returns (true, ended cli w (lines ++ invalid_option ∷ [])))
        × (interactive_mode env turns events n (ended cli w lines) ≡ unfinished)
  unfolding interactive_mode
  interactive_mode-end_of_input zero n events cli w lines =
      (end_of_input-turn (events n) cli w lines, refl)
  interactive_mode-end_of_input (suc turns) n events cli w lines =
      let turn = end_of_input-turn (events n) cli w lines in
      (
        turn,
        rw turn
            (interactive_mode-end_of_input turns (n + 1) events cli w
              (lines ++ invalid_option ∷ [])).1,
      )

  -- The session and the address that a choice gives.
  selection-picked :
      (s : Session Db) (c : Choice)
      → ((selection s c).1.world ≡ s.world)
        × ((addr : String) → (selection s c).0 ≡ some addr → c ≡ picked addr)
  selection-picked s refused = (refl, λ addr e. absurd (cc))
  selection-picked s stopped = (refl, λ addr e. absurd (cc))
  selection-picked s (picked a) = (refl, λ addr e. cc)

  select_from-listed :
      (addrs : List String) (s : Session Db)
      → (o : Option String) × (s' : Session Db) × (select_from env addrs s ≡ returns (o, s'))
        × (s'.world ≡ s.world)
        × ((addr : String)
            → o ≡ some addr
            → (i : ℕ) × (atoi (first_line s.input) ≡ some (pos (suc i)))
              × (get_elem? addrs i ≡ some addr))
  select_from-listed [] s = (none, _, refl, refl, λ addr e. absurd (cc))
  select_from-listed (a ∷ addrs) s =
      let (c, chosen, own) = choose-picked (a ∷ addrs) (atoi (first_line s.input)) in
      let (world, picks) = selection-picked (scanned s) c in
      (
        (selection (scanned s) c).0,
        (selection (scanned s) c).1,
        rw chosen refl,
        world,
        λ addr e. own addr (picks addr e),
      )

  -- A selection never fails and leaves the world as it is. Where it gives an address, the line that was
  -- read is a number from 1 on, and the address stands at that place in the list.
  pub select_address-listed :
      (visit : Wallets → Wallets) (s : Session Db)
      → (o : Option String) × (s' : Session Db) × (select_address env visit s ≡ returns (o, s'))
        × (s'.world ≡ s.world)
        × ((addr : String)
            → o ≡ some addr
            → (i : ℕ) × (atoi (first_line s.input) ≡ some (pos (suc i)))
              × (get_elem? (get_all_addresses_of env visit s.world) i ≡ some addr))
  unfolding select_address
  select_address-listed visit s = select_from-listed (get_all_addresses_of env visit s.world) s
