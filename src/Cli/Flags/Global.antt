-- ===== src/Cli/Flags/Global.antt =====
-- What the loop over the global flags does with one flag, and with two.
use blockchain_test.Prelude.{
  ℕ, zero, suc, ◌+◌, ◌-◌, ◌≤◌, ◌<◌, ◌≡◌, ◌≢◌, inl, inr, refl, ◌∙◌, true, false, ◌&&◌, Option,
  String, arith, ltb, leb, lt→ltb, Bool-cases,
}
use blockchain_test.Prelude.Float.{Float64}
use blockchain_test.Outcome.{ok, panic, index_out_of_range}
use blockchain_test.Cli.Menu.{CommandLine}
use blockchain_test.Cli.Flags.{Args, without_two, is_flag, set_field, handle_args, global_flags}

module _ (parse_float : String → Option Float64) where
  -- No turn of the loop changes anything where no item that it reads is a flag.
  pub handle_args-no_flags :
      (left i : ℕ) (cli : CommandLine) (args : Args)
      → ((j : ℕ) → i ≤ j → j < i + left → is_flag (args.item j) ≡ false)
      → handle_args parse_float left i cli args ≡ ok (cli, args)
  unfolding handle_args
  handle_args-no_flags zero i cli args h = refl
  handle_args-no_flags (suc left) i cli args h =
      rw (h i (omega arith) (omega arith))
        (handle_args-no_flags left (i + 1) cli args (λ j p q. h j (omega arith) (omega arith)))

  -- The loop gets as far as the first flag.
  pub handle_args-before :
      (before all left i k : ℕ) (cli : CommandLine) (args : Args)
      → all ≡ before + left
      → k ≡ i + before
      → ((j : ℕ) → i ≤ j → j < k → is_flag (args.item j) ≡ false)
      → handle_args parse_float all i cli args ≡ handle_args parse_float left k cli args
  unfolding handle_args
  handle_args-before zero all left i k cli args p q h =
      let e : all ≡ left = omega arith in let d : k ≡ i = omega arith in rw (e, d) refl
  handle_args-before (suc before) zero left i k cli args p q h = absurd (omega arith)
  handle_args-before (suc before) (suc all) left i k cli args p q h =
      rw (h i (omega arith) (omega arith)) (
        handle_args-before before all left (i + 1) k cli args (omega arith) (omega arith)
          (λ j p q. h j (omega arith) (omega arith)))

  -- A flag with a value sets its field, and the loop goes on without the two.
  pub handle_args-flag :
      (left i : ℕ) (cli cli' : CommandLine) (args : Args)
      → is_flag (args.item i) ≡ true
      → i + 1 < args.len
      → set_field parse_float (args.item i) (args.item (i + 1)) cli ≡ ok cli'
      → handle_args parse_float (suc left) i cli args
        ≡ handle_args parse_float left (i + 1) cli' (without_two i args)
  unfolding handle_args
  handle_args-flag left i cli cli' args flag room set =
      rw (flag, lt→ltb (i + 1) args.len room, set) refl

  -- A flag that is the last of the items ends the program.
  pub handle_args-last :
      (left i : ℕ) (cli : CommandLine) (args : Args)
      → is_flag (args.item i) ≡ true
      → args.len ≤ i + 1
      → handle_args parse_float (suc left) i cli args ≡ panic index_out_of_range
  unfolding handle_args
  handle_args-last left i cli args flag out =
      let no : ltb (i + 1) args.len ≡ false = ground arith in rw (flag, no) refl

  -- What the loop does from a first flag at `k` on.
  pub global_flags-first :
      (k left : ℕ) (cli cli' : CommandLine) (args : Args)
      → args.len ≡ k + suc left
      → 0 < left
      → ((j : ℕ) → j < k → is_flag (args.item j) ≡ false)
      → is_flag (args.item k) ≡ true
      → set_field parse_float (args.item k) (args.item (k + 1)) cli ≡ ok cli'
      → global_flags parse_float cli args
        ≡ handle_args parse_float left (k + 1) cli' (without_two k args)
  unfolding global_flags
  global_flags-first k left cli cli' args size room before flag set =
      rw (lt→ltb 1 args.len (omega arith)) (
        handle_args-before k args.len (suc left) 0 k cli args size (omega arith)
          (λ j p q. before j q)
        ∙ handle_args-flag left k cli cli' args flag (omega arith) set)

  -- After the removal at `k` the rest of the loop reads the items that were moved down, and at last the
  -- two that were not.
  handle_args-rest :
      (k : ℕ) (cli : CommandLine) (args : Args)
      → k + 1 < args.len
      → ((j : ℕ) → k < j → j + 2 < args.len → is_flag (args.item (j + 2)) ≡ false)
      → ((j : ℕ) → k < j → j < args.len → args.len ≤ j + 2 → is_flag (args.item j) ≡ false)
      → handle_args parse_float (args.len - k - 1) (k + 1) cli (without_two k args)
        ≡ ok (cli, without_two k args)
  handle_args-rest k cli args room moved still =
      handle_args-no_flags (args.len - k - 1) (k + 1) cli (without_two k args) (λ j p q.
        elim (Bool-cases (leb k j && ltb (j + 2) args.len)) [
          | inl e ↦ rw e (moved j (omega arith) (ground (arith, e)))
          | inr e ↦ rw e (still j (omega arith) (omega arith) (ground (arith, e)))
        ])

  -- One global flag with its value, at any place and with no other flag among the arguments, sets its
  -- field where the value can be read, and `os.Args` is left with the other items in their order.
  pub global_flags-one :
      (k : ℕ) (cli cli' : CommandLine) (args : Args)
      → k + 1 < args.len
      → ((j : ℕ) → j < args.len → j ≢ k → is_flag (args.item j) ≡ false)
      → is_flag (args.item k) ≡ true
      → set_field parse_float (args.item k) (args.item (k + 1)) cli ≡ ok cli'
      → (args' : Args) × (global_flags parse_float cli args ≡ ok (cli', args'))
        × (args'.len ≡ args.len - 2)
        × ((j : ℕ) → j < k → args'.item j ≡ args.item j)
        × ((j : ℕ) → k ≤ j → j < args'.len → args'.item j ≡ args.item (j + 2))
  global_flags-one k cli cli' args room others flag set = (
    without_two k args,
    global_flags-first k (args.len - k - 1) cli cli' args (omega arith) (omega arith)
          (λ j p. others j (omega arith) (λ e. absurd (omega arith))) flag set
        ∙ handle_args-rest k cli' args room (λ j p q. others (j + 2) q (λ d. absurd (omega arith)))
            (λ j p q r. others j q (λ d. absurd (omega arith))),
    refl,
    (λ j p. let e : (leb k j && ltb (j + 2) args.len) ≡ false = ground arith in rw e refl),
    (λ j p q. let e : (leb k j && ltb (j + 2) args.len) ≡ true = ground arith in rw e refl),
  )

  -- A second flag with its value at the end: its copy is met after the removal, with nothing behind it.
  handle_args-stale :
      (k : ℕ) (cli : CommandLine) (args : Args)
      → args.len ≡ k + 4
      → is_flag (args.item (k + 2)) ≡ true
      → is_flag (args.item (k + 3)) ≡ false
      → handle_args parse_float (args.len - k - 1) (k + 1) cli (without_two k args)
        ≡ panic index_out_of_range
  handle_args-stale k cli args size flag value =
      let a = without_two k args in
      let moved : (leb k (k + 1) && ltb (k + 1 + 2) args.len) ≡ true = ground arith in
      let stale : (leb k (k + 2) && ltb (k + 2 + 2) args.len) ≡ false = ground arith in
      let end : k + 1 + 2 ≡ k + 3 = omega arith in
      handle_args-before 1 (args.len - k - 1) 2 (k + 1) (k + 2) cli a (omega arith) (omega arith)
        (λ j p q. let d : j ≡ k + 1 = omega arith in rw (d, moved, end) value)
      ∙ handle_args-last 1 (k + 2) cli a (rw stale flag) (omega arith)

  -- A second global flag right after the first and its value is never handled, where the value of the
  -- first can be read and no other argument is a flag. If the two and their values end the arguments,
  -- the program ends by an index out of range; if more arguments follow, the second flag stands in
  -- `os.Args` in the place of the first.
  pub global_flags-two :
      (k : ℕ) (cli cli' : CommandLine) (args : Args)
      → k + 3 < args.len
      → ((j : ℕ) → j < args.len → j ≢ k → j ≢ k + 2 → is_flag (args.item j) ≡ false)
      → is_flag (args.item k) ≡ true
      → is_flag (args.item (k + 2)) ≡ true
      → set_field parse_float (args.item k) (args.item (k + 1)) cli ≡ ok cli'
      → (args.len ≡ k + 4 → global_flags parse_float cli args ≡ panic index_out_of_range)
        × (k + 4 < args.len
            → (args' : Args) × (global_flags parse_float cli args ≡ ok (cli', args'))
              × (args'.len ≡ args.len - 2)
              × (args'.item k ≡ args.item (k + 2)))
  global_flags-two k cli cli' args room others flag flag' set =
      let first =
        global_flags-first k (args.len - k - 1) cli cli' args (omega arith) (omega arith)
          (λ j p. others j (omega arith) (λ e. absurd (omega arith)) (λ e. absurd (omega arith)))
          flag set in
      let plain : (j : ℕ) → k + 2 < j → j < args.len → is_flag (args.item j) ≡ false =
        λ j p q. others j q (λ e. absurd (omega arith)) (λ e. absurd (omega arith)) in
      let at : (leb k k && ltb (k + 2) args.len) ≡ true = ground arith in
      (
        (λ size.
            first
            ∙ handle_args-stale k cli' args size flag' (plain (k + 3) (omega arith) (omega arith))),
        (λ more. (
          without_two k args,
          first
              ∙ handle_args-rest k cli' args (omega arith) (λ j p q. plain (j + 2) (omega arith) q)
                  (λ j p q r. plain j (omega arith) q),
          refl,
          rw at refl,
        )),
      )
