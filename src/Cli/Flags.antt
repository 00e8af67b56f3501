-- ===== src/Cli/Flags.antt =====
-- `Run` of cli/cli.go: the global flags and the command. The package `flag` is a parameter.
pub mod Global
use blockchain_test.Prelude.{
  ℕ, zero, suc, ◌+◌, ◌-◌, Bool, true, false, ◌&&◌, ◌||◌, Option, none, some, String, str_eq, List,
  [], ◌∷◌, ltb, leb, if◌then◌else◌,
}
use blockchain_test.Prelude.Int.{ℤ, pos, leb_ℤ}
use blockchain_test.Prelude.Float.{Float64}
use blockchain_test.Outcome.{Result, ok, panic, index_out_of_range, bad_score, bad_level, ◌>>=◌}
use blockchain_test.Cli.{World, Event, Env, Line, usage}
use blockchain_test.Cli.Menu.{CommandLine}

-- `os.Args`: its array, which the slices made of it share, and its length.
pub record Args : Type 0 where
  pub item : ℕ → String
  pub len : ℕ

-- `append(os.Args[:i], os.Args[i+2:]...)`, which moves the items down in the same array.
abbrev pub without_two : ℕ → Args → Args
without_two i args = record {
  item = λ j. if leb i j && ltb (j + 2) args.len then args.item (j + 2) else args.item j;
  len = args.len - 2;
}

abbrev pub or_bad_score : Option Float64 → Result Float64
or_bad_score none = panic bad_score
or_bad_score (some score) = ok score

abbrev pub is_flag : String → Bool
is_flag arg = str_eq arg "-consistency" || str_eq arg "-node" || str_eq arg "-trustscore"

module _ (parse_float : String → Option Float64) where
  -- The field that a global flag sets.
  abbrev pub set_field : String → String → CommandLine → Result CommandLine
  set_field arg value cli =
      if str_eq arg "-consistency"
      then ok (record cli { consistency = value })
      else if str_eq arg "-node"
      then ok (record cli { node_id = value })
      else or_bad_score (parse_float value) >>= λ score. ok (record cli { trust_score = score })

  abbrev pub taken : ℕ → String → Bool → CommandLine → Args → Result (CommandLine × Args)
  taken i arg false cli args = panic index_out_of_range
  taken i arg true cli args =
      set_field arg (args.item (i + 1)) cli >>= λ c. ok (c, without_two i args)

  -- One turn of the loop, for the item `arg` at the index `i`.
  unfoldable pub handle_arg : ℕ → String → CommandLine → Args → Result (CommandLine × Args)
  handle_arg i arg cli args =
      if is_flag arg then taken i arg (ltb (i + 1) args.len) cli args else ok (cli, args)

  -- `range` goes over as many items as there were at the start, and reads each from the array as it
  -- then is; `left` items from index `i` on.
  unfoldable pub handle_args : ℕ → ℕ → CommandLine → Args → Result (CommandLine × Args)
  unfolding handle_arg
  handle_args zero i cli args = ok (cli, args)
  handle_args (suc left) i cli args =
      handle_arg i (args.item i) cli args >>= λ (c, a). handle_args left (i + 1) c a

  unfoldable pub global_flags : CommandLine → Args → Result (CommandLine × Args)
  unfolding handle_args
  global_flags cli args = if ltb 1 args.len then handle_args args.len 0 cli args else ok (cli, args)
