-- ===== src/Cli.antt =====
-- The commands of cli/cli.go. What they print is a list of lines; prompts are left out. A chain is
-- opened for each command and closed at its end, so that only the database lasts.
pub mod Atoi
pub mod Commands
pub mod Menu
pub mod Flags
pub mod Dispatch
use blockchain_test.Prelude.{
  ℕ, ◌+◌, Bool, true, false, not, Option, none, some, String, str_eq, List, [], ◌∷◌, ◌++◌, map,
  if◌then◌else◌, Map,
}
use blockchain_test.Prelude.Int.{ℤ, pos, add64, ltb_ℤ, leb_ℤ}
use blockchain_test.Prelude.Bytes.{Bytes}
use blockchain_test.Prelude.Float.{Float64, FloatOps}
use blockchain_test.Outcome.{Result, ok, panic, bad_address, not_positive}
use blockchain_test.Run.{Run, returns, of_result, of_walk, ◌>>=◌}
use blockchain_test.Tx.{Transaction, TxOutput, coinbase_tx}
use blockchain_test.Block.{Block}
use blockchain_test.Pow.{new_proof, validate}
use blockchain_test.Utxo.{find_utxo}
use blockchain_test.Locks.{Locks}
use blockchain_test.Transfer.{Platform, new_transaction}
use blockchain_test.Forest.{Forest}
use blockchain_test.Network.{
  ConsistencyLevel, eventual_consistency, causal_consistency, strong_consistency,
  ConsistencyOrchestrator, set_consistency, get_consistency_level, predict_partition_probability,
}
use blockchain_test.Chain.{Services, BlockChain, Occasion, walk}
use blockchain_test.Chain.Opening.{
  init_block_chain, continue_block_chain, update_trust_score, get_trust_scores, get_network_stats,
  get_node_id,
}
use blockchain_test.Chain.Integrity.{verify_block_integrity}
use blockchain_test.Chain.Adding.{add_block}
use blockchain_test.Wallet.{Crypto, Generated, validate_address}
use blockchain_test.Wallet.Store.{Disk, Wallets}

pub data Line : Type 0 where
  balance_of : String → ℤ → Line
  block_line : Block → Bool → Line
  block_failed : Bytes → Line
  chain_valid chain_invalid chain_created sent : Line
  new_address address_line : String → Line
  added : ℤ → String → Line
  level_set : String → Line
  trust_set : String → Float64 → Line
  current_level : ConsistencyLevel → Line
  probability : Float64 → Line
  trust_line : String → Float64 → Line
  no_wallets cancelled chain_exists : Line
  invalid_selection invalid_amount invalid_level invalid_score invalid_option usage : Line

-- What outlives a command: the wallet file, the database, if there is one, and the address locks of
-- the process.
pub record World (Db : Type 0) : Type 0 where
  pub disk : Disk
  pub database : Option Db
  pub locks : Locks

-- What the clock, the generators of random numbers and of keys decide during one command: when the
-- chain is opened, when a transaction and when a block is made. `fuel` bounds the walks over the chain.
pub record Event (Key : Type 0) : Type 0 where
  pub fuel : ℕ
  pub born : ℤ
  pub opening : Occasion
  pub now : ℤ
  pub block : Occasion
  pub generated : Generated Key
  -- the order of `range` over the wallets, for each call
  pub visit : ℕ → Wallets → Wallets

-- `reward_line` is `fmt.Sprintf("Reward %d", amount)`, and `parse_float` is `strconv.ParseFloat`.
pub record Env (Db Key : Type 0) : Type 0 where
  pub services : Services Db
  pub crypto : Crypto Key
  pub reward_line : ℤ → String
  pub parse_float : String → Option Float64

abbrev pub platform : {Db : Type 0} → Services Db → Platform
platform s = record {
  sha256 = s.sha256;
  encode_tx = s.encode_tx;
  hex = s.hex;
  unhex = s.unhex;
  visit = s.visit;
}

-- The sum of the values, as an `int`, from `total` on.
unfoldable pub sum_values : ℤ → List TxOutput → ℤ
sum_values total [] = total
sum_values total (out ∷ outs) = sum_values (add64 total out.value) outs

abbrev pub level_of : String → Option ConsistencyLevel
level_of text =
    if str_eq text "strong"
    then some strong_consistency
    else if str_eq text "causal"
    then some causal_consistency
    else if str_eq text "eventual"
    then some eventual_consistency
    else none
