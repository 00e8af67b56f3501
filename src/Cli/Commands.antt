-- ===== src/Cli/Commands.antt =====
-- The commands of cli/cli.go that take their arguments from the command line.
pub mod Settings
pub mod Funds
pub mod Sending
pub mod Files
use blockchain_test.Prelude.{
  ℕ, ◌+◌, Bool, true, false, not, Option, none, some, String, str_eq, List, [], ◌∷◌, ◌++◌, map,
  if◌then◌else◌, Map,
}
use blockchain_test.Prelude.Int.{ℤ, pos, add64, ltb_ℤ, leb_ℤ}
use blockchain_test.Prelude.Bytes.{Bytes}
use blockchain_test.Prelude.Float.{Float64, FloatOps}
use blockchain_test.Outcome.{Result, ok, panic, bad_address, not_positive}
use blockchain_test.Run.{Run, unfinished, returns, of_result, of_walk, ◌>>=◌}
use blockchain_test.Tx.{Transaction, TxOutput, coinbase_tx}
use blockchain_test.Block.{Block}
use blockchain_test.Pow.{new_proof, validate}
use blockchain_test.Utxo.{find_utxo}
use blockchain_test.Locks.{Locks}
use blockchain_test.Transfer.{Platform, new_transaction}
use blockchain_test.Forest.{Forest}
use blockchain_test.Network.{
  ConsistencyLevel, eventual_consistency, causal_consistency, strong_consistency,
  ConsistencyOrchestrator, set_consistency, get_consistency_level, predict_partition_probability,
}
use blockchain_test.Chain.{Services, BlockChain, Occasion, walk}
use blockchain_test.Chain.Opening.{
  init_block_chain, continue_block_chain, update_trust_score, get_trust_scores, get_network_stats,
  get_node_id,
}
use blockchain_test.Chain.Integrity.{verify_block_integrity}
use blockchain_test.Chain.Adding.{add_block}
use blockchain_test.Wallet.{Crypto, Generated, validate_address}
use blockchain_test.Wallet.Store.{Disk, create_wallets, add_wallet, save_file, get_all_addresses}
use blockchain_test.Cli.{
  World, Event, Env, Line, balance_of, block_line, block_failed, chain_valid, chain_invalid,
  chain_created, sent, new_address, address_line, added, level_set, trust_set, current_level,
  probability, trust_line, invalid_level, platform, sum_values, level_of,
}

module _ {Db Key : Type 0} (env : Env Db Key) where
  open env use {services, crypto, reward_line}

  -- `log.Panic` where the address is not valid.
  abbrev pub address_checked : Bool → Result Bool
  address_checked false = panic bad_address
  address_checked true = ok true

  unfoldable pub checked : String → Run Bool
  checked addr =
      of_result (validate_address crypto addr) >>= λ valid. of_result (address_checked valid)

  -- `ContinueBlockChain`, whose argument is not used.
  unfoldable pub opened : Event Key → World Db → Run (BlockChain Db)
  opened e w = of_walk (continue_block_chain services e.fuel e.born e.opening w.database)

  -- The blocks that a loop over the iterator of the chain visits.
  abbrev pub blocks_of : Event Key → BlockChain Db → Run (List Block)
  blocks_of e chain = of_walk (walk services e.fuel chain.database chain.last_hash)

  unfoldable pub print_chain : Event Key → World Db → Run (World Db × List Line)
  unfolding opened
  print_chain e w = opened e w >>= λ chain. blocks_of e chain >>= λ blocks.
      returns (w, map (λ b. block_line b (validate services.sha256 (new_proof b)).0) blocks)

  unfoldable pub create_block_chain : String → Event Key → World Db → Run (World Db × List Line)
  unfolding checked
  create_block_chain addr e w = checked addr >>= λ _.
      of_result (init_block_chain services addr e.now e.born e.block w.database) >>= λ chain.
      returns (record w { database = some chain.database }, chain_created ∷ [])

  unfoldable pub get_balance : String → Event Key → World Db → Run (World Db × List Line)
  unfolding checked opened sum_values
  get_balance addr e w = checked addr >>= λ _. opened e w >>= λ chain.
      blocks_of e chain >>= λ blocks.
      returns (w, balance_of addr (sum_values (pos 0) (find_utxo services.hex addr blocks)) ∷ [])

  -- The chain after `AddBlock` is closed: its database and the locks last.
  abbrev pub stored : World Db → Locks → List Line → BlockChain Db → World Db × List Line
  stored w locks lines chain = (record w { database = some chain.database; locks = locks }, lines)

  abbrev pub pay :
      Event Key → World Db → BlockChain Db → Result Transaction × Locks → Run (World Db × List Line)
  pay e w chain (r, locks) = of_result r >>= λ tx.
      of_result (add_block services (tx ∷ []) e.block chain) >>= λ chain'.
      returns (stored w locks (sent ∷ []) chain')

  -- `NewTransaction` walks the chain itself, after it has looked at the locks: a walk that panics is
  -- passed on to it.
  abbrev pub walked_with {ℓ} :
      {A : Type ℓ} → Option (Result (List Block)) → (Result (List Block) → Run A) → Run A
  walked_with none pass = unfinished
  walked_with (some blocks) pass = pass blocks

  unfoldable pub send : String → String → ℤ → Event Key → World Db → Run (World Db × List Line)
  unfolding checked opened
  send from to amount e w = checked from >>= λ _. checked to >>= λ _. opened e w >>= λ chain.
      walked_with (walk services e.fuel chain.database chain.last_hash) (λ blocks.
        pay e w chain (new_transaction (platform services) from to amount e.now blocks w.locks))

  abbrev pub funding : String → ℤ → Event Key → Transaction
  funding addr amount e =
      coinbase_tx services.sha256 services.encode_tx services.reward_text e.now addr
        (reward_line amount) amount

  unfoldable pub add_funds : String → ℤ → Event Key → World Db → Run (World Db × List Line)
  unfolding checked opened coinbase_tx
  add_funds addr amount e w =
      let paid = opened e w >>= λ chain.
      of_result (add_block services (funding addr amount e ∷ []) e.block chain) >>= λ chain'.
      returns (stored w w.locks (added amount addr ∷ []) chain') in
      checked addr >>= λ _. if leb_ℤ amount (pos 0) then of_result (panic not_positive) else paid

  -- Every block is verified, whatever the verdict on those before it; `n` counts the calls of
  -- `AddData`, at most two for each block.
  unfoldable pub verify_blocks : Occasion → ℕ → List Block → Forest → Run (List Line)
  verify_blocks t n [] f = returns []
  verify_blocks t n (b ∷ blocks) f = of_result (verify_block_integrity services t n b f) >>= λ r.
      verify_blocks t (n + 2) blocks r.2 >>= λ lines.
      returns (if r.0 then lines else block_failed b.hash ∷ lines)

  abbrev pub verdict : List Line → List Line
  verdict [] = chain_valid ∷ []
  verdict (line ∷ lines) = (line ∷ lines) ++ chain_invalid ∷ []

  unfoldable pub validate_chain : Event Key → World Db → Run (World Db × List Line)
  unfolding opened verify_blocks
  validate_chain e w = opened e w >>= λ chain. blocks_of e chain >>= λ blocks.
      verify_blocks e.block 0 blocks chain.amf >>= λ lines. returns (w, verdict lines)

  -- The chain with the level set, and what is printed; the chain is closed at the end.
  abbrev pub leveled : BlockChain Db → String → Option ConsistencyLevel → BlockChain Db × List Line
  leveled chain text none = (chain, invalid_level ∷ [])
  leveled chain text (some level) = (
    record chain { consistency_mgr = set_consistency level chain.consistency_mgr },
    level_set text ∷ [],
  )

  unfoldable pub set_consistency_level :
      String → Event Key → World Db → Run (BlockChain Db × World Db × List Line)
  unfolding opened
  set_consistency_level text e w = opened e w >>= λ chain.
      let (chain', lines) = leveled chain text (level_of text) in returns (chain', w, lines)

  -- `score >= 0.5` counts as a success.
  unfoldable pub set_trust :
      String → Float64 → Event Key → World Db → Run (BlockChain Db × World Db × List Line)
  unfolding opened
  set_trust node score e w = opened e w >>= λ chain.
      let success = services.floats.le (services.floats.literal 5 1) score in
      returns (update_trust_score services node success chain, w, trust_set node score ∷ [])

  abbrev pub trust_lines : Map Float64 → List Line
  trust_lines [] = []
  trust_lines ((node, score) ∷ scores) = trust_line node score ∷ trust_lines scores

  -- `netStats` is not nil, and the probability is printed in per cent.
  abbrev pub shown_probability : Event Key → BlockChain Db → Float64
  shown_probability e chain =
      services.floats.mul
        (predict_partition_probability services.floats e.now (get_network_stats chain)).0
        (services.floats.literal 100 0)

  unfoldable pub view_network_status : Event Key → World Db → Run (World Db × List Line)
  unfolding opened
  view_network_status e w = opened e w >>= λ chain. returns (
    w,
    current_level (get_consistency_level (get_node_id chain) chain.consistency_mgr.node_consistency)
        ∷ probability (shown_probability e chain)
        ∷ trust_lines (get_trust_scores chain),
  )

  -- The error of `CreateWallets` is dropped.
  unfoldable pub create_wallet : Event Key → World Db → Run (World Db × List Line)
  create_wallet e w =
      of_result (add_wallet crypto e.generated (create_wallets crypto w.disk).1 w.disk) >>= λ r.
      of_result (save_file crypto r.1 r.2) >>= λ disk.
      returns (record w { disk = disk }, new_address r.0 ∷ [])

  abbrev pub address_lines : List String → List Line
  address_lines [] = []
  address_lines (addr ∷ addrs) = address_line addr ∷ address_lines addrs

  unfoldable pub list_addresses : Event Key → World Db → List Line
  list_addresses e w =
      address_lines (get_all_addresses (e.visit 0 (create_wallets crypto w.disk).1))
