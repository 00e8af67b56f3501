-- ===== src/Chain/Opening.antt =====
-- `InitBlockChain`, `ContinueBlockChain` and the small methods of Blockchain/blockchain.go. `none` in
-- the place of a database means that `DBExists` finds no file.
pub mod Laws
use blockchain_test.Prelude.{
  ℕ, Bool, Option, none, some, String, List, [], ◌∷◌, replicate, if◌then◌else◌, Map, lookup, insert,
}
use blockchain_test.Prelude.Int.{ℤ, pos}
use blockchain_test.Prelude.Bytes.{Bytes}
use blockchain_test.Prelude.Float.{Float64}
use blockchain_test.Outcome.{Result, ok, panic, blockchain_exists, no_blockchain, ◌>>=◌}
use blockchain_test.Tx.{coinbase_tx}
use blockchain_test.Block.{Block}
use blockchain_test.Block.Create.{genesis}
use blockchain_test.Forest.{Forest, new_forest, add_data}
use blockchain_test.Network.{NetworkStats, new_consistency_orchestrator}
use blockchain_test.Chain.{Services, BlockChain, Occasion, last_hash_key, or_not_found, rebuild_amf}

abbrev pub genesis_data : String
genesis_data = "First Transaction from Genesis"

-- A copy of the map, with its entries in the same order.
abbrev pub copy_scores : Map Float64 → Map Float64
copy_scores [] = []
copy_scores ((node, score) ∷ scores) = (node, score) ∷ copy_scores scores

module _ {Db : Type 0} where
  unfoldable pub get_node_id : BlockChain Db → String
  get_node_id chain = chain.node_id

  unfoldable pub get_network_stats : BlockChain Db → NetworkStats
  get_network_stats chain = chain.consistency_mgr.network_stats

  unfoldable pub get_trust_scores : BlockChain Db → Map Float64
  get_trust_scores chain = copy_scores chain.trust_scores

module _ {Db : Type 0} (s : Services Db) where
  open s use {get, put, encode, hex, sha256, encode_tx, reward_text, fresh, floats}

  unfoldable pub generate_node_id : String
  generate_node_id = hex (replicate 16 0)

  abbrev pub score_or_zero : Option Float64 → Float64
  score_or_zero none = floats.literal 0 0
  score_or_zero (some score) = score

  unfoldable pub update_trust_score : String → Bool → BlockChain Db → BlockChain Db
  update_trust_score node success chain =
      let current = score_or_zero (lookup node chain.trust_scores) in
      record chain {
        trust_scores =
            insert node
              (if success
                then floats.min (floats.add current (floats.literal 1 1)) (floats.literal 1 0)
                else floats.max (floats.sub current (floats.literal 2 1)) (floats.literal 0 0))
              chain.trust_scores;
      }

  -- The chain that both constructors make, at the time `born`.
  abbrev pub new_chain : ℤ → Bytes → Db → BlockChain Db
  new_chain born last db = record {
    last_hash = last;
    database = db;
    amf = new_forest born;
    consistency_mgr = new_consistency_orchestrator;
    commitments = [];
    node_id = generate_node_id;
    trust_scores = [];
  }

  abbrev pub with_amf : BlockChain Db → Forest → BlockChain Db
  with_amf chain f = record chain { amf = f }

  -- `minted` is the time of the coinbase transaction, and `t` the occasion of the genesis block.
  unfoldable pub init_block_chain : String → ℤ → ℤ → Occasion → Option Db → Result (BlockChain Db)
  unfolding coinbase_tx genesis generate_node_id
  init_block_chain address minted born t (some db) = panic blockchain_exists
  init_block_chain address minted born t none =
      let cbtx = coinbase_tx sha256 encode_tx reward_text minted address genesis_data (pos 100) in
      let b = genesis sha256 floats cbtx t.now t.start in
      let db = put last_hash_key b.hash (put b.hash (encode b) fresh) in
      let chain = new_chain born b.hash db in
      add_data sha256 (t.moments 0) b.hash chain.amf >>= λ f. ok (with_amf chain f)

  -- The chain with the forest rebuilt; `none` where the fuel of the walk is used up.
  abbrev pub reopened : BlockChain Db → Option (Result Forest) → Option (Result (BlockChain Db))
  reopened chain none = none
  reopened chain (some f) = some (f >>= λ g. ok (with_amf chain g))

  abbrev pub continue_from : ℕ → ℤ → Occasion → Db → Result Bytes → Option (Result (BlockChain Db))
  continue_from fuel born t db (panic e) = some (panic e)
  continue_from fuel born t db (ok last) =
      let chain = new_chain born last db in reopened chain (rebuild_amf s fuel t db last chain.amf)

  unfoldable pub continue_block_chain :
      ℕ → ℤ → Occasion → Option Db → Option (Result (BlockChain Db))
  unfolding rebuild_amf generate_node_id
  continue_block_chain fuel born t none = some (panic no_blockchain)
  continue_block_chain fuel born t (some db) =
      continue_from fuel born t db (or_not_found (get last_hash_key db))
