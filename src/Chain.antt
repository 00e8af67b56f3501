-- ===== src/Chain.antt =====
-- Blockchain/blockchain.go: the chain in its database, the walk from the newest block back to the
-- first, and `AddBlock`.
pub mod Walk
pub mod Opening
pub mod Rebuild
pub mod Integrity
pub mod Adding
use blockchain_test.Prelude.{
  ℕ, zero, suc, ◌+◌, Bool, true, false, not, Option, none, some, String, str_eq, List, [], ◌∷◌,
  ◌++◌, length, ◌==◌, if◌then◌else◌, Map, lookup,
}
use blockchain_test.Prelude.Int.{ℤ}
use blockchain_test.Prelude.Bytes.{Bytes, bytes_equal}
use blockchain_test.Prelude.Float.{Float64, FloatOps}
use blockchain_test.Outcome.{
  Result, ok, panic, key_not_found, decode_failed, verification_failed, nil_pointer, ◌>>=◌,
}
use blockchain_test.Merkle.{MerkleNode, node_hash}
use blockchain_test.Tx.{Transaction}
use blockchain_test.Block.{Block, hash_transactions}
use blockchain_test.Block.Create.{create_block}
use blockchain_test.Pow.{new_proof, validate}
use blockchain_test.Forest.{Forest, Moment, add_data, generate_merkle_proof}
use blockchain_test.Bloom.{create_commitment}
use blockchain_test.Network.{
  ConsistencyLevel, eventual_consistency, causal_consistency, strong_consistency,
  ConsistencyOrchestrator,
}

-- badger, gob, hex and sha256: a store of byte strings by byte strings, `fresh` as it is opened in a new
-- directory, the encodings of a block and of a transaction, and the functions that the code calls on
-- bytes; the order in which `range` visits a map; and the text `Reward %d to %s` of `fmt.Sprintf`.
pub record Services (Db : Type 0) : Type 0 where
  pub get : Bytes → Db → Option Bytes
  pub put : Bytes → Bytes → Db → Db
  pub encode : Block → Bytes
  pub decode : Bytes → Option Block
  pub hex : Bytes → String
  pub unhex : String → Option Bytes
  pub encode_tx : Transaction → Bytes
  pub reward_text : ℤ → String → String
  pub visit : Map (List ℤ) → Map (List ℤ)
  pub fresh : Db
  pub sha256 : Bytes → Bytes
  pub floats : FloatOps

-- "lh", the key of the newest block's hash.
abbrev pub last_hash_key : Bytes
last_hash_key = 108 ∷ 104 ∷ []

pub record BlockChain (Db : Type 0) : Type 0 where
  pub last_hash : Bytes
  pub database : Db
  pub amf : Forest
  pub consistency_mgr : ConsistencyOrchestrator
  pub commitments : Map Bytes
  pub node_id : String
  pub trust_scores : Map Float64

abbrev pub is_strong : ConsistencyLevel → Bool
is_strong eventual_consistency = false
is_strong causal_consistency = false
is_strong strong_consistency = true

abbrev pub or_not_found : Option Bytes → Result Bytes
or_not_found none = panic key_not_found
or_not_found (some v) = ok v

abbrev pub or_decode_failed : Option Block → Result Block
or_decode_failed none = panic decode_failed
or_decode_failed (some b) = ok b

abbrev pub is_some {ℓ} : {A : Type ℓ} → Option A → Bool
is_some none = false
is_some (some a) = true

abbrev pub tx_ids : List Transaction → List Bytes
tx_ids [] = []
tx_ids (tx ∷ txs) = tx.id ∷ tx_ids txs

-- One turn of a loop over `Next`: the block, and those that follow where it has a `PrevHash`.
abbrev pub before {ℓ} : {A : Type ℓ} → A → Option (Result (List A)) → Option (Result (List A))
before b none = none
before b (some (panic e)) = some (panic e)
before b (some (ok rest)) = some (ok (b ∷ rest))

abbrev pub visited : Block → Option (Result (List Block)) → Option (Result (List Block))
visited b rest = if length b.prev_hash == 0 then some (ok (b ∷ [])) else before b rest

-- A turn ends the walk where `Next` panics.
abbrev pub turn :
    Result Block → (Block → Option (Result (List Block))) → Option (Result (List Block))
turn (panic e) loop = some (panic e)
turn (ok b) loop = loop b

abbrev pub after :
    Option (Result (List Block)) → (List Block → Result Forest) → Option (Result Forest)
after none use_blocks = none
after (some blocks) use_blocks = some (blocks >>= use_blocks)

-- What the clock and the generator of random numbers decide during one `AddBlock`: `time.Now` in
-- seconds, the first nonce, and the moment of each `AddData`, in the order of the calls.
pub record Occasion : Type 0 where
  pub now : ℤ
  pub start : ℕ
  pub moments : ℕ → Moment

module _ {Db : Type 0} (s : Services Db) where
  open s use {get, put, encode, decode, hex, sha256, floats}

  -- `Next`: the block at the hash; the iterator moves on to its `PrevHash`.
  unfoldable pub next : Db → Bytes → Result Block
  next db current = or_not_found (get current db) >>= λ v. or_decode_failed (decode v)

  -- The blocks that a loop over `Next` visits, until one has no `PrevHash`; `none` where the fuel ends
  -- first.
  unfoldable pub walk : ℕ → Db → Bytes → Option (Result (List Block))
  unfolding next
  walk zero db current = none
  walk (suc f) db current = turn (next db current) (λ b. visited b (walk f db b.prev_hash))

  -- `AddData` of each item in turn, from call `n` on.
  unfoldable pub add_each : Occasion → ℕ → List Bytes → Forest → Result Forest
  add_each t n [] f = ok f
  add_each t n (x ∷ xs) f = add_data sha256 (t.moments n) x f >>= add_each t (n + 1) xs

  -- What `rebuildAMF` adds for one block.
  abbrev pub block_items : Block → List Bytes
  block_items b = b.hash ∷ encode b ∷ tx_ids b.transactions

  abbrev pub items_of : List Block → List Bytes
  items_of [] = []
  items_of (b ∷ blocks) = block_items b ++ items_of blocks

  unfoldable pub rebuild_amf : ℕ → Occasion → Db → Bytes → Forest → Option (Result Forest)
  unfolding walk add_each
  rebuild_amf fuel t db last f =
      after (walk fuel db last) (λ blocks. add_each t 0 (items_of blocks) f)
