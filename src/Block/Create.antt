-- ===== src/Block/Create.antt =====
-- `CreateBlock` and `Genesis` of Blockchain/block.go: the roots, and the proof of work over them.
pub mod Laws
use blockchain_test.Prelude.{
  ℕ, ◌+◌, ◌/◌, ◌%◌, Bool, none, List, [], ◌∷◌, ◌++◌, ltb, leb, ◌&&◌, if◌then◌else◌,
}
use blockchain_test.Prelude.Int.{ℤ, pos, negsuc}
use blockchain_test.Prelude.Bytes.{Bytes}
use blockchain_test.Prelude.Float.{FloatOps}
use blockchain_test.Tx.{Transaction}
use blockchain_test.Block.{Block, hash_transactions, calculate_block_entropy}
use blockchain_test.Pow.{ProofOfWork, new_proof, run}

-- The encoding of U+FFFD.
abbrev pub replacement : Bytes
replacement = 0xEF ∷ 0xBF ∷ 0xBD ∷ []

-- Go's `[]byte(string(n))` at an integer n: the UTF-8 encoding of the code point n, and of U+FFFD
-- where n is no code point.
unfoldable pub rune_bytes : ℤ → Bytes
rune_bytes (negsuc n) = replacement
rune_bytes (pos n) =
    if ltb n 0x80
    then n ∷ []
    else if ltb n 0x800
    then (0xC0 + n / 0x40) ∷ (0x80 + n % 0x40) ∷ []
    else if leb 0xD800 n && leb n 0xDFFF
    then replacement
    else if ltb n 0x10000
    then (0xE0 + n / 0x1000) ∷ (0x80 + n / 0x40 % 0x40) ∷ (0x80 + n % 0x40) ∷ []
    else if leb n 0x10FFFF
    then (0xF0 + n / 0x40000)
      ∷ (0x80 + n / 0x1000 % 0x40)
      ∷ (0x80 + n / 0x40 % 0x40)
      ∷ (0x80 + n % 0x40)
      ∷ []
    else replacement

module _ (sha256 : Bytes → Bytes) (ops : FloatOps) where
  -- The block before the proof of work; `now` is `time.Now().Unix()`.
  unfoldable pub prepare_block : List Transaction → Bytes → ℤ → Block
  prepare_block txs prev_hash now =
      let (tx_root, b) = hash_transactions sha256 (record {
        hash = [];
        transactions = txs;
        prev_hash = prev_hash;
        nonce = pos 0;
        timestamp = now;
        state_root = [];
        accumulator_root = [];
        tx_trie = none;
        entropy_value = calculate_block_entropy ops txs;
      }) in
      let accumulator_root = sha256 (tx_root ++ prev_hash) in
      record b {
        accumulator_root = accumulator_root;
        state_root = sha256 (accumulator_root ++ rune_bytes b.timestamp);
      }

  -- `start` is the nonce that `rand.Intn(10000)` draws in `Run`.
  unfoldable pub create_block : List Transaction → Bytes → ℤ → ℕ → Block
  unfolding prepare_block
  create_block txs prev_hash now start =
      let (nonce, hash, b) = run sha256 (new_proof (prepare_block txs prev_hash now)) start in
      record b { hash = hash; nonce = pos nonce }

  unfoldable pub genesis : Transaction → ℤ → ℕ → Block
  unfolding create_block
  genesis coinbase now start = create_block (coinbase ∷ []) [] now start
