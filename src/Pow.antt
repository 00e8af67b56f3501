-- ===== src/Pow.antt =====
-- Blockchain/proof.go: the proof of work. `time.Now` and `rand.Intn` enter as arguments.
pub mod Target
pub mod Run
use blockchain_test.Prelude.{
  ℕ, zero, suc, ◌+◌, ◌-◌, ◌*◌, ◌/◌, ◌%◌, ◌^◌, Bool, [], ◌∷◌, ◌++◌, ltb, if◌then◌else◌, replicate,
}
use blockchain_test.Prelude.Int.{ℤ, pos, to_word}
use blockchain_test.Prelude.Bytes.{Bytes, set_bytes}
use blockchain_test.Block.{Block, hash_transactions}

abbrev pub difficulty : ℕ
difficulty = 12

-- `math.MaxInt64`
abbrev pub max_int64 : ℕ
max_int64 = 2 ^ 63 - 1

pub record ProofOfWork : Type 0 where
  pub block : Block
  pub target : ℕ

unfoldable pub new_proof : Block → ProofOfWork
new_proof b = record { block = b; target = 1 * 2 ^ (256 - difficulty) }

-- The last `k` base-256 digits of `w`, the most significant first.
unfoldable pub big_endian : ℕ → ℕ → Bytes
big_endian zero w = []
big_endian (suc k) w = (w / 256 ^ k % 256) ∷ big_endian k w

-- `binary.Write` of an int64 into a buffer in memory does not fail.
unfoldable pub to_hex : ℤ → Bytes
unfolding big_endian
to_hex num = big_endian 8 (to_word num)

module _ (sha256 : Bytes → Bytes) where
  -- The bytes to hash, and the block as `HashTransactions` leaves it.
  unfoldable pub init_data : ProofOfWork → ℤ → Bytes × Block
  init_data pow nonce =
      let (root, b) = hash_transactions sha256 pow.block in
      (
        b.prev_hash
            ++ (root
                ++ (b.state_root
                    ++ (b.accumulator_root
                        ++ (to_hex nonce ++ (to_hex (pos difficulty) ++ to_hex b.timestamp))))),
        b,
      )

  -- `for nonce < math.MaxInt64 { … }`: the nonce, the last hash and the block at the end.
  unfoldable pub run_loop : ℕ → ProofOfWork → ℕ → Bytes → ℕ × Bytes × Block
  run_loop zero pow nonce hash = (nonce, hash, pow.block)
  run_loop (suc f) pow nonce hash =
      let (d, b) = init_data pow (pos nonce) in
      let h = sha256 d in
      let rest = run_loop f (record pow { block = b }) (nonce + 1) h in
      if ltb nonce max_int64
      then (if ltb (set_bytes 0 h) pow.target then (nonce, h, b) else rest)
      else (nonce, hash, pow.block)

  -- The loop's test lets `max_int64 - start` rounds through at most, so that many are given.
  unfoldable pub run : ProofOfWork → ℕ → ℕ × Bytes × Block
  unfolding run_loop
  run pow start = run_loop (max_int64 - start) pow start (replicate 32 0)

  unfoldable pub validate : ProofOfWork → Bool × Block
  validate pow =
      let (d, b) = init_data pow pow.block.nonce in (ltb (set_bytes 0 (sha256 d)) pow.target, b)
