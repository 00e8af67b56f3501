-- ===== src/Bloom.antt =====
-- `BloomFilter`, `ProbabilisticAccumulator` and `CrossShardSynchronizer` of
-- Blockchain/adaptive_merkle_forest.go. The field `data` of the accumulator is `members`.
pub mod Members
use blockchain_test.Prelude.{
  ℕ, zero, suc, ◌+◌, ◌%◌, Bool, true, false, String, List, [], ◌∷◌, ◌++◌, length, set, replicate,
  ltb, ◌==◌, if◌then◌else◌, Map,
}
use blockchain_test.Prelude.{insert}
use blockchain_test.Prelude.Bytes.{Bytes}
use blockchain_test.Outcome.{Result, ok, panic, divide_by_zero, ◌>>=◌}

pub record BloomFilter : Type 0 where
  pub bits : List Bool
  pub num_hash : ℕ

unfoldable pub new_bloom_filter : ℕ → ℕ → BloomFilter
new_bloom_filter size num_hash = record { bits = replicate size false; num_hash = num_hash }

pub record ProbabilisticAccumulator : Type 0 where
  pub members : Map Bool
  pub compressor : BloomFilter

unfoldable pub new_probabilistic_accumulator : ProbabilisticAccumulator
unfolding new_bloom_filter
new_probabilistic_accumulator = record { members = []; compressor = new_bloom_filter 1_024 3 }

-- `h[0]` of a hash, which is an array of 32 bytes.
abbrev pub first_byte : Bytes → ℕ
first_byte [] = 0
first_byte (x ∷ xs) = x

-- `bits[n]`; every index that the filter uses is below the length.
abbrev pub bit_at : List Bool → ℕ → Bool
bit_at [] n = false
bit_at (b ∷ bits) zero = b
bit_at (b ∷ bits) (suc n) = bit_at bits n

module _ (sha256 : Bytes → Bytes) where
  -- `int(h[0]) % len(bf.bits)` in round `i`, for a filter of `size` bits.
  abbrev pub index_of : ℕ → Bytes → ℕ → ℕ
  index_of size item i = first_byte (sha256 (item ++ (i % 256) ∷ [])) % size

  -- The loop of `Add` with `k` rounds to go, from round `i` on.
  unfoldable pub add_rounds : ℕ → ℕ → Bytes → List Bool → Result (List Bool)
  add_rounds zero i item bits = ok bits
  add_rounds (suc k) i item bits =
      let rest = add_rounds k (i + 1) item (set bits (index_of (length bits) item i) true) in
      if length bits == 0 then panic divide_by_zero else rest

  unfoldable pub add : Bytes → BloomFilter → Result BloomFilter
  unfolding add_rounds
  add item bf = add_rounds bf.num_hash 0 item bf.bits >>= λ bits. ok (record bf { bits = bits })

  -- The loop of `Contains`.
  unfoldable pub contains_rounds : ℕ → ℕ → Bytes → List Bool → Result Bool
  contains_rounds zero i item bits = ok true
  contains_rounds (suc k) i item bits =
      let rest = contains_rounds k (i + 1) item bits in
      if length bits == 0
      then panic divide_by_zero
      else if bit_at bits (index_of (length bits) item i)
      then rest
      else ok false

  unfoldable pub contains : Bytes → BloomFilter → Result Bool
  unfolding contains_rounds
  contains item bf = contains_rounds bf.num_hash 0 item bf.bits

  -- `ProbabilisticAccumulator.Add`; `hex` is `hex.EncodeToString`.
  unfoldable pub accumulate :
      (Bytes → String) → Bytes → ProbabilisticAccumulator → Result ProbabilisticAccumulator
  unfolding add
  accumulate hex item pa = add item pa.compressor >>= λ bf.
      ok (record { members = insert (hex item) true pa.members; compressor = bf })

  -- `CreateCommitment`: the hash, and the commitments with it.
  unfoldable pub create_commitment : String → Bytes → Map Bytes → Bytes × Map Bytes
  create_commitment key value commitments = (sha256 value, insert key (sha256 value) commitments)

  unfoldable pub synchronize_state : String → String → String → Bytes → Map Bytes → Bool × Map Bytes
  unfolding create_commitment
  synchronize_state source target key value commitments =
      let (commitment, kept) = create_commitment key value commitments in
      (ltb 0 (length commitment), kept)
