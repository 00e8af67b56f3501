-- ===== src/Pow/Target.antt =====
-- The target of the proof of work, and the bytes of a nonce.
use blockchain_test.Prelude.{ℕ, ◌+◌, ◌*◌, ◌<◌, ◌≡◌, ◌↔◌, true, ◌∷◌, arith, length, ltb}
use blockchain_test.Prelude.Int.{ℤ, IsInt64, of_word, to_word, to_word-lt, of_word-to_word}
use blockchain_test.Prelude.Bytes.{Bytes, AreBytes, set_bytes}
use blockchain_test.Prelude.BigEndian.{set_bytes_bounds, eight_digits}
use blockchain_test.Pow.{new_proof, to_hex}
use blockchain_test.Block.{Block}

-- A 32-byte hash is below the target exactly when its first twelve bits are zero.
pub target-leading_zeros :
    (b : Block) (x y : ℕ) (rest : Bytes)
    → length rest ≡ 30
    → AreBytes (x ∷ y ∷ rest)
    → (ltb (set_bytes 0 (x ∷ y ∷ rest)) (new_proof b).target ≡ true) ↔ ((x ≡ 0) × (y < 16))
unfolding new_proof set_bytes
target-leading_zeros b x y rest l h =
    let bounds = rw l at (set_bytes_bounds (x * 256 + y) rest h.1.1) in
    let lead : 0 * 256 + x ≡ x = omega arith in rw lead (ground arith)

-- The eight bytes of an int64 read back as the int64.
pub to_hex_roundtrip : (n : ℤ) → IsInt64 n → of_word (set_bytes 0 (to_hex n)) ≡ n
unfolding to_hex
to_hex_roundtrip n h = rw (eight_digits (to_word n) (to_word-lt n)) (of_word-to_word n h)
