-- ===== src/Prelude/BigEndian.antt =====
-- A byte string read as a number lies in the range that its leading part fixes.
use native.Mathlib.Nat.{pow-suc, zero-add}
use blockchain_test.Prelude.{ℕ, ◌+◌, ◌*◌, ◌/◌, ◌%◌, ◌^◌, ◌≤◌, ◌<◌, ◌≡◌, [], ◌∷◌, arith, length}
use blockchain_test.Prelude.Bytes.{Bytes, AreBytes, set_bytes}

pub set_bytes_bounds :
    (acc : ℕ) (b : Bytes)
    → AreBytes b
    → (acc * 256 ^ length b ≤ set_bytes acc b) × (set_bytes acc b < (acc + 1) * 256 ^ length b)
unfolding set_bytes
set_bytes_bounds acc [] h = omega arith
set_bytes_bounds acc (x ∷ xs) h =
    let (low, high) = set_bytes_bounds (acc * 256 + x) xs h.1 in
    let m : (acc * 256 + x + 1) * 256 ^ length xs ≤ (acc * 256 + 256) * 256 ^ length xs =
      grind (arith, h.0) in
    (rw (pow-suc 256 (length xs)) (omega arith), rw (pow-suc 256 (length xs)) (omega arith))

-- Eight base-256 digits, put together again.
pub eight_digits :
    (w : ℕ)
    → w < 2 ^ 64
    → set_bytes 0 (
        (w / 256 ^ 7 % 256)
        ∷ (w / 256 ^ 6 % 256)
        ∷ (w / 256 ^ 5 % 256)
        ∷ (w / 256 ^ 4 % 256)
        ∷ (w / 256 ^ 3 % 256)
        ∷ (w / 256 ^ 2 % 256)
        ∷ (w / 256 ^ 1 % 256)
        ∷ (w / 256 ^ 0 % 256)
        ∷ [])
      ≡ w
unfolding set_bytes
eight_digits w h =
    let d7 : w / 256 ^ 7 % 256 ≡ w / 256 ^ 7 = omega arith in
    let d6 : w / 256 ^ 7 * 256 + w / 256 ^ 6 % 256 ≡ w / 256 ^ 6 = omega arith in
    let d5 : w / 256 ^ 6 * 256 + w / 256 ^ 5 % 256 ≡ w / 256 ^ 5 = omega arith in
    let d4 : w / 256 ^ 5 * 256 + w / 256 ^ 4 % 256 ≡ w / 256 ^ 4 = omega arith in
    let d3 : w / 256 ^ 4 * 256 + w / 256 ^ 3 % 256 ≡ w / 256 ^ 3 = omega arith in
    let d2 : w / 256 ^ 3 * 256 + w / 256 ^ 2 % 256 ≡ w / 256 ^ 2 = omega arith in
    let d1 : w / 256 ^ 2 * 256 + w / 256 ^ 1 % 256 ≡ w / 256 ^ 1 = omega arith in
    let d0 : w / 256 ^ 1 * 256 + w / 256 ^ 0 % 256 ≡ w = omega arith in
    rw (zero-add, d7, d6, d5, d4, d3, d2, d1, d0)
