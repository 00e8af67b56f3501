-- ===== src/Prelude/Bytes.antt =====
-- Byte slices (`[]byte`): lists of numbers below 256, compared item by item. A nil slice and an
-- empty one are one list; where the code tells them apart, the field is an `Option`.
use blockchain_test.Prelude.{
  ℕ, ◌+◌, ◌*◌, ◌<◌, ◌≡◌, refl, ◌↔◌, Bool, true, false, ◌&&◌, List, [], ◌∷◌, arith, ◌==◌, All,
}

abbrev pub Bytes : Type 0
Bytes = List ℕ

abbrev pub AreBytes : Bytes → Type 0
AreBytes b = All (λ x. x < 256) b

-- `bytes.Equal`
unfoldable pub bytes_equal : Bytes → Bytes → Bool
bytes_equal [] [] = true
bytes_equal [] (y ∷ ys) = false
bytes_equal (x ∷ xs) [] = false
bytes_equal (x ∷ xs) (y ∷ ys) = x == y && bytes_equal xs ys

pub bytes_equal-eq : (a b : Bytes) → bytes_equal a b ≡ true → a ≡ b
unfolding bytes_equal
bytes_equal-eq [] [] h = refl
bytes_equal-eq [] (y ∷ ys) h = ground arith
bytes_equal-eq (x ∷ xs) [] h = ground arith
bytes_equal-eq (x ∷ xs) (y ∷ ys) h = ground (arith, bytes_equal-eq xs ys)

pub bytes_equal_refl : (a : Bytes) → bytes_equal a a ≡ true
unfolding bytes_equal
bytes_equal_refl [] = refl
bytes_equal_refl (x ∷ xs) = ground (arith, bytes_equal_refl xs)

pub bytes_equal_iff : (a b : Bytes) → (bytes_equal a b ≡ true) ↔ (a ≡ b)
bytes_equal_iff a b = (bytes_equal-eq a b, λ e. rw e (bytes_equal_refl b))

-- `new(big.Int).SetBytes(b)`: the bytes read as one number, the most significant first.
unfoldable pub set_bytes : ℕ → Bytes → ℕ
set_bytes acc [] = acc
set_bytes acc (x ∷ xs) = set_bytes (acc * 256 + x) xs
