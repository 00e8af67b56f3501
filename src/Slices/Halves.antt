-- ===== src/Slices/Halves.antt =====
-- The halves of a slice, and the slices that an `append` does not concern.
use blockchain_test.Prelude.{
  inl, inr, ℕ, zero, suc, ◌+◌, ◌-◌, ◌≤◌, ◌≡◌, refl, sym, ap, ◌∙◌, List, [], ◌∷◌, ◌++◌, arith,
  length, set, take, drop, length-set, leb, Bool-cases, drop-drop,
}
use blockchain_test.Prelude.Bytes.{Bytes}
use blockchain_test.Slices.{
  Memory, Slice, IsSlice, array_at, contents, slice_to, slice_from, append_items, write_from,
}

take-take : (n k : ℕ) (xs : List Bytes) → n ≤ k → take n (take k xs) ≡ take n xs
take-take zero k xs h = refl
take-take (suc n) zero xs h = absurd (omega arith)
take-take (suc n) (suc k) [] h = refl
take-take (suc n) (suc k) (x ∷ xs) h = ap (λ t. x ∷ t) (take-take n k xs (omega arith))

drop-take : (n k : ℕ) (xs : List Bytes) → n ≤ k → drop n (take k xs) ≡ take (k - n) (drop n xs)
drop-take zero k xs h = let e : k - 0 ≡ k = omega arith in rw e
drop-take (suc n) zero xs h = absurd (omega arith)
drop-take (suc n) (suc k) [] h = drop-take_nil (suc k - suc n)
  where
    drop-take_nil : (j : ℕ) → [] ≡ take {A = Bytes} j []
    drop-take_nil zero = refl
    drop-take_nil (suc j) = refl
drop-take (suc n) (suc k) (x ∷ xs) h =
    let e : suc k - suc n ≡ k - n = omega arith in rw e (drop-take n k xs (omega arith))

module _ (m : Memory) (s : Slice) (n : ℕ) (h : n ≤ s.len) where
  pub contents-slice_to : contents m (slice_to n s) ≡ take n (contents m s)
  unfolding slice_to
  contents-slice_to = sym (take-take n s.len (drop s.offset (array_at m s.array)) h)

  pub contents-slice_from : contents m (slice_from n s) ≡ drop n (contents m s)
  unfolding slice_from
  contents-slice_from = rw (drop-take n s.len (drop s.offset (array_at m s.array)) h, drop-drop)

  module _ (valid : IsSlice m s) where
    pub slice_to-IsSlice : IsSlice m (slice_to n s)
    unfolding slice_to
    slice_to-IsSlice = record { filled = omega (arith, valid.filled); within = valid.within }

    pub slice_from-IsSlice : IsSlice m (slice_from n s)
    unfolding slice_from
    slice_from-IsSlice = record {
      filled = omega (arith, valid.filled);
      within = omega (arith, valid.filled, valid.within);
    }

length-write_from :
    (a : List Bytes) (i : ℕ) (xs : List Bytes) → length (write_from a i xs) ≡ length a
unfolding write_from
length-write_from a i [] = refl
length-write_from a i (x ∷ xs) = length-write_from (set a i x) (i + 1) xs ∙ length-set a i x

set-wide :
    (m : Memory) (k j : ℕ) (a : List Bytes)
    → length a ≡ length (array_at m k)
    → length (array_at (set m k a) j) ≡ length (array_at m j)
set-wide [] k j a h = refl
set-wide (b ∷ m) zero zero a h = h
set-wide (b ∷ m) zero (suc j) a h = refl
set-wide (b ∷ m) (suc k) zero a h = refl
set-wide (b ∷ m) (suc k) (suc j) a h = set-wide m k j a h

append-wide :
    (m : Memory) (a : List Bytes) (j : ℕ)
    → length (array_at m j) ≤ length (array_at (m ++ a ∷ []) j)
append-wide [] a j = omega arith
append-wide (b ∷ m) a zero = omega arith
append-wide (b ∷ m) a (suc j) = append-wide m a j

-- After an `append` to any slice, a slice that was a window of its array still is.
pub append_items-others :
    (spare : ℕ → ℕ) (m : Memory) (s t : Slice) (xs : List Bytes)
    → IsSlice m t
    → IsSlice (append_items spare m s xs).0 t
unfolding append_items
append_items-others spare m s t xs valid = elim (Bool-cases (leb (s.len + length xs) s.cap)) [
  | inl fits ↦ rw fits (record {
    filled = valid.filled;
    within = omega (
      arith,
      valid.within,
      set-wide m s.array t.array (write_from (array_at m s.array) (s.offset + s.len) xs)
          (length-write_from (array_at m s.array) (s.offset + s.len) xs),
    );
  })
  | inr full ↦ rw full (record {
    filled = valid.filled;
    within = omega (arith, valid.within, append-wide m _ t.array);
  })
]
