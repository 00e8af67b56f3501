-- ===== src/Slices/Many.antt =====
-- `append` of several items.
use mathlib.Core.Path.{subst}
use mathlib.Core.List.{append_assoc, append-nil}
use blockchain_test.Prelude.{
  inl, inr, ℕ, zero, suc, ◌+◌, ◌≤◌, ◌<◌, ◌≡◌, refl, ap, ◌∙◌, List, [], ◌∷◌, ◌++◌, arith, length,
  set, replicate, length-append, length-replicate, take-append, leb, Bool-cases,
}
use blockchain_test.Prelude.Bytes.{Bytes}
use blockchain_test.Slices.{Memory, Slice, IsSlice, array_at, contents, write_from, append_items}
use blockchain_test.Slices.Append.{
  array_at-append, length-contents, written, array-written, contents-written, written-IsSlice,
}

set-same : (m : Memory) (k : ℕ) → set m k (array_at m k) ≡ m
set-same [] k = refl
set-same (a ∷ m) zero = refl
set-same (a ∷ m) (suc k) = ap (λ l. a ∷ l) (set-same m k)

set-set : (m : Memory) (k : ℕ) (a b : List Bytes) → set (set m k a) k b ≡ set m k b
set-set [] k a b = refl
set-set (c ∷ m) zero a b = refl
set-set (c ∷ m) (suc k) a b = ap (λ l. c ∷ l) (set-set m k a b)

-- The memory after a write of several items behind the slice.
abbrev filled_in : Memory → Slice → List Bytes → Memory
filled_in m s xs = set m s.array (write_from (array_at m s.array) (s.offset + s.len) xs)

abbrev resized : Slice → ℕ → Slice
resized s n = record s { len = n }

-- Writing several items is writing the first, and then the others behind the longer slice.
filled_in-cons :
    (m : Memory) (s : Slice) (valid : IsSlice m s) (x : Bytes) (xs : List Bytes)
    → s.len < s.cap
    → filled_in (written m s valid x) (resized s (suc s.len)) xs ≡ filled_in m s (x ∷ xs)
unfolding write_from
filled_in-cons m s valid x xs room =
    let e : s.offset + suc s.len ≡ s.offset + s.len + 1 = omega arith in
    rw (array-written m s valid x room, set-set, e) refl

in_place :
    (xs : List Bytes) (m : Memory) (s : Slice) (n : ℕ)
    → IsSlice m s
    → n ≡ s.len + length xs
    → n ≤ s.cap
    → (contents (filled_in m s xs) (resized s n) ≡ contents m s ++ xs)
      × IsSlice (filled_in m s xs) (resized s n)
unfolding write_from
in_place [] m s n valid size fits =
    let e : n ≡ s.len = omega arith in rw (e, set-same, append-nil (contents m s)) (refl, valid)
in_place (x ∷ xs) m s n valid size fits =
    let room : s.len < s.cap = omega arith in
    let m1 = written m s valid x in
    let s1 = resized s (suc s.len) in
    let (held, sliced) =
      in_place xs m1 s1 n (written-IsSlice m s valid x room) (omega arith) fits in
    subst
      (λ (k : Memory).
        (contents k (resized s n) ≡ contents m s ++ x ∷ xs) × IsSlice k (resized s n))
      (filled_in-cons m s valid x xs room)
      (
        held
            ∙ ap (λ l. l ++ xs) (contents-written m s valid x room)
            ∙ append_assoc (contents m s) (x ∷ []) xs,
        sliced,
      )

-- A new array with room for `k` items more.
in_new :
    (xs : List Bytes) (m : Memory) (s : Slice) (k : ℕ)
    → IsSlice m s
    → let m' = m ++ (contents m s ++ (xs ++ replicate k [])) ∷ [] in
      let n = s.len + length xs in
      let s' : Slice = record { array = length m; offset = 0; len = n; cap = n + k } in
      (contents m' s' ≡ contents m s ++ xs) × IsSlice m' s'
in_new xs m s k valid =
    let held = contents m s ++ xs in
    let n : s.len + length xs ≡ length held =
      omega (arith, length-append (contents m s) xs, length-contents m s valid) in
    (
      rw (array_at-append, n, ← append_assoc (contents m s) xs (replicate k []))
          (take-append held (replicate k [])),
      record {
        filled = omega arith;
        within = rw array_at-append (
            omega (
              arith,
              length-append (contents m s) (xs ++ replicate k []),
              length-append xs (replicate {A = Bytes} k []),
              length-contents m s valid,
              length-replicate {A = Bytes} k [],
            ));
      },
    )

-- After `append(s, xs...)` the slice holds the items of `s` and then those of `xs`, and is a window of
-- its array.
pub append_items-many :
    (spare : ℕ → ℕ) (m : Memory) (s : Slice) (xs : List Bytes)
    → IsSlice m s
    → let (m', s') = append_items spare m s xs in
      (contents m' s' ≡ contents m s ++ xs) × IsSlice m' s'
unfolding append_items
append_items-many spare m s xs valid = elim (Bool-cases (leb (s.len + length xs) s.cap)) [
  | inl fits ↦ rw fits (in_place xs m s (s.len + length xs) valid refl (ground arith))
  | inr full ↦ rw full (in_new xs m s (spare (s.len + length xs)) valid)
]
