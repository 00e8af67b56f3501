-- ===== src/Slices/Append.antt =====
-- `append` of one item: what the slice holds, and what a slice that shares its array holds.
use mathlib.Core.List.{append_assoc}
use native.Mathlib.Numerals.{add-one}
use blockchain_test.Prelude.{
  inl, inr, ℕ, zero, suc, ◌+◌, ◌-◌, ◌<◌, ◌≡◌, refl, true, List, [], ◌∷◌, ◌++◌, arith, length, set,
  take, drop, replicate, length-append, length-replicate, length-set, length-take, length-drop,
  take-append, leb, Bool-cases, take-set_end, drop-set_add, drop-set_self, drop-drop, drop_tail,
}
use blockchain_test.Prelude.Bytes.{Bytes}
use blockchain_test.Slices.{
  Memory, Slice, IsSlice, array_at, contents, slice_to, slice_from, append_items,
}

array_at-set : (m : Memory) (k : ℕ) (a : List Bytes) → k < length m → array_at (set m k a) k ≡ a
array_at-set [] k a h = absurd (omega arith)
array_at-set (b ∷ m) zero a h = refl
array_at-set (b ∷ m) (suc k) a h = array_at-set m k a (omega arith)

pub array_at-append : (m : Memory) (a : List Bytes) → array_at (m ++ a ∷ []) (length m) ≡ a
array_at-append [] a = refl
array_at-append (b ∷ m) a = array_at-append m a

-- An array with room is in memory.
in_memory : (m : Memory) (k : ℕ) → 0 < length (array_at m k) → k < length m
in_memory [] k h = absurd (omega arith)
in_memory (a ∷ m) zero h = omega arith
in_memory (a ∷ m) (suc k) h = omega (arith, in_memory m k h)

module _ (m : Memory) (s : Slice) (valid : IsSlice m s) where
  pub length-contents : length (contents m s) ≡ s.len
  length-contents = omega (
    arith,
    length-take s.len (drop s.offset (array_at m s.array)),
    length-drop s.offset (array_at m s.array),
    valid.filled,
    valid.within,
  )

  module _ (x : Bytes) where
    abbrev pub written : Memory
    written = set m s.array (set (array_at m s.array) (s.offset + s.len) x)

    pub array-written :
        s.len < s.cap → array_at written s.array ≡ set (array_at m s.array) (s.offset + s.len) x
    array-written room =
        array_at-set m s.array _ (in_memory m s.array (omega (arith, valid.within)))

    -- An append in place.
    pub contents-written :
        s.len < s.cap → contents written (record s { len = suc s.len }) ≡ contents m s ++ x ∷ []
    contents-written room =
        rw (array-written room, drop-set_add)
          (take-set_end (drop s.offset (array_at m s.array)) s.len x
            (omega (arith, length-drop s.offset (array_at m s.array), valid.within)))

    pub written-IsSlice : s.len < s.cap → IsSlice written (record s { len = suc s.len })
    written-IsSlice room = record {
      filled = omega arith;
      within =
          rw (array-written room)
            (omega (arith, length-set (array_at m s.array) (s.offset + s.len) x, valid.within));
    }

    -- An append into a new array with room for `k` items more.
    abbrev fresh : ℕ → Memory
    fresh k = m ++ (contents m s ++ (x ∷ replicate k [])) ∷ []

    abbrev fresh_slice : ℕ → Slice
    fresh_slice k = record { array = length m; offset = 0; len = suc s.len; cap = suc s.len + k }

    contents-fresh : (k : ℕ) → contents (fresh k) (fresh_slice k) ≡ contents m s ++ x ∷ []
    contents-fresh k =
        let held = contents m s ++ x ∷ [] in
        let n : suc s.len ≡ length held =
          omega (arith, length-append (contents m s) (x ∷ []), length-contents) in
        rw (array_at-append, n, ← append_assoc (contents m s) (x ∷ []) (replicate k []))
          (take-append held (replicate k []))

    fresh-IsSlice : (k : ℕ) → IsSlice (fresh k) (fresh_slice k)
    fresh-IsSlice k = record {
      filled = omega arith;
      within = rw array_at-append (
          omega (
            arith,
            length-append (contents m s) (x ∷ replicate k []),
            length-contents,
            length-replicate {A = Bytes} k [],
          ));
    }

    -- After `append(s, x)` the slice holds the items of `s` and `x`, and is a window of its array.
    pub append_items-one :
        (spare : ℕ → ℕ)
        → let (m', s') = append_items spare m s (x ∷ []) in
          (contents m' s' ≡ contents m s ++ x ∷ []) × IsSlice m' s'
    unfolding append_items
    append_items-one spare = elim (Bool-cases (leb (s.len + 1) s.cap)) [
      | inl fits ↦
          let room : s.len < s.cap = ground arith in
          rw (fits, add-one) (contents-written room, written-IsSlice room)
      | inr full ↦
          rw (full, add-one) (contents-fresh (spare (suc s.len)), fresh-IsSlice (spare (suc s.len)))
    ]

-- A write to the first item of a window.
front_replaced :
    (a : List Bytes) (o k : ℕ) (x : Bytes)
    → o < length a
    → 0 < k
    → take k (drop o (set a o x)) ≡ x ∷ drop 1 (take k (drop o a))
front_replaced a o zero x h p = absurd (omega arith)
front_replaced a o (suc k) x h p =
    rw (drop-set_self a o x h, ← drop_tail (drop o a) k, drop-drop a o 1, add-one)

-- The two halves of a slice share its array: an append to the left half, where it is not the whole,
-- puts the new item in the place of the first item of the right half.
pub append_items-overwrites :
    (spare : ℕ → ℕ) (m : Memory) (s : Slice) (n : ℕ) (x : Bytes)
    → IsSlice m s
    → n < s.len
    → let (m', left) = append_items spare m (slice_to n s) (x ∷ []) in
      (contents m' left ≡ contents m (slice_to n s) ++ x ∷ [])
      × (contents m' (slice_from n s) ≡ x ∷ drop 1 (contents m (slice_from n s)))
unfolding slice_to slice_from append_items
append_items-overwrites spare m s n x valid h =
    let half : IsSlice m (record s { len = n }) = record {
      filled = omega (arith, valid.filled);
      within = valid.within;
    } in
    let room : n < s.cap = omega (arith, valid.filled) in
    let fits : leb (n + 1) s.cap ≡ true = ground arith in
    rw (fits, add-one)
      (
        contents-written m (record s { len = n }) half x room,
        rw (array-written m (record s { len = n }) half x room) (
            front_replaced (array_at m s.array) (s.offset + n) (s.len - n) x (omega arith)
              (omega arith)),
      )
