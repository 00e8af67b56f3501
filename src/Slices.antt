-- ===== src/Slices.antt =====
-- Go slices of byte strings (`[][]byte`): a window into an array in memory, which other slices may
-- share. `append` writes into the array where the capacity allows it.
pub mod Append
pub mod Halves
pub mod Many
use blockchain_test.Prelude.{
  ℕ, zero, suc, ◌+◌, ◌-◌, ◌≤◌, List, [], ◌∷◌, ◌++◌, length, set, take, drop, replicate, ltb, leb,
  if◌then◌else◌,
}
use blockchain_test.Prelude.Bytes.{Bytes}

abbrev pub Memory : Type 0
Memory = List (List Bytes)

pub record Slice : Type 0 where
  pub array : ℕ
  pub offset : ℕ
  pub len : ℕ
  pub cap : ℕ

abbrev pub array_at : Memory → ℕ → List Bytes
array_at [] k = []
array_at (a ∷ m) zero = a
array_at (a ∷ m) (suc k) = array_at m k

abbrev pub contents : Memory → Slice → List Bytes
contents m s = take s.len (drop s.offset (array_at m s.array))

-- The window lies in its array.
pub record IsSlice (m : Memory) (s : Slice) : Type 0 where
  pub filled : s.len ≤ s.cap
  pub within : s.offset + s.cap ≤ length (array_at m s.array)

-- `s[:n]` and `s[n:]`
unfoldable pub slice_to : ℕ → Slice → Slice
slice_to n s = record s { len = n }

unfoldable pub slice_from : ℕ → Slice → Slice
slice_from n s = record s { offset = s.offset + n; len = s.len - n; cap = s.cap - n }

-- Writes the items one after the other from a position on.
unfoldable pub write_from : List Bytes → ℕ → List Bytes → List Bytes
write_from a i [] = a
write_from a i (x ∷ xs) = write_from (set a i x) (i + 1) xs

-- `append(s, xs...)`. Where the array is full, a new one is made; `spare n` is the room beyond `n`
-- items that the runtime gives it.
unfoldable pub append_items : (ℕ → ℕ) → Memory → Slice → List Bytes → Memory × Slice
unfolding write_from
append_items spare m s xs =
    let n = s.len + length xs in
    if leb n s.cap
    then (
      set m s.array (write_from (array_at m s.array) (s.offset + s.len) xs),
      record s { len = n },
    )
    else (
      m ++ (contents m s ++ (xs ++ replicate (spare n) [])) ∷ [],
      record { array = length m; offset = 0; len = n; cap = n + spare n },
    )
