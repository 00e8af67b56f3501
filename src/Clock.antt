-- ===== src/Clock.antt =====
-- `VectorClock` and `ConflictResolver` of Blockchain/cap_optimizer.go. A clock is a Go map; the order
-- of the list is the order in which `range` visits it.
pub mod Merging
pub mod Resolving
use blockchain_test.Prelude.{
  ℕ, zero, suc, ◌+◌, ◌-◌, ◌^◌, Bool, true, false, not, ◌&&◌, ◌||◌, Option, none, some, String, List,
  [], ◌∷◌, length, get_elem?, ◌==◌, if◌then◌else◌, Map, lookup, insert,
}
use blockchain_test.Prelude.Int.{ℤ, pos, add64, ltb_ℤ}
use blockchain_test.Outcome.{Result, ok, panic, index_out_of_range}

abbrev pub VectorClock : Type 0
VectorClock = Map ℤ

-- `vc[k]`, zero where the key is missing.
abbrev pub or_zero : Option ℤ → ℤ
or_zero none = pos 0
or_zero (some v) = v

abbrev pub time_of : String → VectorClock → ℤ
time_of k vc = or_zero (lookup k vc)

unfoldable pub increment : String → VectorClock → VectorClock
increment node vc = insert node (add64 (time_of node vc) (pos 1)) vc

-- The second loop of `Merge`, over the entries of the other clock.
unfoldable pub raise : VectorClock → VectorClock → VectorClock
raise result [] = result
raise result ((k, v) ∷ other) =
    raise (if ltb_ℤ (time_of k result) v then insert k v result else result) other

-- The first loop copies `vc`, which leaves `vc` itself unchanged by the second.
unfoldable pub merge : VectorClock → VectorClock → VectorClock
unfolding raise
merge vc other = raise vc other

unfoldable pub sum_from : ℤ → VectorClock → ℤ
sum_from sum [] = sum
sum_from sum ((k, v) ∷ vc) = sum_from (add64 sum v) vc

unfoldable pub entropy : VectorClock → ℤ
unfolding sum_from
entropy vc = sum_from (pos 0) vc

-- No entry of the other clock is above this one.
unfoldable pub dominates : VectorClock → VectorClock → Bool
dominates vc [] = true
dominates vc ((k, v) ∷ other) = not (ltb_ℤ (time_of k vc) v) && dominates vc other

-- Clock `i` dominates every other, the clocks counted from `j` on.
unfoldable pub dominates_others : ℕ → ℕ → VectorClock → List VectorClock → Bool
dominates_others i j vc [] = true
dominates_others i j vc (c ∷ clocks) =
    (i == j || dominates vc c) && dominates_others i (j + 1) vc clocks

-- The first position from `i` on whose clock dominates all the others.
unfoldable pub dominant_from : List VectorClock → ℕ → List VectorClock → Option ℕ
dominant_from clocks i [] = none
dominant_from clocks i (c ∷ rest) =
    let later = dominant_from clocks (i + 1) rest in
    if dominates_others i 0 c clocks then some i else later

-- The first position with the least entropy below `least`, or else `chosen`.
unfoldable pub calmest_from : ℕ → ℤ → ℕ → List VectorClock → ℕ
calmest_from i least chosen [] = chosen
calmest_from i least chosen (c ∷ clocks) =
    calmest_from (i + 1) (if ltb_ℤ (entropy c) least then entropy c else least)
      (if ltb_ℤ (entropy c) least then i else chosen) clocks

-- `values[i]`
abbrev pub value_at : Option String → Result String
value_at none = panic index_out_of_range
value_at (some v) = ok v

abbrev pub chosen_index : List VectorClock → Option ℕ → ℕ
chosen_index clocks (some i) = i
chosen_index clocks none = calmest_from 0 (pos (2 ^ 63 - 1)) 0 clocks

unfoldable pub resolve_conflicts : List String → List VectorClock → Result String
unfolding dominant_from dominates_others dominates calmest_from entropy sum_from
resolve_conflicts [] clocks = ok ""
resolve_conflicts (v ∷ values) [] = ok ""
resolve_conflicts (v ∷ []) (c ∷ clocks) = ok v
resolve_conflicts (v ∷ w ∷ values) (c ∷ clocks) = value_at (
    get_elem? (v ∷ w ∷ values)
      (chosen_index (c ∷ clocks) (dominant_from (c ∷ clocks) 0 (c ∷ clocks))))
