-- ===== src/Tests/Clocks.antt =====
-- Vector clocks of two nodes.
use blockchain_test.Prelude.{
  ◌≡◌, refl, ◌⊎◌, true, some, String, [], ◌∷◌, arith, get_elem?, ℕ, lookup,
}
use blockchain_test.Prelude.Int.{pos, ◌≤ℤ◌}
use blockchain_test.Outcome.{ok}
use blockchain_test.Clock.{VectorClock, time_of, merge, dominates, resolve_conflicts}
use blockchain_test.Clock.Merging.{merge-least_upper_bound}
use blockchain_test.Clock.Resolving.{IsDominant, IsCalmest, resolve_conflicts-chosen}

abbrev ahead : VectorClock
ahead = ("ann", pos 2) ∷ ("bob", pos 1) ∷ []

abbrev behind : VectorClock
behind = ("ann", pos 1) ∷ []

merge-least_upper_bound_example :
    ((k : String) → time_of k behind ≤ℤ time_of k (merge behind ahead))
    × (dominates (merge behind ahead) ahead ≡ true)
    × ((c : VectorClock)
        → ((k : String) → time_of k behind ≤ℤ time_of k c)
        → dominates c ahead ≡ true
        → (k : String) → time_of k (merge behind ahead) ≤ℤ time_of k c)
merge-least_upper_bound_example = merge-least_upper_bound behind ahead

resolve_conflicts-chosen_example :
    (i : ℕ) × (v : String) × (get_elem? ("old" ∷ "new" ∷ []) i ≡ some v)
    × (resolve_conflicts ("old" ∷ "new" ∷ []) (behind ∷ ahead ∷ []) ≡ ok v)
    × (IsDominant (behind ∷ ahead ∷ []) i
        ⊎ (((j : ℕ) → ¬ IsDominant (behind ∷ ahead ∷ []) j) × IsCalmest (behind ∷ ahead ∷ []) i))
resolve_conflicts-chosen_example =
    resolve_conflicts-chosen ("old" ∷ "new" ∷ []) (behind ∷ ahead ∷ []) (omega arith) refl

resolve_new : resolve_conflicts ("old" ∷ "new" ∷ []) (behind ∷ ahead ∷ []) ≡ ok "new"
unfolding resolve_conflicts lookup
resolve_new = refl
