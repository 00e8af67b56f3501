-- ===== src/Clock/Merging.antt =====
-- `Merge` is the least upper bound of two clocks.
use blockchain_test.Prelude.{
  inl, inr, ◌≡◌, refl, ap, ◌∙◌, Option, some, Bool, true, false, not, String, [], ◌∷◌, arith,
  if◌then◌else◌, Bool-cases, str_eq, lookup-insert,
}
use text.Mathlib.TextEquality.{eq_iff}
use blockchain_test.Prelude.Int.{ℤ, ltb_ℤ, ◌≤ℤ◌}
use blockchain_test.Prelude.{lookup, insert}
use blockchain_test.Clock.{VectorClock, time_of, or_zero, raise, merge, dominates}

or_zero-if :
    (b : Bool) (v : ℤ) (o : Option ℤ)
    → or_zero (if b then some v else o) ≡ (if b then v else or_zero o)
or_zero-if true v o = refl
or_zero-if false v o = refl

time_of-insert :
    (k j : String) (v : ℤ) (m : VectorClock)
    → time_of j (insert k v m) ≡ (if str_eq k j then v else time_of j m)
time_of-insert k j v m = ap or_zero (lookup-insert k j v m) ∙ or_zero-if (str_eq k j) v (lookup j m)

-- One step of the loop.
abbrev raised : String → ℤ → VectorClock → VectorClock
raised k v m = if ltb_ℤ (time_of k m) v then insert k v m else m

raised-above : (k j : String) (v : ℤ) (m : VectorClock) → time_of j m ≤ℤ time_of j (raised k v m)
raised-above k j v m = elim (Bool-cases (ltb_ℤ (time_of k m) v)) [
  | inl less ↦ rw (less, time_of-insert k j v m) (ground (arith, eq_iff k j))
  | inr more ↦ rw more (omega arith)
]

raised-holds : (k : String) (v : ℤ) (m : VectorClock) → v ≤ℤ time_of k (raised k v m)
raised-holds k v m = elim (Bool-cases (ltb_ℤ (time_of k m) v)) [
  | inl less ↦ rw (less, time_of-insert k k v m) (ground (arith, eq_iff k k))
  | inr more ↦ rw more (ground arith)
]

raised-least :
    (k j : String) (v : ℤ) (m c : VectorClock)
    → v ≤ℤ time_of k c
    → time_of j m ≤ℤ time_of j c
    → time_of j (raised k v m) ≤ℤ time_of j c
raised-least k j v m c h g = elim (Bool-cases (ltb_ℤ (time_of k m) v)) [
  | inl less ↦ rw (less, time_of-insert k j v m) (ground (arith, eq_iff k j))
  | inr more ↦ rw more g
]

raise-above : (other m : VectorClock) (k : String) → time_of k m ≤ℤ time_of k (raise m other)
unfolding raise
raise-above [] m k = omega arith
raise-above ((j, v) ∷ other) m k =
    omega (arith, raise-above other (raised j v m) k, raised-above j k v m)

not_less : (a b : ℤ) → b ≤ℤ a → not (ltb_ℤ a b) ≡ true
not_less a b h = ground arith

raise-holds : (other m : VectorClock) → dominates (raise m other) other ≡ true
unfolding raise dominates
raise-holds [] m = refl
raise-holds ((j, v) ∷ other) m =
    rw
      (
        not_less (time_of j (raise (raised j v m) other)) v
            (omega (arith, raise-above other (raised j v m) j, raised-holds j v m)),
        raise-holds other (raised j v m),
      )
      refl

raise-least :
    (other m c : VectorClock)
    → ((k : String) → time_of k m ≤ℤ time_of k c)
    → dominates c other ≡ true
    → (k : String) → time_of k (raise m other) ≤ℤ time_of k c
unfolding raise dominates
raise-least [] m c above d k = above k
raise-least ((j, v) ∷ other) m c above d k =
    let low : v ≤ℤ time_of j c = ground arith in
    let rest : dominates c other ≡ true = ground arith in
    raise-least other (raised j v m) c (λ i. raised-least j i v m c low (above i)) rest k

-- `Merge` is the least upper bound of the two clocks: it is at least the first clock at every node and
-- dominates the second; and a clock that is at least the first at every node and dominates the
-- second is at least the merged clock at every node.
pub merge-least_upper_bound :
    (a b : VectorClock)
    → ((k : String) → time_of k a ≤ℤ time_of k (merge a b))
      × (dominates (merge a b) b ≡ true)
      × ((c : VectorClock)
          → ((k : String) → time_of k a ≤ℤ time_of k c)
          → dominates c b ≡ true
          → (k : String) → time_of k (merge a b) ≤ℤ time_of k c)
unfolding merge
merge-least_upper_bound a b = (raise-above b a, raise-holds b a, λ c. raise-least b a c)
