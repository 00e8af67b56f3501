-- ===== src/Clock/Resolving.antt =====
-- `ResolveConflicts`: a version that follows all others if there is one, else one of least entropy.
use blockchain_test.Prelude.{
  inl, inr, ℕ, zero, suc, ◌+◌, ◌-◌, ◌^◌, ◌≤◌, ◌<◌, ◌≡◌, ◌≢◌, ◌⊎◌, refl, sym, ap, ◌∙◌, none, some,
  true, false, String, List, [], ◌∷◌, arith, length, get_elem?, ◌==◌, Bool-cases, Option-cases,
}
use blockchain_test.Prelude.Int.{ℤ, pos, ltb_ℤ, add64, wrap64-IsInt64, IsInt64, ◌≤ℤ◌}
use blockchain_test.Outcome.{ok}
use blockchain_test.Clock.{
  VectorClock, sum_from, entropy, dominates, dominates_others, dominant_from, calmest_from,
  resolve_conflicts,
}

-- Clock `i` dominates the clocks at all other positions.
abbrev pub IsDominant : List VectorClock → ℕ → Type 0
IsDominant clocks i =
    (c : VectorClock) × (get_elem? clocks i ≡ some c)
    × ((j : ℕ) (d : VectorClock) → get_elem? clocks j ≡ some d → i ≢ j → dominates c d ≡ true)

-- The entropy of clock `i` is the least.
abbrev pub IsCalmest : List VectorClock → ℕ → Type 0
IsCalmest clocks i =
    (c : VectorClock) × (get_elem? clocks i ≡ some c)
    × ((j : ℕ) (d : VectorClock) → get_elem? clocks j ≡ some d → entropy c ≤ℤ entropy d)

le_or_lt : (n j : ℕ) → (n ≤ j) ⊎ (j < n)
le_or_lt n j = ground arith

eq_or_later : (n j : ℕ) → n ≤ j → (n ≡ j) ⊎ (n + 1 ≤ j)
eq_or_later n j h = ground arith

-- The list is what remains of the clocks from position `n` on.
abbrev IsTail : List VectorClock → ℕ → List VectorClock → Type 0
IsTail clocks n rest = (j : ℕ) → get_elem? rest j ≡ get_elem? clocks (n + j)

whole : (clocks : List VectorClock) → IsTail clocks 0 clocks
whole clocks j = ap (get_elem? clocks) (omega arith)

tail_head :
    (clocks : List VectorClock) (n : ℕ) (a : VectorClock) (rest : List VectorClock)
    → IsTail clocks n (a ∷ rest)
    → get_elem? clocks n ≡ some a
tail_head clocks n a rest at = sym (at 0 ∙ ap (get_elem? clocks) (omega arith))

IsTail-next :
    (clocks : List VectorClock) (n : ℕ) (a : VectorClock) (rest : List VectorClock)
    → IsTail clocks n (a ∷ rest)
    → IsTail clocks (n + 1) rest
IsTail-next clocks n a rest at j = at (suc j) ∙ ap (get_elem? clocks) (omega arith)

tail_end :
    (clocks : List VectorClock) (n j : ℕ) (d : VectorClock)
    → IsTail clocks n []
    → get_elem? clocks j ≡ some d
    → j < n
tail_end clocks n j d at e = elim (le_or_lt n j) [
  | inl le ↦
      let gone : none ≡ get_elem? clocks j = at (j - n) ∙ ap (get_elem? clocks) (omega arith) in
      absurd cc
  | inr lt ↦ lt
]

dominates_others-all :
    (i n : ℕ) (c : VectorClock) (clocks : List VectorClock)
    → dominates_others i n c clocks ≡ true
    → (j : ℕ) (d : VectorClock) → get_elem? clocks j ≡ some d
    → i ≢ (n + j)
    → dominates c d ≡ true
unfolding dominates_others
dominates_others-all i n c [] h j d e ne = cc
dominates_others-all i n c (a ∷ clocks) h zero d e ne =
    let same : a ≡ d = cc in
    let apart : (i == n) ≡ false = ground arith in
    let above : dominates c a ≡ true = ground arith in ap (dominates c) (sym same) ∙ above
dominates_others-all i n c (a ∷ clocks) h (suc j) d e ne =
    dominates_others-all i (n + 1) c clocks (ground arith) j d e (λ q. ne (omega arith))

dominant_from-IsDominant :
    (clocks rest : List VectorClock) (n i : ℕ)
    → dominant_from clocks n rest ≡ some i
    → IsTail clocks n rest
    → IsDominant clocks i
unfolding dominant_from
dominant_from-IsDominant clocks [] n i h at = cc
dominant_from-IsDominant clocks (c ∷ rest) n i h at =
    elim (Bool-cases (dominates_others n 0 c clocks)) [
      | inl all ↦
          let here : n ≡ i = cc (rw all at h) in
          (
            c,
            sym (ap (get_elem? clocks) here) ∙ tail_head clocks n c rest at,
            λ j d e ne. dominates_others-all n 0 c clocks all j d e (λ q. ne (omega (arith, here))),
          )
      | inr other ↦
          dominant_from-IsDominant clocks rest (n + 1) i (rw other at h)
            (IsTail-next clocks n c rest at)
    ]

all-dominates_others :
    (i n : ℕ) (c : VectorClock) (clocks : List VectorClock)
    → ((j : ℕ) (d : VectorClock) → get_elem? clocks j ≡ some d → i ≢ (n + j) → dominates c d ≡ true)
    → dominates_others i n c clocks ≡ true
unfolding dominates_others
all-dominates_others i n c [] h = refl
all-dominates_others i n c (a ∷ clocks) h =
    let later : dominates_others i (n + 1) c clocks ≡ true =
      all-dominates_others i (n + 1) c clocks (λ j d e ne. h (suc j) d e (λ q. ne (omega arith))) in
    elim (Bool-cases (i == n)) [
      | inl same ↦ rw (same, later) refl
      | inr apart ↦
          let above : dominates c a ≡ true = h 0 a refl (λ q. ground arith) in
          rw (apart, above, later) refl
    ]

-- Where the search ends without a position, no clock dominates all the others.
dominant_from-none :
    (clocks rest : List VectorClock) (n : ℕ)
    → dominant_from clocks n rest ≡ none
    → IsTail clocks n rest
    → (j : ℕ) → n ≤ j
    → ¬ IsDominant clocks j
unfolding dominant_from
dominant_from-none clocks [] n h at j le (c, e, all) =
    absurd (omega (arith, tail_end clocks n j c at e))
dominant_from-none clocks (a ∷ rest) n h at j le (c, e, all) =
    elim (Bool-cases (dominates_others n 0 a clocks)) [
      | inl first ↦ absurd (cc (rw first at h))
      | inr other ↦ elim (eq_or_later n j le) [
        | inl here ↦
            let same : a ≡ c = cc (tail_head clocks n a rest at, ap (get_elem? clocks) here) in
            let yes_all =
              all-dominates_others n 0 a clocks
                (λ i d f ne. ap (λ z. dominates z d) same ∙ all i d f (λ q. ne (omega arith))) in
            absurd cc
        | inr later ↦
            dominant_from-none clocks rest (n + 1) (rw other at h) (IsTail-next clocks n a rest at)
              j later (c, e, all)
      ]
    ]

sum_from-IsInt64 : (vc : VectorClock) (sum : ℤ) → IsInt64 sum → IsInt64 (sum_from sum vc)
unfolding sum_from add64
sum_from-IsInt64 [] sum h = h
sum_from-IsInt64 ((k, v) ∷ vc) sum h = sum_from-IsInt64 vc (add64 sum v) (wrap64-IsInt64 _)

entropy-IsInt64 : (vc : VectorClock) → IsInt64 (entropy vc)
unfolding entropy
entropy-IsInt64 vc = sum_from-IsInt64 vc (pos 0) (omega arith, omega arith)

calmest_from-IsCalmest :
    (clocks rest : List VectorClock) (n : ℕ) (least : ℤ) (i : ℕ) (c : VectorClock)
    → IsTail clocks n rest
    → get_elem? clocks i ≡ some c
    → entropy c ≤ℤ least
    → ((j : ℕ) (d : VectorClock) → get_elem? clocks j ≡ some d → j < n → least ≤ℤ entropy d)
    → IsCalmest clocks (calmest_from n least i rest)
unfolding calmest_from
calmest_from-IsCalmest clocks [] n least i c at e low all =
    (c, e, λ j d f. omega (arith, low, all j d f (tail_end clocks n j d at f)))
calmest_from-IsCalmest clocks (a ∷ rest) n least i c at e low all =
    let next = IsTail-next clocks n a rest at in
    let here = tail_head clocks n a rest at in
    elim (Bool-cases (ltb_ℤ (entropy a) least)) [
      | inl less ↦ rw less (
          calmest_from-IsCalmest clocks rest (n + 1) (entropy a) n a next here (omega arith)
            (λ j d f lt. elim (eq_or_later j n (omega arith)) [
              | inl same ↦
                  let q : entropy a ≡ entropy d =
                    ap entropy (cc (here, f, ap (get_elem? clocks) same)) in
                  ground (arith, q)
              | inr before ↦ ground (arith, all j d f (omega arith))
            ]))
      | inr more ↦ rw more (
          calmest_from-IsCalmest clocks rest (n + 1) least i c next e low (λ j d f lt.
            elim (eq_or_later j n (omega arith)) [
              | inl same ↦
                  let q : entropy a ≡ entropy d =
                    ap entropy (cc (here, f, ap (get_elem? clocks) same)) in
                  ground (arith, q)
              | inr before ↦ ground (arith, all j d f (omega arith))
            ]))
    ]

get-value :
    (values : List String) (clocks : List VectorClock) (i : ℕ) (c : VectorClock)
    → length values ≡ length clocks
    → get_elem? clocks i ≡ some c
    → (v : String) × (get_elem? values i ≡ some v)
get-value [] (d ∷ clocks) i c h e = absurd (omega arith)
get-value (v ∷ values) [] i c h e = absurd (omega arith)
get-value [] [] i c h e = cc
get-value (v ∷ values) (d ∷ clocks) zero c h e = (v, refl)
get-value (v ∷ values) (d ∷ clocks) (suc i) c h e = get-value values clocks i c (omega arith) e

-- Given at least two values and as many clocks, `ResolveConflicts` returns the value at a position
-- whose clock dominates all the others; or, where no clock does, the value at a position whose
-- clock has the least entropy.
pub resolve_conflicts-chosen :
    (values : List String) (clocks : List VectorClock)
    → 2 ≤ length values
    → length values ≡ length clocks
    → (i : ℕ) × (v : String) × (get_elem? values i ≡ some v)
      × (resolve_conflicts values clocks ≡ ok v)
      × (IsDominant clocks i ⊎ (((j : ℕ) → ¬ IsDominant clocks j) × IsCalmest clocks i))
unfolding resolve_conflicts
resolve_conflicts-chosen [] clocks two h = absurd (omega arith)
resolve_conflicts-chosen (v ∷ []) clocks two h = absurd (omega arith)
resolve_conflicts-chosen (v ∷ w ∷ values) [] two h = absurd (omega arith)
resolve_conflicts-chosen (v ∷ w ∷ values) (c ∷ clocks) two h =
    let all = c ∷ clocks in
    elim (Option-cases (dominant_from all 0 all)) [
      | inl none_found ↦
          let calmest =
            calmest_from-IsCalmest all all 0 (pos (2 ^ 63 - 1)) 0 c (whole all) refl
              (ground (arith, entropy-IsInt64 c)) (λ j d f lt. absurd (omega arith)) in
          let i = calmest_from 0 (pos (2 ^ 63 - 1)) 0 all in
          let (x, at) = get-value (v ∷ w ∷ values) all i calmest.0 h calmest.1 in
          (
            i,
            x,
            at,
            rw (none_found, at) refl,
            inr (
              (λ j. dominant_from-none all all 0 none_found (whole all) j (omega arith)),
              calmest,
            ),
          )
      | inr (i, found) ↦
          let dominant = dominant_from-IsDominant all all 0 i found (whole all) in
          let (x, at) = get-value (v ∷ w ∷ values) all i dominant.0 h dominant.1 in
          (i, x, at, rw (found, at) refl, inl dominant)
    ]
