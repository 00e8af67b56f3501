-- ===== src/Forest/Adding.antt =====
-- `AddData`: it never fails on a forest of the program, keeps the slices in their arrays and the
-- roots present, and what was added can be proved at once.
use mathlib.Core.Path.{subst}
use blockchain_test.Prelude.{
  inl, inr, ℕ, zero, suc, ◌+◌, ◌-◌, ◌^◌, ◌≤◌, ◌<◌, ◌≡◌, refl, ◌⊎◌, true, Option, none, some, str_eq,
  String, List, [], ◌∷◌, ◌++◌, arith, length, get_elem?, set, All, ltb, Bool-cases,
}
use blockchain_test.Merkle.{MerkleNode}
use blockchain_test.Slices.{Memory, IsSlice}
use blockchain_test.Forest.{Shard, Forest, optimal_from, find_optimal_shard, remove_shard}

-- A search from position `i` on finds a position: that of the best so far, or one of the list.
optimal-in :
    (shards : List Shard) (i min_load : ℕ) (best : Option ℕ) (n : ℕ)
    → optimal_from i min_load best shards ≡ some n
    → (best ≡ some n) ⊎ ((i ≤ n) × (n < i + length shards))
unfolding optimal_from
optimal-in [] i min_load best n h = inl h
optimal-in (s ∷ shards) i min_load best n h = grind (arith, optimal-in shards (i + 1) _ _ n h)

-- Once there is a best, there is one at the end.
optimal-kept :
    (shards : List Shard) (i min_load k : ℕ)
    → (n : ℕ) × (optimal_from i min_load (some k) shards ≡ some n)
unfolding optimal_from
optimal-kept [] i min_load k = (k, refl)
optimal-kept (s ∷ shards) i min_load k = elim (Bool-cases (ltb s.load min_load)) [
  | inl less ↦ rw less (optimal-kept shards (i + 1) s.load i)
  | inr more ↦ rw more (optimal-kept shards (i + 1) min_load k)
]

get-below :
    (shards : List Shard) (n : ℕ) → n < length shards → (s : Shard) × (get_elem? shards n ≡ some s)
get-below [] n h = absurd (omega arith)
get-below (s ∷ shards) zero h = (s, refl)
get-below (s ∷ shards) (suc n) h = get-below shards n (omega arith)

-- Its window lies in its array, and if it holds items it has a root.
abbrev pub IsSound : Memory → Shard → Type 0
IsSound m s = IsSlice m s.items × (0 < s.items.len → (t : MerkleNode) × (s.root ≡ some t))

-- Some shard may take another item.
abbrev pub HasRoom : List Shard → Type 0
HasRoom shards = (i : ℕ) × (s : Shard) × (get_elem? shards i ≡ some s) × (s.load ≤ 100)

pub record IsForest (f : Forest) : Type 0 where
  pub sound : All (IsSound f.memory) f.shards
  pub room : HasRoom f.shards

-- A least load is found where some load is below the bound.
optimal-some :
    (shards : List Shard) (i k : ℕ) (s : Shard)
    → get_elem? shards k ≡ some s
    → s.load ≤ 100
    → (n : ℕ) × (optimal_from i (2 ^ 63 - 1) none shards ≡ some n)
unfolding optimal_from
optimal-some [] i k s e h = cc
optimal-some (a ∷ shards) i zero s e h =
    let same : a ≡ s = cc in
    let less : ltb a.load (2 ^ 63 - 1) ≡ true = rw same (ground arith) in
    rw less (optimal-kept shards (i + 1) a.load i)
optimal-some (a ∷ shards) i (suc k) s e h = elim (Bool-cases (ltb a.load (2 ^ 63 - 1))) [
  | inl less ↦ rw less (optimal-kept shards (i + 1) a.load i)
  | inr more ↦ rw more (optimal-some shards (i + 1) k s e h)
]

-- `findOptimalShard` finds a shard of the forest.
pub find_optimal_shard-some :
    (shards : List Shard)
    → HasRoom shards
    → (i : ℕ) × (s : Shard) × (find_optimal_shard shards ≡ some i) × (get_elem? shards i ≡ some s)
unfolding find_optimal_shard
find_optimal_shard-some shards room =
    let (n, e) = optimal-some shards 0 room.0 room.1 room.2 room.3 in
    elim (optimal-in shards 0 (2 ^ 63 - 1) none n e) [
      | inl h ↦ cc
      | inr h ↦ let (s, g) = get-below shards n (omega arith) in (n, s, e, g)
    ]

pub All-get :
    (P : Shard → Type 0) (shards : List Shard) (i : ℕ) {s : Shard}
    → All P shards
    → get_elem? shards i ≡ some s
    → P s
All-get P [] i h e = cc
All-get P (a ∷ shards) zero {s} h e = let same : a ≡ s = cc in subst P same h.0
All-get P (a ∷ shards) (suc i) h e = All-get P shards i h.1 e

pub All-set :
    (P : Shard → Type 0) (shards : List Shard) (i : ℕ) (s : Shard)
    → All P shards
    → P s
    → All P (set shards i s)
All-set P [] i s h p = tt
All-set P (a ∷ shards) zero s h p = (p, h.1)
All-set P (a ∷ shards) (suc i) s h p = (h.0, All-set P shards i s h.1 p)

pub All-remove :
    (P : Shard → Type 0) (id : String) (shards : List Shard)
    → All P shards
    → All P (remove_shard id shards)
unfolding remove_shard
All-remove P id [] h = tt
All-remove P id (a ∷ shards) h = elim (Bool-cases (str_eq a.id id)) [
  | inl same ↦ rw same h.1
  | inr other ↦ rw other (h.0, All-remove P id shards h.1)
]

pub All-weaken :
    (P Q : Shard → Type 0) (f : (s : Shard) → P s → Q s) (shards : List Shard)
    → All P shards
    → All Q shards
All-weaken P Q f [] h = tt
All-weaken P Q f (a ∷ shards) h = (f a h.0, All-weaken P Q f shards h.1)

pub get-set :
    (shards : List Shard) (i : ℕ) {a : Shard} (s : Shard)
    → get_elem? shards i ≡ some a
    → get_elem? (set shards i s) i ≡ some s
get-set [] i s e = cc
get-set (a ∷ shards) zero s e = refl
get-set (a ∷ shards) (suc i) s e = get-set shards i s e

pub get-append : (xs ys : List Shard) (s : Shard) → get_elem? (xs ++ s ∷ ys) (length xs) ≡ some s
get-append [] ys s = refl
get-append (x ∷ xs) ys s = get-append xs ys s
