-- ===== src/Merkle/Shape.antt =====
-- What `buildMerkleTree` builds: the loop ends with one node, its leaves are the data in order, and
-- every hash in it is computed from the parts below.
use mathlib.Core.List.{append_assoc, append-nil, head?}
use mathlib.Core.Path.{subst}
use blockchain_test.Prelude.{
  ℕ, zero, suc, ◌+◌, ◌/◌, ◌≤◌, ◌≡◌, refl, sym, ap, ◌∙◌, some, List, [], ◌∷◌, ◌++◌, map, arith,
  length, length-map, All,
}
use blockchain_test.Prelude.Bytes.{Bytes}
use blockchain_test.Merkle.{
  MerkleNode, leaf, branch, node_hash, merkle_level, merkle_loop, item_leaf, build_merkle_tree,
}

-- The data at the leaves, from left to right.
abbrev pub leaf_items : MerkleNode → List Bytes
leaf_items (leaf h d) = d ∷ []
leaf_items (branch h l r) = leaf_items l ++ leaf_items r

abbrev pub all_items : List MerkleNode → List Bytes
all_items [] = []
all_items (t ∷ ts) = leaf_items t ++ all_items ts

module _ (sha256 : Bytes → Bytes) where
  -- A branch's hash is that of its children's hashes joined.
  abbrev pub IsJoined : MerkleNode → Type 0
  IsJoined (leaf h d) = Unit
  IsJoined (branch h l r) = (h ≡ sha256 (node_hash l ++ node_hash r)) × IsJoined l × IsJoined r

  -- A leaf's hash is that of its data.
  abbrev pub HasHashedLeaves : MerkleNode → Type 0
  HasHashedLeaves (leaf h d) = h ≡ sha256 d
  HasHashedLeaves (branch h l r) = HasHashedLeaves l × HasHashedLeaves r

  pub length-level : (ns : List MerkleNode) → length (merkle_level sha256 ns) ≡ (length ns + 1) / 2
  unfolding merkle_level
  length-level [] = omega arith
  length-level (a ∷ []) = omega arith
  length-level (a ∷ b ∷ ns) = omega (arith, length-level ns)

  -- Fuel for as many rounds as there are nodes ends the loop by its test.
  pub length-loop :
      (f : ℕ) (ns : List MerkleNode) → length ns ≤ f → length (merkle_loop sha256 f ns) ≤ 1
  unfolding merkle_loop
  length-loop zero ns h = omega arith
  length-loop (suc f) [] h = omega arith
  length-loop (suc f) (a ∷ []) h = omega arith
  length-loop (suc f) (a ∷ b ∷ ns) h =
      length-loop f (merkle_level sha256 (a ∷ b ∷ ns)) (omega (arith, length-level (a ∷ b ∷ ns)))

  items-level : (ns : List MerkleNode) → all_items (merkle_level sha256 ns) ≡ all_items ns
  unfolding merkle_level
  items-level [] = refl
  items-level (a ∷ []) = refl
  items-level (a ∷ b ∷ ns) =
      rw (items-level ns) (append_assoc (leaf_items a) (leaf_items b) (all_items ns))

  pub items-loop :
      (f : ℕ) (ns : List MerkleNode) → all_items (merkle_loop sha256 f ns) ≡ all_items ns
  unfolding merkle_loop
  items-loop zero ns = refl
  items-loop (suc f) [] = refl
  items-loop (suc f) (a ∷ []) = refl
  items-loop (suc f) (a ∷ b ∷ ns) =
      items-loop f (merkle_level sha256 (a ∷ b ∷ ns)) ∙ items-level (a ∷ b ∷ ns)

  -- A property that joining two nodes keeps holds of every node that the loop leaves.
  module _ (P : MerkleNode → Type 0)
      (join : (a b : MerkleNode)
        → P a
        → P b
        → P (branch (sha256 (node_hash a ++ node_hash b)) a b)) where
    pub All-level : (ns : List MerkleNode) → All P ns → All P (merkle_level sha256 ns)
    unfolding merkle_level
    All-level [] h = h
    All-level (a ∷ []) h = h
    All-level (a ∷ b ∷ ns) h = (join a b h.0 h.1.0, All-level ns h.1.1)

    pub All-loop : (f : ℕ) (ns : List MerkleNode) → All P ns → All P (merkle_loop sha256 f ns)
    unfolding merkle_loop
    All-loop zero ns h = h
    All-loop (suc f) [] h = h
    All-loop (suc f) (a ∷ []) h = h
    All-loop (suc f) (a ∷ b ∷ ns) h =
        All-loop f (merkle_level sha256 (a ∷ b ∷ ns)) (All-level (a ∷ b ∷ ns) h)

  all_items-leaves : (items : List Bytes) → all_items (map (item_leaf sha256) items) ≡ items
  all_items-leaves [] = refl
  all_items-leaves (x ∷ xs) = ap (λ t. x ∷ t) (all_items-leaves xs)

  All-leaves :
      (P : MerkleNode → Type 0) (leaf_case : (x : Bytes) → P (item_leaf sha256 x))
      (items : List Bytes)
      → All P (map (item_leaf sha256) items)
  All-leaves P leaf_case [] = tt
  All-leaves P leaf_case (x ∷ xs) = (leaf_case x, All-leaves P leaf_case xs)

  -- A list of at most one node, with the data that it holds.
  single :
      (ns : List MerkleNode) (x : Bytes) (items : List Bytes)
      → length ns ≤ 1
      → all_items ns ≡ x ∷ items
      → (t : MerkleNode) × (ns ≡ t ∷ []) × (leaf_items t ≡ x ∷ items)
  single [] x items h e = cc
  single (t ∷ []) x items h e = (t, refl, sym (append-nil (leaf_items t)) ∙ e)
  single (t ∷ u ∷ ns) x items h e = absurd (omega arith)

  -- For data that is not empty, `buildMerkleTree` returns a tree: its leaves are the data in order,
  -- each leaf has the hash of its data, and each branch the hash of its children's hashes.
  pub build_merkle_tree-leaves :
      (x : Bytes) (items : List Bytes)
      → (t : MerkleNode) × (build_merkle_tree sha256 (x ∷ items) ≡ some t)
        × (leaf_items t ≡ x ∷ items)
        × HasHashedLeaves t
        × IsJoined t
  unfolding build_merkle_tree
  build_merkle_tree-leaves x items =
      let leaves = map (item_leaf sha256) (x ∷ items) in
      let n = length (x ∷ items) in
      let (t, e, held) =
        single (merkle_loop sha256 n leaves) x items
          (length-loop n leaves (omega (arith, length-map (item_leaf sha256) (x ∷ items))))
          (items-loop n leaves ∙ all_items-leaves (x ∷ items)) in
      let hashed =
        All-loop HasHashedLeaves (λ a b p q. (p, q)) n leaves
          (All-leaves HasHashedLeaves (λ y. refl) (x ∷ items)) in
      let joined =
        All-loop IsJoined (λ a b p q. (refl, p, q)) n leaves
          (All-leaves IsJoined (λ y. tt) (x ∷ items)) in
      (
        t,
        ap head? e,
        held,
        (subst (All HasHashedLeaves) e hashed).0,
        (subst (All IsJoined) e joined).0,
      )
