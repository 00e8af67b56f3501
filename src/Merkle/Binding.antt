-- ===== src/Merkle/Binding.antt =====
-- Roots commit to the data: two lists of the same length with the same root are equal, or a
-- collision of the hash function is at hand.
use blockchain_test.Prelude.{
  ℕ, zero, suc, ◌+◌, ◌/◌, ◌≤◌, ◌≡◌, refl, sym, ap, ◌∙◌, ◌≢◌, ◌⊎◌, inl, inr, some, List, [], ◌∷◌,
  ◌++◌, map, arith, length, length-map, All, Bool-cases,
}
use blockchain_test.Prelude.Bytes.{Bytes, bytes_equal, bytes_equal-eq, bytes_equal_refl}
use mathlib.Core.List.{head?}
use blockchain_test.Merkle.Shape.{length-level, length-loop, All-level}
use blockchain_test.Merkle.{
  MerkleNode, node_hash, merkle_level, merkle_loop, item_leaf, build_merkle_tree,
}

pub append_inj :
    (a b : Bytes) {c d : Bytes} → length a ≡ length b → a ++ c ≡ b ++ d → (a ≡ b) × (c ≡ d)
append_inj [] [] l e = (refl, e)
append_inj [] (y ∷ b) l e = absurd (omega arith)
append_inj (x ∷ a) [] l e = absurd (omega arith)
append_inj (x ∷ a) (y ∷ b) {c} {d} l e =
    let tails : a ++ c ≡ b ++ d = cc in
    let rest = append_inj a b {c = c} {d = d} (omega arith) tails in
    let heads : x ≡ y = cc in (cc (heads, rest.0), rest.1)

-- Two facts that may each fail by `C`.
both : {A B C D : Type 0} → A ⊎ C → B ⊎ C → (A → B → D) → D ⊎ C
both (inr c) q f = inr c
both (inl a) (inr c) f = inr c
both (inl a) (inl b) f = inl (f a b)

module _ (sha256 : Bytes → Bytes) where
  -- Two different inputs with one hash.
  pub record Collision : Type 0 where
    pub left : Bytes
    pub right : Bytes
    pub differ : left ≢ right
    pub same : sha256 left ≡ sha256 right

  -- Equal hashes come from equal inputs, unless they are a collision.
  pub equal_or_collision : (a b : Bytes) → sha256 a ≡ sha256 b → (a ≡ b) ⊎ Collision
  equal_or_collision a b e = elim (Bool-cases (bytes_equal a b)) [
    | inl same ↦ inl (bytes_equal-eq a b same)
    | inr differ ↦ inr (record {
      left = a;
      right = b;
      differ = λ p. cc (differ, bytes_equal_refl b, ap (λ t. bytes_equal t b) p);
      same = e;
    })
  ]

  module _ (sized : (b : Bytes) → length (sha256 b) ≡ 32) where
    abbrev Wide : MerkleNode → Type 0
    Wide t = length (node_hash t) ≡ 32

    hashes-level :
        (ns ms : List MerkleNode)
        → length ns ≡ length ms
        → All Wide ns
        → All Wide ms
        → map node_hash (merkle_level sha256 ns) ≡ map node_hash (merkle_level sha256 ms)
        → (map node_hash ns ≡ map node_hash ms) ⊎ Collision
    unfolding merkle_level
    hashes-level [] [] l p q e = inl refl
    hashes-level [] (b ∷ ms) l p q e = absurd (omega arith)
    hashes-level (a ∷ ns) [] l p q e = absurd (omega arith)
    hashes-level (a ∷ []) (b ∷ []) l p q e = inl e
    hashes-level (a ∷ []) (b ∷ b' ∷ ms) l p q e = absurd (omega arith)
    hashes-level (a ∷ a' ∷ ns) (b ∷ []) l p q e = absurd (omega arith)
    hashes-level (a ∷ a' ∷ ns) (b ∷ b' ∷ ms) l p q e =
        let heads : sha256 (node_hash a ++ node_hash a') ≡ sha256 (node_hash b ++ node_hash b') =
          cc in
        let tails : map node_hash (merkle_level sha256 ns)
            ≡ map node_hash (merkle_level sha256 ms) =
          cc in
        both (equal_or_collision _ _ heads) (hashes-level ns ms (omega arith) p.1.1 q.1.1 tails)
          λ joined rest.
            let pair = append_inj (node_hash a) (node_hash b) (omega arith) joined in
            cc (pair.0, pair.1, rest)

    -- The same of the whole loop.
    pub hashes-loop :
        (f : ℕ) (ns ms : List MerkleNode)
        → length ns ≡ length ms
        → All Wide ns
        → All Wide ms
        → map node_hash (merkle_loop sha256 f ns) ≡ map node_hash (merkle_loop sha256 f ms)
        → (map node_hash ns ≡ map node_hash ms) ⊎ Collision
    unfolding merkle_loop
    hashes-loop zero ns ms l p q e = inl e
    hashes-loop (suc f) [] [] l p q e = inl refl
    hashes-loop (suc f) [] (b ∷ ms) l p q e = absurd (omega arith)
    hashes-loop (suc f) (a ∷ ns) [] l p q e = absurd (omega arith)
    hashes-loop (suc f) (a ∷ []) (b ∷ []) l p q e = inl e
    hashes-loop (suc f) (a ∷ []) (b ∷ b' ∷ ms) l p q e = absurd (omega arith)
    hashes-loop (suc f) (a ∷ a' ∷ ns) (b ∷ []) l p q e = absurd (omega arith)
    hashes-loop (suc f) (a ∷ a' ∷ ns) (b ∷ b' ∷ ms) l p q e =
        let xs = a ∷ a' ∷ ns in
        let ys = b ∷ b' ∷ ms in
        let wide =
          λ (x y : MerkleNode) (_ : Wide x) (_ : Wide y). sized (node_hash x ++ node_hash y) in
        let below =
          hashes-loop f (merkle_level sha256 xs) (merkle_level sha256 ys)
            (length-level sha256 xs ∙ ap (λ t. (t + 1) / 2) l ∙ sym (length-level sha256 ys))
            (All-level sha256 Wide wide xs p) (All-level sha256 Wide wide ys q) e in
        elim below [ inl same ↦ hashes-level xs ys l p q same | inr c ↦ inr c ]

    Wide-leaves : (items : List Bytes) → All Wide (map (item_leaf sha256) items)
    Wide-leaves [] = tt
    Wide-leaves (x ∷ xs) = (sized x, Wide-leaves xs)

    items_or_collision :
        (xs ys : List Bytes)
        → length xs ≡ length ys
        → map node_hash (map (item_leaf sha256) xs) ≡ map node_hash (map (item_leaf sha256) ys)
        → (xs ≡ ys) ⊎ Collision
    items_or_collision [] [] l e = inl refl
    items_or_collision [] (y ∷ ys) l e = absurd (omega arith)
    items_or_collision (x ∷ xs) [] l e = absurd (omega arith)
    items_or_collision (x ∷ xs) (y ∷ ys) l e =
        let head : sha256 x ≡ sha256 y = cc in
        let tails : map node_hash (map (item_leaf sha256) xs)
            ≡ map node_hash (map (item_leaf sha256) ys) =
          cc in
        both (equal_or_collision x y head) (items_or_collision xs ys (omega arith) tails) λ p q. cc

    -- A list of at most one node is what its head says.
    pub hashes_of_head :
        (ns ms : List MerkleNode) {t u : MerkleNode}
        → length ns ≤ 1
        → length ms ≤ 1
        → head? ns ≡ some t
        → head? ms ≡ some u
        → node_hash t ≡ node_hash u
        → map node_hash ns ≡ map node_hash ms
    hashes_of_head [] ms p q e k h = cc
    hashes_of_head (a ∷ ns) [] p q e k h = cc
    hashes_of_head (a ∷ []) (b ∷ []) p q e k h = cc
    hashes_of_head (a ∷ []) (b ∷ b' ∷ ms) p q e k h = absurd (omega arith)
    hashes_of_head (a ∷ a' ∷ ns) (b ∷ ms) p q e k h = absurd (omega arith)

    -- Where a hash has 32 bytes, two lists of data of the same length whose trees have the same root
    -- hash are equal, unless two inputs with the same hash are at hand.
    pub root_binding :
        (xs ys : List Bytes) {t u : MerkleNode}
        → length xs ≡ length ys
        → build_merkle_tree sha256 xs ≡ some t
        → build_merkle_tree sha256 ys ≡ some u
        → node_hash t ≡ node_hash u
        → (xs ≡ ys) ⊎ Collision
    unfolding build_merkle_tree
    root_binding xs ys l e k h =
        let ns = map (item_leaf sha256) xs in
        let ms = map (item_leaf sha256) ys in
        let nl = length-map (item_leaf sha256) xs in
        let ml = length-map (item_leaf sha256) ys in
        let k' = rw (← l) at k in
        let roots =
          hashes_of_head (merkle_loop sha256 (length xs) ns) (merkle_loop sha256 (length xs) ms)
            (length-loop sha256 (length xs) ns (omega (arith, nl)))
            (length-loop sha256 (length xs) ms (omega (arith, ml))) e k' h in
        elim (hashes-loop (length xs) ns ms (nl ∙ l ∙ sym ml) (Wide-leaves xs) (Wide-leaves ys)
          roots) [ inl same ↦ items_or_collision xs ys l same | inr c ↦ inr c ]
