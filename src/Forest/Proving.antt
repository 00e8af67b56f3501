-- ===== src/Forest/Proving.antt =====
-- After `AddData` the item is found and its shard's root is returned.
use mathlib.Core.Path.{subst}
use blockchain_test.Prelude.{
  inl, inr, ℕ, zero, suc, ◌/◌, ◌≤◌, ◌<◌, ◌≡◌, refl, sym, ap, ◌∙◌, true, ◌||◌, some, String, List,
  [], ◌∷◌, ◌++◌, arith, take-append-drop, length, take, drop, get_elem?, set, All, All-append, ltb,
  Bool-cases,
}
use blockchain_test.Prelude.Int.{ℤ}
use blockchain_test.Prelude.Bytes.{Bytes, bytes_equal_refl}
use blockchain_test.Outcome.{ok}
use blockchain_test.Merkle.{MerkleNode, build_merkle_tree, node_hash}
use blockchain_test.Merkle.Shape.{build_merkle_tree-leaves}
use blockchain_test.Slices.{Memory, Slice, IsSlice, contents, slice_to, slice_from, append_items}
use blockchain_test.Slices.Append.{append_items-one, length-contents}
use blockchain_test.Slices.Halves.{
  contents-slice_to, contents-slice_from, slice_to-IsSlice, slice_from-IsSlice, append_items-others,
}
use blockchain_test.Forest.{
  Shard, Forest, Moment, shard_threshold, remove_shard, half_shard, split_shard, grown_shard,
  add_to, add_data, has_item, shard_with, proof_of, generate_merkle_proof,
}
use blockchain_test.Forest.Adding.{
  IsSound, IsForest, find_optimal_shard-some, All-get, All-set, All-remove, All-weaken, get-set,
  get-append,
}

pub has-append :
    (item : Bytes) (xs ys : List Bytes)
    → has_item item (xs ++ ys) ≡ (has_item item xs || has_item item ys)
unfolding has_item
has-append item [] ys = refl
has-append item (x ∷ xs) ys = ground (arith, has-append item xs ys)

has-last : (item : Bytes) (xs : List Bytes) → has_item item (xs ++ item ∷ []) ≡ true
unfolding has_item
has-last item [] = rw (bytes_equal_refl item)
has-last item (x ∷ xs) = ground (arith, has-last item xs)

pub has-filled : (item : Bytes) (xs : List Bytes) → has_item item xs ≡ true → 0 < length xs
unfolding has_item
has-filled item [] h = cc
has-filled item (x ∷ xs) h = omega arith

-- The scan for the item ends at a sound shard that holds it.
pub record Found (m : Memory) (item : Bytes) (shards : List Shard) : Type 0 where
  shard : Shard
  scan : shard_with m item shards ≡ some shard
  holds : has_item item (contents m shard.items) ≡ true
  sound : IsSound m shard

module _ (m : Memory) (item : Bytes) where
  pub Found-here :
      (s : Shard) (shards : List Shard)
      → has_item item (contents m s.items) ≡ true
      → IsSound m s
      → Found m item (s ∷ shards)
  unfolding shard_with
  Found-here s shards h sound = record { shard = s; scan = rw h; holds = h; sound = sound }

  Found-later :
      (s : Shard) (shards : List Shard)
      → IsSound m s
      → Found m item shards
      → Found m item (s ∷ shards)
  unfolding shard_with
  Found-later s shards sound f = elim (Bool-cases (has_item item (contents m s.items))) [
    | inl h ↦ Found-here s shards h sound
    | inr h ↦ record { shard = f.shard; scan = rw h f.scan; holds = f.holds; sound = f.sound }
  ]

  pub Found-append :
      (xs ys : List Shard) → All (IsSound m) xs → Found m item ys → Found m item (xs ++ ys)
  Found-append [] ys sound f = f
  Found-append (x ∷ xs) ys sound f = Found-later x (xs ++ ys) sound.0 (Found-append xs ys sound.1 f)

  Found-at :
      (shards : List Shard) (i : ℕ) {s : Shard}
      → All (IsSound m) shards
      → get_elem? shards i ≡ some s
      → has_item item (contents m s.items) ≡ true
      → Found m item shards
  Found-at [] i sound e h = cc
  Found-at (a ∷ shards) zero {s} sound e h =
      let same : s ≡ a = cc in
      Found-here a shards (subst (λ (t : Shard). has_item item (contents m t.items) ≡ true) same h)
        sound.0
  Found-at (a ∷ shards) (suc i) sound e h =
      Found-later a shards sound.0 (Found-at shards i sound.1 e h)

  pub proof_of-Found :
      (shards : List Shard)
      → Found m item shards
      → (h : Bytes) × (proof_of (shard_with m item shards) ≡ ok (some (h ∷ [])))
  unfolding proof_of
  proof_of-Found shards f =
      let filled : 0 < f.shard.items.len = omega (
        arith,
        has-filled item (contents m f.shard.items) f.holds,
        length-contents m f.shard.items f.sound.0,
      ) in
      let (t, e) = f.sound.1 filled in (node_hash t, rw (f.scan, e))

build-some :
    (sha256 : Bytes → Bytes) (xs : List Bytes)
    → 0 < length xs
    → (t : MerkleNode) × (build_merkle_tree sha256 xs ≡ some t)
build-some sha256 [] h = absurd (omega arith)
build-some sha256 (x ∷ xs) h =
    let built = build_merkle_tree-leaves sha256 x xs in (built.0, built.1)

module _ (sha256 : Bytes → Bytes) where
  pub half-IsSound :
      (id : String) (now : ℤ) (m : Memory) (s : Slice)
      → IsSlice m s
      → IsSound m (half_shard sha256 id now m s)
  unfolding half_shard
  half-IsSound id now m s valid =
      (valid, λ h. build-some sha256 (contents m s) (omega (arith, length-contents m s valid)))

  module _ (t : Moment) (m : Memory) (s : Shard) (item : Bytes) (valid : IsSlice m s.items) where
    grown-holds :
        let (m', g) = grown_shard sha256 t m s item in
        IsSound m' g × (has_item item (contents m' g.items) ≡ true)
    unfolding grown_shard
    grown-holds =
        let (held, sliced) = append_items-one m s.items valid item t.spare in
        let (m', items) = append_items t.spare m s.items (item ∷ []) in
        let has : has_item item (contents m' items) ≡ true =
          rw held (has-last item (contents m s.items)) in
        (
          (
            sliced,
            λ h. build-some sha256 (contents m' items) (has-filled item (contents m' items) has),
          ),
          has,
        )

    others-IsSound :
        (shards : List Shard)
        → All (IsSound m) shards
        → All (IsSound (grown_shard sha256 t m s item).0) shards
    unfolding grown_shard
    others-IsSound =
        All-weaken (IsSound m) _
          (λ a h. (append_items-others t.spare m s.items a.items (item ∷ []) h.0, h.1))

  -- The halves of a shard that holds the item are sound, and the scan finds the item in one of them.
  split-Found :
      (t : Moment) (f : Forest) (s : Shard) (item : Bytes)
      → All (IsSound f.memory) f.shards
      → IsSound f.memory s
      → has_item item (contents f.memory s.items) ≡ true
      → IsForest (split_shard sha256 t f s) × Found f.memory item (split_shard sha256 t f s).shards
  unfolding split_shard
  split-Found t f s item sound ok_s has =
      let m = f.memory in
      let mid = s.items.len / 2 in
      let small : mid ≤ s.items.len = omega arith in
      let left = half_shard sha256 (t.left_id s.id) t.now m (slice_to mid s.items) in
      let right = half_shard sha256 (t.right_id s.id) t.now m (slice_from mid s.items) in
      let kept = remove_shard s.id f.shards in
      let kept_sound = All-remove (IsSound m) s.id f.shards sound in
      let left_sound =
        half-IsSound (t.left_id s.id) t.now m _ (slice_to-IsSlice m s.items mid small ok_s.0) in
      let right_sound =
        half-IsSound (t.right_id s.id) t.now m _ (slice_from-IsSlice m s.items mid small ok_s.0) in
      let parts : (has_item item (take mid (contents m s.items))
            || has_item item (drop mid (contents m s.items)))
          ≡ true =
        sym (has-append item (take mid (contents m s.items)) (drop mid (contents m s.items)))
        ∙ ap (has_item item) (take-append-drop mid (contents m s.items))
        ∙ has in
      (
        record {
          sound =
              All-append (IsSound m) kept (left ∷ right ∷ []) kept_sound
                (left_sound, (right_sound, tt));
          room = (length kept, left, get-append kept (right ∷ []) left, omega arith);
        },
        Found-append m item kept (left ∷ right ∷ []) kept_sound
            (elim (Bool-cases (has_item item (take mid (contents m s.items)))) [
              | inl l ↦
                  Found-here m item left (right ∷ [])
                    (ap (has_item item) (contents-slice_to m s.items mid small) ∙ l) left_sound
              | inr n ↦
                  let r : has_item item (drop mid (contents m s.items)) ≡ true = ground arith in
                  Found-later m item left (right ∷ []) left_sound (
                    Found-here m item right []
                      (ap (has_item item) (contents-slice_from m s.items mid small) ∙ r)
                      right_sound)
            ]),
      )

  add_to-Found :
      (t : Moment) (f : Forest) (i : ℕ) (s : Shard) (item : Bytes)
      → IsForest f
      → get_elem? f.shards i ≡ some s
      → let f' = add_to sha256 t f i s item in IsForest f' × Found f'.memory item f'.shards
  unfolding add_to
  add_to-Found t f i s item forest e =
      let valid = (All-get (IsSound f.memory) f.shards i forest.sound e).0 in
      let (m, g) = grown_shard sha256 t f.memory s item in
      let (sound, has) = grown-holds t f.memory s item valid in
      let all_sound =
        All-set (IsSound m) f.shards i g
          (others-IsSound t f.memory s item valid f.shards forest.sound) sound in
      let at = get-set f.shards i g e in
      let grown : Forest = record { shards = set f.shards i g; memory = m } in
      elim (Bool-cases (ltb shard_threshold g.load)) [
        | inl over ↦ rw over (split-Found t grown g item all_sound sound has)
        | inr under ↦ rw under (
          record { sound = all_sound; room = (i, g, at, ground arith) },
          Found-at m item (set f.shards i g) i all_sound at has,
        )
      ]

  -- On a forest in which some shard has room, every shard's items lie in its array and every shard
  -- with items has a root, `AddData` returns such a forest again, and in it `GenerateMerkleProof`
  -- of the added data succeeds, with one hash.
  pub add_data-proved :
      (t : Moment) (item : Bytes) (f : Forest)
      → IsForest f
      → (f' : Forest) × (add_data sha256 t item f ≡ ok f')
        × IsForest f'
        × (h : Bytes) × (generate_merkle_proof item f' ≡ ok (some (h ∷ [])))
  unfolding add_data generate_merkle_proof
  add_data-proved t item f forest =
      let (i, s, optimal, at) = find_optimal_shard-some f.shards forest.room in
      let f' = add_to sha256 t f i s item in
      let (kept, found) = add_to-Found t f i s item forest at in
      let (h, proof) = proof_of-Found f'.memory item f'.shards found in
      (f', rw (optimal, at), kept, h, proof)
