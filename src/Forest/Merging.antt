-- ===== src/Forest/Merging.antt =====
-- `mergeLowActivityShards`: what it does to the forest, and to what can be proved.
use blockchain_test.Prelude.{
  inl, inr, ◌≤◌, ◌≡◌, ap, ◌∙◌, true, ◌&&◌, ◌||◌, not, some, String, str_eq, List, [], ◌∷◌, ◌++◌,
  arith, length, All, All-append, leb, Bool-cases,
}
use blockchain_test.Prelude.Int.{ℤ}
use blockchain_test.Prelude.Bytes.{Bytes}
use blockchain_test.Outcome.{ok}
use blockchain_test.Slices.{contents, append_items}
use blockchain_test.Slices.Many.{append_items-many}
use blockchain_test.Slices.Halves.{append_items-others}
use blockchain_test.Forest.{
  Shard, Forest, Moment, half_shard, idle, idle_shards, keep_others, merge_pair,
  merge_low_activity_shards, run_shard_monitor, has_item, generate_merkle_proof,
}
use blockchain_test.Forest.Adding.{IsSound, IsForest, All-weaken, get-append}
use blockchain_test.Forest.Proving.{
  has-append, Found-here, Found-append, proof_of-Found, half-IsSound,
}

All-keep_others :
    (sha256 : Bytes → Bytes) (P : Shard → Type 0) (a b : String) (shards : List Shard)
    → All P shards
    → All P (keep_others sha256 a b shards)
unfolding keep_others
All-keep_others sha256 P a b [] h = tt
All-keep_others sha256 P a b (s ∷ shards) h =
    elim (Bool-cases (not (str_eq s.id a) && not (str_eq s.id b))) [
      | inl kept ↦ rw kept (h.0, All-keep_others sha256 P a b shards h.1)
      | inr gone ↦ rw gone (All-keep_others sha256 P a b shards h.1)
    ]

All-idle_shards :
    (sha256 : Bytes → Bytes) (P : Shard → Type 0) (now : ℤ) (shards : List Shard)
    → All P shards
    → All P (idle_shards sha256 now shards)
unfolding idle_shards
All-idle_shards sha256 P now [] h = tt
All-idle_shards sha256 P now (s ∷ shards) h = elim (Bool-cases (idle sha256 now s)) [
  | inl still ↦ rw still (h.0, All-idle_shards sha256 P now shards h.1)
  | inr busy ↦ rw busy (All-idle_shards sha256 P now shards h.1)
]

module _ (sha256 : Bytes → Bytes) (t : Moment) (f : Forest) where
  -- An item of one of the first two shards can be proved in the forest.
  abbrev pub ProvesPair : Forest → List Shard → Type 0
  ProvesPair f' [] = Unit
  ProvesPair f' (a ∷ []) = Unit
  ProvesPair f' (a ∷ b ∷ others) =
      (item : Bytes)
      → (has_item item (contents f.memory a.items) || has_item item (contents f.memory b.items))
        ≡ true
      → (h : Bytes) × (generate_merkle_proof item f' ≡ ok (some (h ∷ [])))

  merge_pair-kept :
      (candidates : List Shard)
      → IsForest f
      → All (IsSound f.memory) candidates
      → let f' = merge_pair sha256 t f candidates in IsForest f' × ProvesPair f' candidates
  unfolding merge_pair generate_merkle_proof
  merge_pair-kept [] forest sound = (forest, tt)
  merge_pair-kept (a ∷ []) forest sound = (forest, tt)
  merge_pair-kept (a ∷ b ∷ others) forest sound =
      let m = f.memory in
      let (m', items) = append_items t.spare m a.items (contents m b.items) in
      let (held, sliced) = append_items-many t.spare m a.items (contents m b.items) sound.0.0 in
      let merged = half_shard sha256 t.merged_id t.now m' items in
      let kept = keep_others sha256 a.id b.id f.shards in
      let kept_sound : All (IsSound m') kept =
        All-keep_others sha256 (IsSound m') a.id b.id f.shards (
          All-weaken (IsSound m) (IsSound m')
            (λ s h. (append_items-others t.spare m a.items s.items (contents m b.items) h.0, h.1))
            f.shards forest.sound) in
      let merged_sound = half-IsSound sha256 t.merged_id t.now m' items sliced in
      (
        record {
          sound = All-append (IsSound m') kept (merged ∷ []) kept_sound (merged_sound, tt);
          room = (length kept, merged, get-append kept [] merged, omega arith);
        },
        λ item has.
            let there : has_item item (contents m' items) ≡ true =
              ap (has_item item) held
              ∙ has-append item (contents m a.items) (contents m b.items)
              ∙ has in
            proof_of-Found m' item (kept ++ merged ∷ []) (
              Found-append m' item kept (merged ∷ []) kept_sound
                (Found-here m' item merged [] there merged_sound)),
      )

  -- On a forest in which some shard has room, every shard's items lie in their array and every shard
  -- with items has a root, `mergeLowActivityShards` leaves such a forest. If there are at least two
  -- shards, and at least two that are idle, every item of the first two of these can be proved in it.
  pub merge_low_activity_shards-IsForest :
      IsForest f
      → let f' = merge_low_activity_shards sha256 t f in
        IsForest f' × (2 ≤ length f.shards → ProvesPair f' (idle_shards sha256 t.now f.shards))
  unfolding merge_low_activity_shards
  merge_low_activity_shards-IsForest forest =
      let r =
        merge_pair-kept (idle_shards sha256 t.now f.shards) forest
          (All-idle_shards sha256 (IsSound f.memory) t.now f.shards forest.sound) in
      elim (Bool-cases (leb (length f.shards) 1)) [
        | inl few ↦ rw few (forest, λ h. absurd (ground (arith, few)))
        | inr many ↦ rw many (r.0, λ h. r.1)
      ]

-- After any number of ticks of the monitor the forest is still such a forest, so that `AddData` will
-- succeed on it.
pub run_shard_monitor-IsForest :
    (sha256 : Bytes → Bytes) (ticks : List Moment) (f : Forest)
    → IsForest f
    → IsForest (run_shard_monitor sha256 ticks f)
unfolding run_shard_monitor
run_shard_monitor-IsForest sha256 [] f forest = forest
run_shard_monitor-IsForest sha256 (t ∷ ticks) f forest =
    run_shard_monitor-IsForest sha256 ticks (merge_low_activity_shards sha256 t f)
      (merge_low_activity_shards-IsForest sha256 t f forest).0
