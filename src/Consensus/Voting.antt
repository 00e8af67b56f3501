-- ===== src/Consensus/Voting.antt =====
-- Which leaders can be selected, and when a block has enough votes.
use blockchain_test.Prelude.{
  inl, inr, ℕ, zero, suc, ◌+◌, ◌*◌, ◌/◌, ◌≤◌, ◌<◌, ◌≡◌, ◌↔◌, refl, ◌⊎◌, Bool, true, false, some,
  String, List, [], ◌∷◌, ◌++◌, arith, length, length-append, length-replicate, take, lookup, Option,
  none, if◌then◌else◌, ap, ◌∙◌, get_elem?, replicate, leb, Map,
}
use blockchain_test.Prelude.Int.{ℤ}
use blockchain_test.Prelude.Bytes.{Bytes, set_bytes}
use blockchain_test.Prelude.Float.{Float64, FloatOps}
use blockchain_test.Outcome.{ok}
use blockchain_test.Block.{Block}
use blockchain_test.Pow.{new_proof, validate}
use blockchain_test.Consensus.{
  MultipartyConsensus, generate, weight_of, weighted_nodes, select_leader, count_trusted,
  score_or_half, or_no_trust, trust_score, validate_block,
}

-- The item stands in the list.
abbrev pub Stands : String → List String → Type 0
Stands x [] = ⊥
Stands x (y ∷ ys) = (y ≡ x) ⊎ Stands x ys

-- The nodes that approve, in the order of the validations.
abbrev pub approvers : Map Bool → List String
approvers [] = []
approvers ((node, true) ∷ more) = node ∷ approvers more
approvers ((node, false) ∷ more) = approvers more

-- An item of a block of copies is the copied one, or comes from the rest.
get-replicate :
    (k i : ℕ) (x v : String) (rest : List String)
    → get_elem? (replicate k x ++ rest) i ≡ some v
    → (x ≡ v) ⊎ ((j : ℕ) × (get_elem? rest j ≡ some v))
get-replicate zero i x v rest e = inr (i, e)
get-replicate (suc k) zero x v rest e = inl cc
get-replicate (suc k) (suc i) x v rest e = get-replicate k i x v rest e

get-below : (xs : List String) (i : ℕ) → i < length xs → (v : String) × (get_elem? xs i ≡ some v)
get-below [] i h = absurd (omega arith)
get-below (x ∷ xs) zero h = (x, refl)
get-below (x ∷ xs) (suc i) h = get-below xs i (omega arith)

module _ (ops : FloatOps) where
  -- The trust in a node: its score, or one half where it has none or a score of zero.
  abbrev pub known_trust : Option Float64 → Float64
  known_trust none = ops.literal 5 1
  known_trust (some score) = if ops.eq score (ops.literal 0 0) then ops.literal 5 1 else score

  -- The trust in the nodes, added up from the first to the last.
  abbrev pub total_trust : Map Float64 → Float64 → List String → Float64
  total_trust scores total [] = total
  total_trust scores total (node ∷ nodes) =
      total_trust scores (ops.add total (known_trust (lookup node scores))) nodes

module _ (sha256 : Bytes → Bytes) (ops : FloatOps) where
  weighted-Stands :
      (scores : Map Float64) (nodes : List String) (i : ℕ) (v : String)
      → get_elem? (weighted_nodes sha256 ops scores nodes) i ≡ some v
      → Stands v nodes
  unfolding weighted_nodes
  weighted-Stands scores [] i v e = cc
  weighted-Stands scores (x ∷ nodes) i v e =
      elim (get-replicate (weight_of sha256 ops scores x) i x v
        (weighted_nodes sha256 ops scores nodes) e) [
          | inl same ↦ inl same
          | inr (j, later) ↦ inr (weighted-Stands scores nodes j v later)
        ]

  weight_of-positive : (scores : Map Float64) (x : String) → 0 < weight_of sha256 ops scores x
  weight_of-positive scores x = ground arith

  weighted-not_empty :
      (scores : Map Float64) (x : String) (nodes : List String)
      → 0 < length (weighted_nodes sha256 ops scores (x ∷ nodes))
  unfolding weighted_nodes
  weighted-not_empty scores x nodes = omega (
    arith,
    length-append (replicate (weight_of sha256 ops scores x) x)
        (weighted_nodes sha256 ops scores nodes),
    length-replicate (weight_of sha256 ops scores x) x,
    weight_of-positive scores x,
  )

  -- From at least one node, where the draw of `rand.Intn` is below its bound, `SelectLeader` returns
  -- one of the nodes.
  pub select_leader-Stands :
      (draw : ℕ → ℕ → ℕ) (now : ℤ) (node : String) (nodes : List String) (mc : MultipartyConsensus)
      → ((seed n : ℕ) → 0 < n → draw seed n < n)
      → (leader : String) × (select_leader sha256 ops draw now (node ∷ nodes) mc ≡ ok leader)
        × Stands leader (node ∷ nodes)
  unfolding select_leader
  select_leader-Stands draw now node nodes mc below =
      let weighted = weighted_nodes sha256 ops mc.trust_scores (node ∷ nodes) in
      let seed = set_bytes 0 (take 8 (generate sha256 now mc.vrf).0) in
      let i = draw seed (length weighted) in
      let (leader, at) =
        get-below weighted i
          (below seed (length weighted) (weighted-not_empty mc.trust_scores node nodes)) in
      (leader, rw at refl, weighted-Stands mc.trust_scores (node ∷ nodes) i leader at)

  score_or_half-known :
      (o : Option Float64)
      → ops.eq (ops.literal 0 0) (ops.literal 0 0) ≡ true
      → score_or_half sha256 ops (or_no_trust sha256 ops o) ≡ known_trust ops o
  score_or_half-known none zero_equal = rw zero_equal refl
  score_or_half-known (some score) zero_equal = refl

  count-approvers :
      (scores : Map Float64) (validations : Map Bool) (n : ℕ) (total : Float64)
      → ops.eq (ops.literal 0 0) (ops.literal 0 0) ≡ true
      → ((count_trusted sha256 ops scores validations (n, total)).0
          ≡ n + length (approvers validations))
        × ((count_trusted sha256 ops scores validations (n, total)).1
            ≡ total_trust ops scores total (approvers validations))
  unfolding count_trusted
  count-approvers scores [] n total zero_equal = (omega arith, refl)
  count-approvers scores ((node, false) ∷ more) n total zero_equal =
      count-approvers scores more n total zero_equal
  count-approvers scores ((node, true) ∷ more) n total zero_equal =
      let trust = score_or_half sha256 ops (trust_score sha256 ops node scores) in
      let later = count-approvers scores more (n + 1) (ops.add total trust) zero_equal in
      (
        omega (arith, later.0),
        later.1
            ∙ ap (λ t. total_trust ops scores (ops.add total t) (approvers more))
                (score_or_half-known (lookup node scores) zero_equal),
      )

  enough_votes : (n k : ℕ) → (leb (n * 2 / 3) k ≡ true) ↔ (2 * n ≤ 3 * k + 2)
  enough_votes n k = ground arith

  -- Where the float zero equals itself, `ValidateBlock` accepts exactly the blocks that pass the
  -- proof of work, that at least two thirds of the validations approve, rounded down, and whose
  -- approving nodes have a trust that adds up to at least the threshold: for each its score, or one
  -- half where it has none or a score of zero.
  pub validate_block_iff :
      (block : Block) (validations : Map Bool) (mc : MultipartyConsensus)
      → ops.eq (ops.literal 0 0) (ops.literal 0 0) ≡ true
      → let nodes = approvers validations in
        (validate_block sha256 ops block validations mc ≡ true) ↔ (
          ((validate sha256 (new_proof block)).0 ≡ true)
          × (2 * length validations ≤ 3 * length nodes + 2)
          × (ops.le mc.trust_threshold (total_trust ops mc.trust_scores (ops.literal 0 0) nodes)
              ≡ true))
  unfolding validate_block
  validate_block_iff block validations mc zero_equal = ground (
    arith,
    count-approvers mc.trust_scores validations 0 (ops.literal 0 0) zero_equal,
    enough_votes (length validations) (length (approvers validations)),
  )
