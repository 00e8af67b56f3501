-- ===== src/Consensus.antt =====
-- `VerifiableRandomFunction` and `MultipartyConsensus` of Blockchain/proof.go. `time.Now().UnixNano()`
-- and the draw of `rand.Intn` after `rand.Seed` are arguments.
pub mod Voting
use blockchain_test.Prelude.{
  ℕ, zero, suc, ◌+◌, ◌*◌, ◌/◌, Bool, true, false, ◌&&◌, Option, none, some, String, List, [], ◌∷◌,
  ◌++◌, length, get_elem?, take, replicate, leb, if◌then◌else◌, Map, lookup, insert,
}
use blockchain_test.Prelude.Int.{ℤ, pos, ltb_ℤ, pos_part}
use blockchain_test.Prelude.Bytes.{Bytes, bytes_equal, set_bytes}
use blockchain_test.Prelude.Float.{Float64, FloatOps}
use blockchain_test.Outcome.{Result, ok, panic, index_out_of_range}
use blockchain_test.Block.{Block}
use blockchain_test.Pow.{new_proof, to_hex, validate}

pub record VerifiableRandomFunction : Type 0 where
  pub seed : Bytes

pub record MultipartyConsensus : Type 0 where
  pub node_id : String
  pub trust_threshold : Float64
  pub trust_scores : Map Float64
  pub vrf : VerifiableRandomFunction

module _ (sha256 : Bytes → Bytes) where
  -- The value and its proof.
  unfoldable pub generate : ℤ → VerifiableRandomFunction → Bytes × Bytes
  generate now vrf = let hash = sha256 (vrf.seed ++ to_hex now) in (hash, sha256 hash)

  unfoldable pub verify : Bytes → Bytes → VerifiableRandomFunction → Bool
  verify value proof vrf = bytes_equal (sha256 value) proof

  module _ (ops : FloatOps) where
    open ops use {add, mul, le, eq, to_int, literal}

    -- A missing score is zero.
    abbrev pub or_no_trust : Option Float64 → Float64
    or_no_trust none = literal 0 0
    or_no_trust (some score) = score

    abbrev pub trust_score : String → Map Float64 → Float64
    trust_score node scores = or_no_trust (lookup node scores)

    -- `node_bytes` are the bytes of the node's identifier.
    unfoldable pub new_multiparty_consensus : String → Bytes → ℤ → MultipartyConsensus
    new_multiparty_consensus node_id node_bytes now = record {
      node_id = node_id;
      trust_threshold = literal 67 2;
      trust_scores = [];
      vrf = record { seed = node_bytes ++ to_hex now };
    }

    unfoldable pub add_trust_score : String → Float64 → MultipartyConsensus → MultipartyConsensus
    add_trust_score node score mc = record mc { trust_scores = insert node score mc.trust_scores }

    -- `int(mc.TrustScores[node] * 100)`, and one where that is less.
    abbrev pub weight_of : Map Float64 → String → ℕ
    weight_of scores node =
        let weight = to_int (mul (trust_score node scores) (literal 100 0)) in
        if ltb_ℤ weight (pos 1) then 1 else pos_part weight

    unfoldable pub weighted_nodes : Map Float64 → List String → List String
    weighted_nodes scores [] = []
    weighted_nodes scores (node ∷ nodes) =
        replicate (weight_of scores node) node ++ weighted_nodes scores nodes

    abbrev pub node_at : Option String → Result String
    node_at none = panic index_out_of_range
    node_at (some node) = ok node

    -- `draw seed n` is `rand.Intn(n)` after `rand.Seed(seed)`.
    unfoldable pub select_leader :
        (ℕ → ℕ → ℕ) → ℤ → List String → MultipartyConsensus → Result String
    unfolding generate weighted_nodes
    select_leader draw now [] mc = ok ""
    select_leader draw now (node ∷ nodes) mc =
        let seed = set_bytes 0 (take 8 (generate now mc.vrf).0) in
        let weighted = weighted_nodes mc.trust_scores (node ∷ nodes) in
        node_at (get_elem? weighted (draw seed (length weighted)))

    abbrev pub score_or_half : Float64 → Float64
    score_or_half score = if eq score (literal 0 0) then literal 5 1 else score

    -- The loop over the validations: the approving ones, and the trust in them.
    unfoldable pub count_trusted : Map Float64 → Map Bool → ℕ × Float64 → ℕ × Float64
    count_trusted scores [] r = r
    count_trusted scores ((node, false) ∷ more) r = count_trusted scores more r
    count_trusted scores ((node, true) ∷ more) (true_count, total) =
        count_trusted scores more
          (true_count + 1, add total (score_or_half (trust_score node scores)))

    unfoldable pub validate_block : Block → Map Bool → MultipartyConsensus → Bool
    unfolding count_trusted
    validate_block block validations mc =
        let (true_count, total) = count_trusted mc.trust_scores validations (0, literal 0 0) in
        (validate sha256 (new_proof block)).0
        && leb (length validations * 2 / 3) true_count
        && le mc.trust_threshold total
