-- ===== src/Tests/Votes.antt =====
-- Two nodes, of which one approves.
use blockchain_test.Prelude.{◌+◌, ◌*◌, ◌≤◌, ◌≡◌, ◌↔◌, refl, true, false, [], ◌∷◌, length, Map, Bool}
use blockchain_test.Pow.{new_proof, validate}
use blockchain_test.Consensus.{MultipartyConsensus, validate_block}
use blockchain_test.Consensus.Voting.{approvers, total_trust, validate_block_iff}
use blockchain_test.Tests.Toys.{toy_hash, toy_floats, first_block}

abbrev parties : MultipartyConsensus
parties = record {
  node_id = "ann";
  trust_threshold = 1;
  trust_scores = ("ann", 2) ∷ [];
  vrf = record { seed = 1 ∷ [] };
}

abbrev votes : Map Bool
votes = ("ann", true) ∷ ("bob", false) ∷ []

validate_block_iff_example :
    (validate_block toy_hash toy_floats first_block votes parties ≡ true) ↔ (
      ((validate toy_hash (new_proof first_block)).0 ≡ true)
      × (2 * length votes ≤ 3 * length (approvers votes) + 2)
      × (toy_floats.le parties.trust_threshold
            (total_trust toy_floats parties.trust_scores (toy_floats.literal 0 0) (approvers votes))
          ≡ true))
validate_block_iff_example = validate_block_iff toy_hash toy_floats first_block votes parties refl
