-- ===== src/Cli/Commands/Settings.antt =====
-- The commands that set a consistency level or a trust score, and what is left of it.
use blockchain_test.Prelude.{
  ◌≤◌, ◌≡◌, refl, some, String, List, [], ◌∷◌, length, lookup, insert, if◌then◌else◌,
}
use blockchain_test.Prelude.Bytes.{Bytes}
use blockchain_test.Prelude.Float.{Float64}
use blockchain_test.Run.{returns}
use blockchain_test.Block.{Block}
use blockchain_test.Network.{
  ConsistencyLevel, causal_consistency, get_consistency_level, set_consistency,
}
use blockchain_test.Chain.{BlockChain, last_hash_key}
use blockchain_test.Chain.Walk.{IsLinked, walk-IsLinked}
use blockchain_test.Chain.Opening.{get_trust_scores, update_trust_score}
use blockchain_test.Chain.Opening.Laws.{continue_block_chain-IsLinked}
use blockchain_test.Cli.{
  World, Event, Env, level_set, trust_set, current_level, probability, level_of,
}
use blockchain_test.Cli.Commands.{
  opened, blocks_of, leveled, shown_probability, set_consistency_level, set_trust,
  view_network_status,
}

module _ {Db Key : Type 0} (env : Env Db Key) where
  open env use {services}

  -- A world whose database holds the linked blocks, the newest at `last`.
  pub record Holds (w : World Db) (last : Bytes) (blocks : List Block) : Type 0 where
    pub db : Db
    pub there : w.database ≡ some db
    pub newest : services.get last_hash_key db ≡ some last
    pub linked : IsLinked services db last blocks

  -- With as much fuel as there are blocks the chain is opened, and its blocks are read.
  pub opened-Holds :
      (e : Event Key) (w : World Db) (last : Bytes) (blocks : List Block)
      → Holds w last blocks
      → length blocks ≤ e.fuel
      → (chain : BlockChain Db) × (opened env e w ≡ returns chain)
        × (blocks_of env e chain ≡ returns blocks)
        × (w.database ≡ some chain.database)
        × (services.get last_hash_key chain.database ≡ some last)
        × IsLinked services chain.database last blocks
        × (chain.last_hash ≡ last)
        × (chain.consistency_mgr.node_consistency ≡ [])
        × (chain.trust_scores ≡ [])
  unfolding opened
  opened-Holds e w last blocks h enough =
      let (chain, c, same, newest, _, levels, scores, _) =
        continue_block_chain-IsLinked services e.fuel e.born e.opening h.db last blocks h.newest
          h.linked enough in
      let walked = walk-IsLinked services h.db blocks last e.fuel h.linked enough in
      (
        chain,
        rw (h.there, c) refl,
        rw (same, newest, walked) refl,
        rw (h.there, same) refl,
        rw same h.newest,
        rw same h.linked,
        newest,
        levels,
        scores,
      )

  -- On any chain the status shows the causal level and no trust score.
  view_network_status-Holds :
      (e : Event Key) (w : World Db) (last : Bytes) (blocks : List Block)
      → Holds w last blocks
      → length blocks ≤ e.fuel
      → (p : Float64) × (view_network_status env e w
          ≡ returns (w, current_level causal_consistency ∷ probability p ∷ []))
  unfolding view_network_status get_trust_scores get_consistency_level lookup
  view_network_status-Holds e w last blocks h enough =
      let (chain, back, _, _, _, _, _, levels, scores) = opened-Holds e w last blocks h enough in
      (shown_probability env e chain, rw (back, levels, scores) refl)

  -- Setting one of the three levels on a chain succeeds, prints the level and leaves the database as it
  -- is. Yet the level of every node is still the causal one, in the chain itself and in a later status,
  -- since `SetConsistency` sets the level of the nodes that have one, and no node has.
  pub set_consistency_level-forgotten :
      (text : String) (level : ConsistencyLevel) (e later : Event Key) (w : World Db) (last : Bytes)
      (blocks : List Block)
      → level_of text ≡ some level
      → Holds w last blocks
      → length blocks ≤ e.fuel
      → length blocks ≤ later.fuel
      → (chain : BlockChain Db) × (p : Float64) × (set_consistency_level env text e w
          ≡ returns (chain, w, level_set text ∷ []))
        × ((node : String)
            → get_consistency_level node chain.consistency_mgr.node_consistency
              ≡ causal_consistency)
        × (view_network_status env later w
            ≡ returns (w, current_level causal_consistency ∷ probability p ∷ []))
  unfolding set_consistency_level set_consistency get_consistency_level lookup
  set_consistency_level-forgotten text level e later w last blocks known h enough enough' =
      let (chain, back, _, _, _, _, _, levels, _) = opened-Holds e w last blocks h enough in
      let (p, shown) = view_network_status-Holds later w last blocks h enough' in
      (
        (leveled env chain text (some level)).0,
        p,
        rw (back, known) refl,
        (λ node. rw levels refl),
        shown,
      )

  -- Setting a trust score on a chain succeeds, prints the score and leaves the database as it is. The
  -- chain then has one score for the node, one step above or below 0 and not the printed one, and a
  -- later status shows no score.
  pub set_trust-forgotten :
      (node : String) (score : Float64) (e later : Event Key) (w : World Db) (last : Bytes)
      (blocks : List Block)
      → Holds w last blocks
      → length blocks ≤ e.fuel
      → length blocks ≤ later.fuel
      → let f = services.floats in
        let raised = f.min (f.add (f.literal 0 0) (f.literal 1 1)) (f.literal 1 0) in
        let lowered = f.max (f.sub (f.literal 0 0) (f.literal 2 1)) (f.literal 0 0) in
        (chain : BlockChain Db) × (p : Float64) × (set_trust env node score e w
          ≡ returns (chain, w, trust_set node score ∷ []))
        × (chain.trust_scores ≡ (node, if f.le (f.literal 5 1) score then raised else lowered) ∷ [])
        × (view_network_status env later w
            ≡ returns (w, current_level causal_consistency ∷ probability p ∷ []))
  unfolding set_trust update_trust_score lookup insert
  set_trust-forgotten node score e later w last blocks h enough enough' =
      let (chain, back, _, _, _, _, _, _, scores) = opened-Holds e w last blocks h enough in
      let (p, shown) = view_network_status-Holds later w last blocks h enough' in
      (
        update_trust_score services node (services.floats.le (services.floats.literal 5 1) score)
            chain,
        p,
        rw back refl,
        rw scores refl,
        shown,
      )
