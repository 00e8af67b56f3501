-- ===== src/Network/Laws.antt =====
-- Which level a node has after a change, and the bounds of the prediction and the timeout.
use blockchain_test.Prelude.{
  inl, inr, ◌≡◌, ◌⊎◌, refl, ap, ◌∙◌, Bool, true, false, Option, none, some, String, [], ◌∷◌, arith,
  str_eq, if◌then◌else◌, Map, lookup, lookup-insert, Bool-cases,
}
use blockchain_test.Prelude.Int.{ℤ, ◌≤ℤ◌}
use blockchain_test.Prelude.Float.{FloatOps}
use blockchain_test.Network.{ConsistencyLevel, or_causal, causal_consistency, get_consistency_level}
use blockchain_test.Network.{
  ConsistencyOrchestrator, AdaptiveTimeoutManager, NetworkStats, set_all,
  predict_partition_probability, level_for, dynamic_adjust_consistency, calculate_timeout,
}

-- After the loop of `SetConsistency`, `GetConsistencyLevel` returns the level for every node that had one, and
-- the causal default for every other node.
pub get_consistency_level-set :
    (node : String) (level : ConsistencyLevel) (levels : Map ConsistencyLevel)
    → ((lookup node levels ≡ none)
        × (get_consistency_level node (set_all level levels) ≡ causal_consistency))
      ⊎ ((old : ConsistencyLevel) × (lookup node levels ≡ some old)
          × (get_consistency_level node (set_all level levels) ≡ level))
unfolding get_consistency_level set_all lookup
get_consistency_level-set node level [] = inl (refl, refl)
get_consistency_level-set node level ((k, old) ∷ levels) = elim (Bool-cases (str_eq k node)) [
  | inl same ↦ inr (old, rw same refl, rw same refl)
  | inr other ↦ rw other (get_consistency_level-set node level levels)
]

or_causal-if :
    (b : Bool) (level : ConsistencyLevel) (o : Option ConsistencyLevel)
    → or_causal (if b then some level else o) ≡ (if b then level else or_causal o)
or_causal-if true level o = refl
or_causal-if false level o = refl

module _ (ops : FloatOps) where
  -- `DynamicAdjustConsistency` returns the level for the predicted probability; after it, this is
  -- what `GetConsistencyLevel` returns for the node, and other nodes keep their level.
  pub get_consistency_level-adjust :
      (node other : String) (now : ℤ) (co : ConsistencyOrchestrator)
      → let (level, co') = dynamic_adjust_consistency ops node now co in
        (level ≡ level_for ops (predict_partition_probability ops now co.network_stats).0)
        × (get_consistency_level other co'.node_consistency ≡ (
            if str_eq node other then level else get_consistency_level other co.node_consistency))
  unfolding dynamic_adjust_consistency get_consistency_level
  get_consistency_level-adjust node other now co = (
    refl,
    ap or_causal (lookup-insert node other _ co.node_consistency)
        ∙ or_causal-if (str_eq node other) _ (lookup other co.node_consistency),
  )

  -- Where 1 is not below itself, the predicted probability is never above 1.
  pub predict_partition_probability-bounded :
      (now : ℤ) (ns : NetworkStats)
      → ops.lt (ops.literal 1 0) (ops.literal 1 0) ≡ false
      → ops.lt (ops.literal 1 0) (predict_partition_probability ops now ns).0 ≡ false
  unfolding predict_partition_probability
  predict_partition_probability-bounded now ns h = ground arith

  -- The timeout is never above the largest one, and the manager's limits are not changed.
  pub calculate_timeout-le :
      (now : ℤ) (atm : AdaptiveTimeoutManager)
      → let (timeout, atm') = calculate_timeout ops now atm in
        (timeout ≤ℤ atm.max_timeout)
        × (atm'.max_timeout ≡ atm.max_timeout)
        × (atm'.base_timeout ≡ atm.base_timeout)
  unfolding calculate_timeout
  calculate_timeout-le now atm = (ground arith, refl, refl)
