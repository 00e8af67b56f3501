-- ===== src/Network.antt =====
-- `NetworkStats`, `ConsistencyOrchestrator` and `AdaptiveTimeoutManager` of
-- Blockchain/cap_optimizer.go. Times and durations are nanoseconds; a mutex makes a method one step.
pub mod Laws
pub mod Adjusting
use blockchain_test.Prelude.{
  lookup, ℕ, ◌+◌, ◌*◌, ◌^◌, Bool, String, Option, none, some, List, [], ◌∷◌, length, if◌then◌else◌,
  Map, insert,
}
use blockchain_test.Prelude.Int.{ℤ, pos, ltb_ℤ, ◌-ℤ◌}
use blockchain_test.Prelude.Float.{Float64, FloatOps}

pub data ConsistencyLevel : Type 0 where
  eventual_consistency causal_consistency strong_consistency : ConsistencyLevel

abbrev pub or_causal : Option ConsistencyLevel → ConsistencyLevel
or_causal none = causal_consistency
or_causal (some level) = level

unfoldable pub get_consistency_level : String → Map ConsistencyLevel → ConsistencyLevel
get_consistency_level node levels = or_causal (lookup node levels)

-- The pattern of the float64 zero is 0.
pub record NetworkStats : Type 0 where
  pub latency : ℤ
  pub partition_prob : Float64
  pub last_heartbeats : Map ℤ

abbrev pub new_network_stats : NetworkStats
new_network_stats = record { latency = pos 0; partition_prob = 0; last_heartbeats = [] }

unfoldable pub update_node_heartbeat : String → ℤ → NetworkStats → NetworkStats
update_node_heartbeat node now ns = record ns {
  last_heartbeats = insert node now ns.last_heartbeats;
}

abbrev pub second : ℕ
second = 10 ^ 9

-- The heartbeats more than five seconds old. `Sub` stops at the largest duration, which is more too.
unfoldable pub timeout_nodes : ℤ → Map ℤ → ℕ
timeout_nodes now [] = 0
timeout_nodes now ((node, last_beat) ∷ beats) =
    let rest = timeout_nodes now beats in
    if ltb_ℤ (pos (5 * second)) (now -ℤ last_beat) then rest + 1 else rest

pub record ConsistencyOrchestrator : Type 0 where
  pub node_consistency : Map ConsistencyLevel
  pub network_stats : NetworkStats

abbrev pub new_consistency_orchestrator : ConsistencyOrchestrator
new_consistency_orchestrator = record { node_consistency = []; network_stats = new_network_stats }

pub record AdaptiveTimeoutManager : Type 0 where
  pub base_timeout : ℤ
  pub max_timeout : ℤ
  pub backoff_rate : Float64
  pub net_stats : NetworkStats

unfoldable pub set_all : ConsistencyLevel → Map ConsistencyLevel → Map ConsistencyLevel
set_all level [] = []
set_all level ((node, old) ∷ levels) = (node, level) ∷ set_all level levels

unfoldable pub set_consistency :
    ConsistencyLevel → ConsistencyOrchestrator → ConsistencyOrchestrator
unfolding set_all
set_consistency level co = record co { node_consistency = set_all level co.node_consistency }

module _ (ops : FloatOps) where
  open ops use {add, mul, div, lt, of_int, to_int, literal}

  -- The probability, and the statistics with it.
  unfoldable pub predict_partition_probability : ℤ → NetworkStats → Float64 × NetworkStats
  unfolding timeout_nodes
  predict_partition_probability now ns =
      let beats = ns.last_heartbeats in
      let from_timeouts =
        div (of_int (pos (timeout_nodes now beats))) (of_int (pos (length beats + 1))) in
      let from_latency = div (of_int ns.latency) (of_int (pos second)) in
      let sum = div (add from_timeouts from_latency) (literal 2 0) in
      let prob = if lt (literal 1 0) sum then literal 1 0 else sum in
      (prob, record ns { partition_prob = prob })

  abbrev pub level_for : Float64 → ConsistencyLevel
  level_for prob =
      if lt (literal 7 1) prob
      then eventual_consistency
      else if lt (literal 3 1) prob
      then causal_consistency
      else strong_consistency

  unfoldable pub dynamic_adjust_consistency :
      String → ℤ → ConsistencyOrchestrator → ConsistencyLevel × ConsistencyOrchestrator
  unfolding predict_partition_probability
  dynamic_adjust_consistency node now co =
      let (prob, stats) = predict_partition_probability now co.network_stats in
      (
        level_for prob,
        record {
          node_consistency = insert node (level_for prob) co.node_consistency;
          network_stats = stats;
        },
      )

  -- The timeout, and the manager with the statistics that the prediction updates.
  unfoldable pub calculate_timeout : ℤ → AdaptiveTimeoutManager → ℤ × AdaptiveTimeoutManager
  unfolding predict_partition_probability
  calculate_timeout now atm =
      let (prob, stats) = predict_partition_probability now atm.net_stats in
      let factor = add (literal 1 0) (mul prob atm.backoff_rate) in
      let adjusted =
        if lt (literal 5 1) prob
        then to_int (mul (of_int atm.base_timeout) factor)
        else atm.base_timeout in
      (
        if ltb_ℤ atm.max_timeout adjusted then atm.max_timeout else adjusted,
        record atm { net_stats = stats },
      )

  -- 100 ms and 10 s.
  unfoldable pub new_adaptive_timeout_manager : NetworkStats → AdaptiveTimeoutManager
  new_adaptive_timeout_manager ns = record {
    base_timeout = pos (100 * 10 ^ 6);
    max_timeout = pos (10 * second);
    backoff_rate = literal 15 1;
    net_stats = ns;
  }
