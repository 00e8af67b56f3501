-- ===== src/Tests/Nodes.antt =====
-- Two nodes, of which one has a level and a heartbeat, and a latency of 400 ms.
use native.Mathlib.Nat.{le-div_iff_mul-le, div-mul-le_self}
use blockchain_test.Prelude.{
  ℕ, ◌+◌, ◌-◌, ◌*◌, ◌/◌, ◌^◌, ◌≤◌, ◌<◌, ltb, leb, ◌==◌, refl, arith, ◌≡◌, [], ◌∷◌, str_eq,
  if◌then◌else◌, Map,
}
use blockchain_test.Prelude.Int.{pos, pos_part, ◌-ℤ◌}
use blockchain_test.Network.{
  ConsistencyLevel, strong_consistency, causal_consistency, timeout_nodes,
  predict_partition_probability, get_consistency_level,
}
use blockchain_test.Network.{
  NetworkStats, ConsistencyOrchestrator, second, dynamic_adjust_consistency,
}
use blockchain_test.Prelude.Float.{FloatOps}
use blockchain_test.Network.Adjusting.{strength, OrderLaws, dynamic_adjust_consistency-weaker}

abbrev stats : NetworkStats
stats = record {
  latency = pos (400 * 10 ^ 6);
  partition_prob = 0;
  last_heartbeats = ("ann", pos 3) ∷ [];
}

abbrev levels : Map ConsistencyLevel
levels = ("ann", strong_consistency) ∷ []

abbrev orchestrator : ConsistencyOrchestrator
orchestrator = record { node_consistency = levels; network_stats = stats }

-- Fixed-point numbers, in hundredths.
abbrev hundredths : FloatOps
hundredths = record {
  add = λ a b. a + b;
  sub = λ a b. a - b;
  mul = λ a b. a * b / 100;
  div = λ a b. a * 100 / b;
  lt = λ a b. ltb a b;
  le = λ a b. leb a b;
  eq = λ a b. a == b;
  min = λ a b. if ltb a b then a else b;
  max = λ a b. if ltb a b then b else a;
  of_int = λ z. pos_part z * 100;
  to_int = λ a. pos (a / 100);
  literal = λ n k. n * 100 / 10 ^ k;
}

div_le : (a b k : ℕ) → 0 < k → a ≤ b → a / k ≤ b / k
div_le a b k p h =
    (le-div_iff_mul-le {k = k} {x = a / k} {y = b} p).1 (omega (arith, div-mul-le_self a k))

hundredths_laws : OrderLaws hundredths
hundredths_laws = record {
  of_int-le = λ a b h. ground arith;
  quotient-le = λ a b n h. ground (
    arith,
    div_le (pos_part a * 100 * 100) (pos_part b * 100 * 100) ((n + 1) * 100) (omega arith),
  );
  half-le = λ a b h. ground arith;
  add-le = λ a b c m n h. ground arith;
  lt-le = λ a b c h l. ground arith;
  high_below_one = refl;
  low_below_one = refl;
}

-- With the heartbeat of "ann" the level is strong, and without it causal.
weakened :
    let (first, co') = dynamic_adjust_consistency hundredths "bob" (pos 9) orchestrator in
    let (level, co'') = dynamic_adjust_consistency hundredths "bob" (pos (6 * second)) co' in
    (first ≡ strong_consistency) × (level ≡ causal_consistency)
unfolding dynamic_adjust_consistency predict_partition_probability timeout_nodes ◌-ℤ◌
weakened = (refl, refl)

dynamic_adjust_consistency-weaker_example :
    let (first, co') = dynamic_adjust_consistency hundredths "bob" (pos 9) orchestrator in
    let (level, co'') = dynamic_adjust_consistency hundredths "bob" (pos (6 * second)) co' in
    (strength level ≤ strength first)
    × (get_consistency_level "ann" co''.node_consistency
        ≡ (if str_eq "bob" "ann" then level else get_consistency_level "ann" levels))
dynamic_adjust_consistency-weaker_example =
    dynamic_adjust_consistency-weaker hundredths hundredths_laws "bob" "ann" (pos 9)
      (pos (6 * second)) orchestrator (omega arith)
