-- ===== src/Network/Adjusting.antt =====
-- `DynamicAdjustConsistency` as time passes: without heartbeats the level gets no stronger.
use blockchain_test.Prelude.{
  ℕ, ◌+◌, ◌-◌, ◌≤◌, if◌then◌else◌, ◌≡◌, true, inl, inr, arith, str_eq, Bool-cases, length, Map,
  String, [], ◌∷◌,
}
use blockchain_test.Prelude.Int.{ℤ, pos, ◌≤ℤ◌, -ℤ_parts}
use blockchain_test.Prelude.Float.{Float64, FloatOps}
use blockchain_test.Network.Laws.{get_consistency_level-adjust}
use blockchain_test.Network.{
  ConsistencyLevel, eventual_consistency, causal_consistency, strong_consistency, second,
  timeout_nodes, ConsistencyOrchestrator, NetworkStats, get_consistency_level, level_for,
  predict_partition_probability, dynamic_adjust_consistency,
}

-- The numbers that the program gives the levels.
abbrev pub strength : ConsistencyLevel → ℕ
strength eventual_consistency = 1
strength causal_consistency = 2
strength strong_consistency = 3

-- A quotient by a positive integer, as the prediction makes them.
abbrev pub quotient : FloatOps → ℤ → ℕ → Float64
quotient ops z k = ops.div (ops.of_int z) (ops.of_int (pos (k + 1)))

-- What the program relies on in the arithmetic of `float64`: the conversion of an integer, the
-- quotient by a positive integer, the half and the sum of two quotients keep the order, a value above
-- another is above what is below that, and the thresholds are below 1.
pub record OrderLaws (ops : FloatOps) : Type 0 where
  pub of_int-le : (a b : ℤ) → a ≤ℤ b → ops.le (ops.of_int a) (ops.of_int b) ≡ true
  pub quotient-le :
      (a b : ℤ) (n : ℕ)
      → ops.le (ops.of_int a) (ops.of_int b) ≡ true
      → ops.le (quotient ops a n) (quotient ops b n) ≡ true
  pub half-le :
      (a b : Float64)
      → ops.le a b ≡ true
      → ops.le (ops.div a (ops.literal 2 0)) (ops.div b (ops.literal 2 0)) ≡ true
  pub add-le :
      (a b c : ℤ) (m n : ℕ)
      → ops.le (quotient ops a m) (quotient ops b m) ≡ true
      → ops.le
          (ops.add (quotient ops a m) (quotient ops c n))
          (ops.add (quotient ops b m) (quotient ops c n))
        ≡ true
  pub lt-le : (a b c : Float64) → ops.lt a b ≡ true → ops.le b c ≡ true → ops.lt a c ≡ true
  pub high_below_one : ops.lt (ops.literal 7 1) (ops.literal 1 0) ≡ true
  pub low_below_one : ops.lt (ops.literal 3 1) (ops.literal 1 0) ≡ true

timeout_nodes-le :
    (now later : ℤ) (beats : Map ℤ)
    → now ≤ℤ later
    → timeout_nodes now beats ≤ timeout_nodes later beats
unfolding timeout_nodes
timeout_nodes-le now later [] h = omega arith
timeout_nodes-le now later ((node, beat) ∷ beats) h =
    ground (arith, -ℤ_parts now beat, -ℤ_parts later beat, timeout_nodes-le now later beats h)

module _ (ops : FloatOps) (laws : OrderLaws ops) where
  -- The mean of the two shares, before it is cut off at 1.
  abbrev mean_share : ℤ → NetworkStats → Float64
  mean_share now ns =
      let beats = ns.last_heartbeats in
      ops.div
        (ops.add (quotient ops (pos (timeout_nodes now beats)) (length beats))
          (quotient ops ns.latency (second - 1)))
        (ops.literal 2 0)

  mean_share-le :
      (now later : ℤ) (ns : NetworkStats)
      → now ≤ℤ later
      → ops.le (mean_share now ns) (mean_share later ns) ≡ true
  mean_share-le now later ns h =
      let beats = ns.last_heartbeats in
      let more = timeout_nodes-le now later beats h in
      let early = pos (timeout_nodes now beats) in
      let late = pos (timeout_nodes later beats) in
      laws.half-le _ _ (
        laws.add-le early late ns.latency (length beats) (second - 1)
          (laws.quotient-le early late (length beats) (laws.of_int-le early late (omega arith))))

  -- A threshold below 1 that the prediction is above stays passed.
  passed-later :
      (threshold : Float64) (now later : ℤ) (ns : NetworkStats)
      → ops.lt threshold (ops.literal 1 0) ≡ true
      → now ≤ℤ later
      → ops.lt threshold (predict_partition_probability ops now ns).0 ≡ true
      → ops.lt threshold (predict_partition_probability ops later ns).0 ≡ true
  unfolding predict_partition_probability
  passed-later threshold now later ns low h passed =
      let one = ops.literal 1 0 in
      let a = mean_share now ns in
      let b = mean_share later ns in
      let grows = mean_share-le now later ns h in
      elim (Bool-cases (ops.lt one b)) [
        | inl over ↦ rw over low
        | inr under ↦ elim (Bool-cases (ops.lt one a)) [
          | inl over ↦ absurd (cc (laws.lt-le one a b over grows))
          | inr small ↦ rw under (laws.lt-le threshold a b (rw small at passed) grows)
        ]
      ]

  level_for-weaker :
      (p q : Float64)
      → (ops.lt (ops.literal 7 1) p ≡ true → ops.lt (ops.literal 7 1) q ≡ true)
      → (ops.lt (ops.literal 3 1) p ≡ true → ops.lt (ops.literal 3 1) q ≡ true)
      → strength (level_for ops q) ≤ strength (level_for ops p)
  level_for-weaker p q high low = ground arith

  -- Where `float64` keeps the order as the laws say, and two calls of `DynamicAdjustConsistency` for a
  -- node follow each other without a heartbeat or a new latency between them, the level of the second
  -- call is not stronger than that of the first. After it, `GetConsistencyLevel` returns this level
  -- for the node and the level of before the two calls for every other node.
  pub dynamic_adjust_consistency-weaker :
      (node other : String) (now later : ℤ) (co : ConsistencyOrchestrator)
      → now ≤ℤ later
      → let (first, co') = dynamic_adjust_consistency ops node now co in
        let (level, co'') = dynamic_adjust_consistency ops node later co' in
        (strength level ≤ strength first)
        × (get_consistency_level other co''.node_consistency ≡ (
            if str_eq node other then level else get_consistency_level other co.node_consistency))
  unfolding dynamic_adjust_consistency predict_partition_probability
  dynamic_adjust_consistency-weaker node other now later co h =
      let ns = co.network_stats in
      let co' = (dynamic_adjust_consistency ops node now co).1 in
      (
        level_for-weaker (predict_partition_probability ops now ns).0
            (predict_partition_probability ops later ns).0
            (passed-later (ops.literal 7 1) now later ns laws.high_below_one h)
            (passed-later (ops.literal 3 1) now later ns laws.low_below_one h),
        ground (
          arith,
          (get_consistency_level-adjust ops node other now co).1,
          (get_consistency_level-adjust ops node other later co').1,
        ),
      )
