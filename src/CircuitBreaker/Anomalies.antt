-- ===== src/CircuitBreaker/Anomalies.antt =====
-- The module anomaly_detector of contracts/tipjar-legacy/src/circuit_breaker.rs: scores in basis
-- points.
use stellar_tipjar_contracts.Common.{
  ℕ, ◌-◌, ◌*◌, ◌/◌, ◌||◌, Option, none, some, List, [], ◌∷◌, ltb, nat_beq, if◌then◌else◌, contains,
}
use stellar_tipjar_contracts.Common.Int.{
  ℤ, pos, pos_part, ltb_ℤ, eqb_ℤ, quot, sub_i128, mul_i128, checked_div, add_u32,
}
use stellar_tipjar_contracts.Common.Saturating.{
  u32_max, min, saturating_add, saturating_mul, mul_u32, div_or_trap, saturating_add_i128,
  saturating_mul_i128,
}
use stellar_tipjar_contracts.Soroban.{Address}
use stellar_tipjar_contracts.CircuitBreaker.{
  EnhancedCircuitBreakerConfig, HistoricalStats, AnomalyDetectionState, OptAnomalyDetectionState,
  absent, present, anomaly_detection, medium, high, critical,
}
use stellar_tipjar_contracts.CircuitBreaker.Volumes.{Finding}

-- The senders that none before them equals. `seen` are those before.
unfoldable pub count_unique : List Address → List Address → ℕ
count_unique seen [] = 0
count_unique seen (a ∷ others) =
    add_u32 (if contains a seen then 0 else 1) (count_unique (a ∷ seen) others)

unfoldable pub calculate_sender_clustering_score : List Address → ℕ → ℕ
calculate_sender_clustering_score [] unique_threshold = 0
calculate_sender_clustering_score (a ∷ others) unique_threshold =
    let unique : ℕ = count_unique [] (a ∷ others) in
    if ltb unique unique_threshold
    then min (mul_u32 (unique_threshold - unique) 10_000 / unique_threshold) 10_000
    else 0

-- How far a ratio is above its threshold, which two modules compute. It traps at a threshold of 0.
unfoldable pub excess_score : ℕ → ℕ → Option ℕ
excess_score ratio threshold =
    if ltb threshold ratio
    then elim (div_or_trap (mul_u32 (ratio - threshold) 10_000) threshold) [
      | none ↦ none
      | some score ↦ some (min score 10_000)
    ]
    else some 0

unfoldable pub calculate_velocity_anomaly_score : ℕ → ℕ → ℕ → Option ℕ
calculate_velocity_anomaly_score current_rate average threshold =
    if nat_beq average 0
    then some 0
    else if ltb average current_rate
    then excess_score (mul_u32 (current_rate - average) 10_000 / average) threshold
    else some 0

-- The division traps for the least `i128` by -1, as Rust's does.
unfoldable pub calculate_amount_deviation_score : ℤ → ℤ → ℤ → Option ℕ
calculate_amount_deviation_score amount average deviation =
    if eqb_ℤ deviation (pos 0) || eqb_ℤ average (pos 0)
    then some 0
    else (let distance : ℤ =
          if ltb_ℤ average amount then sub_i128 amount average else sub_i128 average amount in
        elim (checked_div (mul_i128 distance (pos 100)) deviation) [
          | none ↦ none
          | some z ↦ some (
              if ltb_ℤ (pos 300) z
              then 10_000
              else if ltb_ℤ (pos 200) z
              then min ((pos_part z - 200) * 10_000 / 100) 10_000
              else 0)
        ])

unfoldable pub averaged : HistoricalStats → ℤ → ℕ → HistoricalStats
averaged stats amount now =
    let count : ℕ = saturating_add u32_max stats.sample_count 1 in
    let total : ℤ = saturating_mul_i128 stats.average_tip_amount (pos stats.sample_count) in
    record stats {
      average_tip_amount = quot (saturating_add_i128 total amount) (pos count);
      sample_count = count;
      last_update = now;
    }

-- `none` where the score's division traps.
unfoldable pub update_anomaly_state :
    OptAnomalyDetectionState → ℤ → ℕ → Option OptAnomalyDetectionState
update_anomaly_state absent amount now = some absent
update_anomaly_state (present a) amount now =
    let stats : HistoricalStats = averaged a.historical_stats amount now in
    elim (calculate_amount_deviation_score amount stats.average_tip_amount
      stats.standard_deviation) [
        | none ↦ none
        | some score ↦ some (
            present (record a {
              historical_stats = stats;
              amount_deviation_score = score;
              last_analysis_time = now;
            }))
      ]

unfoldable pub calculate_overall_confidence : ℕ → ℕ → ℕ → ℕ
calculate_overall_confidence clustering velocity deviation =
    saturating_add u32_max
      (saturating_add u32_max (saturating_mul u32_max clustering 40)
        (saturating_mul u32_max velocity 30))
      (saturating_mul u32_max deviation 30)
    / 100

unfoldable pub check_anomaly_trigger :
    OptAnomalyDetectionState → EnhancedCircuitBreakerConfig → Finding
check_anomaly_trigger absent config = none
check_anomaly_trigger (present a) config =
    if config.anomaly_detection_enabled
    then (if ltb config.anomaly_confidence_threshold a.overall_confidence
        then some (
          anomaly_detection,
          if ltb 9000 a.overall_confidence
              then critical
              else if ltb 8000 a.overall_confidence
              then high
              else medium,
        )
        else none)
    else none

unfoldable pub initialize_anomaly_state : ℕ → AnomalyDetectionState
initialize_anomaly_state now = record {
  historical_stats = record {
    average_tip_amount = pos 0;
    standard_deviation = pos 0;
    average_tips_per_minute = 0;
    unique_senders_per_hour = 0;
    last_update = now;
    sample_count = 0;
  };
  sender_clustering_score = 0;
  velocity_anomaly_score = 0;
  amount_deviation_score = 0;
  overall_confidence = 0;
  last_analysis_time = now;
}
