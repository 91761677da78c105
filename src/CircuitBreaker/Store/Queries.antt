-- ===== src/CircuitBreaker/Store/Queries.antt =====
-- The modules query, estimation, batch_query and gas_optimization of
-- contracts/tipjar-legacy/src/circuit_breaker.rs.
use stellar_tipjar_contracts.Common.{
  nat_eq, ℕ, ◌+◌, ◌-◌, ◌/◌, Bool, false, not, Option, none, some, List, [], ◌∷◌, leb, ltb, is_some,
  if◌then◌else◌,
}
use stellar_tipjar_contracts.Common.Int.{ℤ, pos, ltb_ℤ, mul_i128, quot}
use stellar_tipjar_contracts.Common.Map.{Map, set}
use stellar_tipjar_contracts.Common.Saturating.{
  u64_max, min, saturating_add, saturating_mul, mul_u32, mul_u64, sub_u64,
}
use stellar_tipjar_contracts.Soroban.{Address, Env}
use stellar_tipjar_contracts.CircuitBreaker.{
  EnhancedCircuitBreakerConfig, EnhancedCircuitBreakerState, OptAnomalyDetectionState, absent,
  present, is_halted, remaining_cooldown,
}
use stellar_tipjar_contracts.CircuitBreaker.Halts
use stellar_tipjar_contracts.CircuitBreaker.Store.{
  Store, HaltStatusResult, VolumeStatsResult, get_creator_limit, get_token_limit,
}

unfoldable pub is_halted_now : Env → EnhancedCircuitBreakerState → Bool
is_halted_now env state = is_halted state env.timestamp

unfoldable pub get_halt_status : Env → EnhancedCircuitBreakerState → HaltStatusResult
unfolding Halts.get_halt_status
get_halt_status env state =
    let s = Halts.get_halt_status state env.timestamp in
    record {
      halted = s.0;
      halt_reason = s.1;
      halt_severity = s.2;
      remaining_cooldown = s.3;
      halted_until = state.halted_until;
    }

unfoldable pub get_remaining_cooldown : Env → EnhancedCircuitBreakerState → ℕ
get_remaining_cooldown env state = remaining_cooldown state env.timestamp

unfoldable pub get_volume_stats : EnhancedCircuitBreakerState → VolumeStatsResult
get_volume_stats s = record {
  one_minute_volume = s.one_minute_window.current_volume;
  five_minute_volume = s.five_minute_window.current_volume;
  one_hour_volume = s.one_hour_window.current_volume;
  twenty_four_hour_volume = s.twenty_four_hour_window.current_volume;
  one_minute_tip_count = s.one_minute_window.tip_count;
  five_minute_tip_count = s.five_minute_window.tip_count;
}

abbrev scores_of : OptAnomalyDetectionState → Option (ℕ × ℕ × ℕ × ℕ)
scores_of absent = none
scores_of (present a) = some (
  a.sender_clustering_score, a.velocity_anomaly_score, a.amount_deviation_score,
  a.overall_confidence,
)

unfoldable pub get_anomaly_scores : EnhancedCircuitBreakerState → Option (ℕ × ℕ × ℕ × ℕ)
get_anomaly_scores s = scores_of s.anomaly_state

unfoldable pub get_trigger_stats : EnhancedCircuitBreakerState → ℕ × ℕ × ℕ × ℕ
get_trigger_stats s = (s.trigger_count, s.last_trigger_time, s.total_halts, s.total_halt_duration)

unfoldable pub estimate_recovery_time : Env → EnhancedCircuitBreakerState → ℕ
estimate_recovery_time env s =
    if not (is_halted s env.timestamp) then 0 else s.halted_until - env.timestamp

unfoldable pub estimate_check_gas_cost : EnhancedCircuitBreakerConfig → ℕ
estimate_check_gas_cost config =
    1000
    + 500
    + 300
    + (if config.anomaly_detection_enabled then 2000 else 0)
    + (if config.pattern_analysis_enabled then 1500 else 0)

abbrev is_confident : OptAnomalyDetectionState → Bool
is_confident absent = false
is_confident (present a) = ltb 5000 a.overall_confidence

unfoldable pub estimate_next_trigger_risk :
    EnhancedCircuitBreakerState → EnhancedCircuitBreakerConfig → ℕ
estimate_next_trigger_risk s config =
    let volume_ratio : ℤ =
      if ltb_ℤ (pos 0) config.one_minute_threshold
      then quot (mul_i128 s.one_minute_window.current_volume (pos 100)) config.one_minute_threshold
      else pos 0 in
    let rate_ratio : ℕ =
      if ltb 0 config.max_tips_per_minute
      then mul_u32 s.rate_limit_state.tips_this_minute 100 / config.max_tips_per_minute
      else 0 in
    min
      ((if ltb_ℤ (pos 80) volume_ratio
          then 5000
          else if ltb_ℤ (pos 60) volume_ratio
          then 3000
          else 0)
        + (if ltb 80 rate_ratio then 3000 else 0)
        + (if is_confident s.anomaly_state then 2000 else 0))
      10_000

pub data StatusCode : Type 0 where
  normal warning halted emergency maintenance : StatusCode

pub record CreatorStatus : Type 0 where
  pub creator : Address
  pub has_override : Bool
  pub override_limit : Option ℤ
  pub status_code : StatusCode

pub record TokenStatus : Type 0 where
  pub token : Address
  pub has_limit : Bool
  pub token_limit : Option ℤ
  pub status_code : StatusCode

unfoldable pub get_system_status_code : EnhancedCircuitBreakerConfig → StatusCode
get_system_status_code config =
    if config.maintenance_mode
    then maintenance
    else if config.emergency_mode
    then emergency
    else normal

-- The loops add to `results`, in the order of the list.
unfoldable pub creator_statuses :
    Store
    → EnhancedCircuitBreakerConfig
    → List Address
    → Map Address CreatorStatus
    → Map Address CreatorStatus
creator_statuses s config [] results = results
creator_statuses s config (a ∷ others) results =
    let limit : Option ℤ = get_creator_limit a s in
    let entry : CreatorStatus = record {
      creator = a;
      has_override = is_some limit;
      override_limit = limit;
      status_code = get_system_status_code config;
    } in
    creator_statuses s config others (set a entry results)

unfoldable pub get_creator_status_batch :
    List Address → EnhancedCircuitBreakerConfig → Store → Map Address CreatorStatus
get_creator_status_batch creators config s = creator_statuses s config creators []

unfoldable pub token_statuses :
    Store
    → EnhancedCircuitBreakerConfig
    → List Address
    → Map Address TokenStatus
    → Map Address TokenStatus
token_statuses s config [] results = results
token_statuses s config (a ∷ others) results =
    let limit : Option ℤ = get_token_limit a s in
    let entry : TokenStatus = record {
      token = a;
      has_limit = is_some limit;
      token_limit = limit;
      status_code = get_system_status_code config;
    } in
    token_statuses s config others (set a entry results)

unfoldable pub get_token_status_batch :
    List Address → EnhancedCircuitBreakerConfig → Store → Map Address TokenStatus
get_token_status_batch tokens config s = token_statuses s config tokens []

unfoldable pub get_halt_status_code :
    EnhancedCircuitBreakerState → EnhancedCircuitBreakerConfig → ℕ → StatusCode
get_halt_status_code s config now =
    if config.maintenance_mode
    then maintenance
    else if config.emergency_mode
    then emergency
    else if is_halted s now
    then halted
    else if ltb 7000 (estimate_next_trigger_risk s config)
    then warning
    else normal

unfoldable pub validate_gas_estimates : ℕ → ℕ → ℕ → Bool
validate_gas_estimates estimated actual tolerance =
    leb (if leb estimated actual then actual - estimated else estimated - actual)
      (mul_u64 estimated tolerance / 100)

-- The weight of the current estimate wraps for an `alpha` above 10000.
unfoldable pub calibrate_estimates : ℕ → ℕ → ℕ → ℕ
calibrate_estimates current actual alpha =
    saturating_add u64_max (saturating_mul u64_max actual alpha / 10_000)
      (saturating_mul u64_max current (sub_u64 10_000 alpha) / 10_000)
