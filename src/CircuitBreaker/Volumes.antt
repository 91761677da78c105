-- ===== src/CircuitBreaker/Volumes.antt =====
-- The modules volume_tracker and rate_limiter of
-- contracts/tipjar-legacy/src/circuit_breaker.rs: what was tipped in the current windows.
use stellar_tipjar_contracts.Common.{ℕ, Bool, false, Option, none, some, leb, ltb, if◌then◌else◌}
use stellar_tipjar_contracts.Common.Int.{ℤ, pos, ltb_ℤ, quot}
use stellar_tipjar_contracts.Common.Saturating.{
  u32_max, u64_max, saturating_add, saturating_add_i128, saturating_mul_i128,
}
use stellar_tipjar_contracts.CircuitBreaker.{
  EnhancedCircuitBreakerConfig, EnhancedCircuitBreakerState, VolumeWindow, RateLimitState,
  TriggerType, TriggerSeverity, volume_spike, rate_limit, one_minute, five_minutes, one_hour,
  twenty_four_hours, low, medium, high, critical, empty_window,
}

unfoldable pub update_volume_window : VolumeWindow → ℤ → ℕ → ℕ → VolumeWindow
update_volume_window w amount now duration =
    if leb (saturating_add u64_max w.window_start duration) now
    then record {
      window_start = now;
      current_volume = amount;
      tip_count = 1;
      unique_senders = 1;
      max_single_tip = amount;
    }
    else record w {
      current_volume = saturating_add_i128 w.current_volume amount;
      tip_count = saturating_add u32_max w.tip_count 1;
      max_single_tip = if ltb_ℤ w.max_single_tip amount then amount else w.max_single_tip;
    }

unfoldable pub check_volume_threshold : VolumeWindow → ℤ → ℕ → ℕ → Bool
check_volume_threshold w threshold now duration =
    if ltb now (saturating_add u64_max w.window_start duration)
    then ltb_ℤ threshold w.current_volume
    else false

unfoldable pub update_all_windows :
    EnhancedCircuitBreakerState → ℤ → ℕ → EnhancedCircuitBreakerState
update_all_windows s amount now = record s {
  one_minute_window = update_volume_window s.one_minute_window amount now 60;
  five_minute_window = update_volume_window s.five_minute_window amount now 300;
  one_hour_window = update_volume_window s.one_hour_window amount now 3600;
  twenty_four_hour_window = update_volume_window s.twenty_four_hour_window amount now 86400;
}

abbrev pub Finding : Type 0
Finding = Option (TriggerType × TriggerSeverity)

unfoldable pub check_all_volume_thresholds :
    EnhancedCircuitBreakerState → EnhancedCircuitBreakerConfig → ℕ → Finding
check_all_volume_thresholds s config now =
    if check_volume_threshold s.one_minute_window config.one_minute_threshold now 60
    then some (volume_spike one_minute, critical)
    else if check_volume_threshold s.five_minute_window config.five_minute_threshold now 300
    then some (volume_spike five_minutes, high)
    else if check_volume_threshold s.one_hour_window config.one_hour_threshold now 3600
    then some (volume_spike one_hour, medium)
    else if check_volume_threshold s.twenty_four_hour_window config.twenty_four_hour_threshold now
        86400
    then some (volume_spike twenty_four_hours, low)
    else none

unfoldable pub calculate_percentage_threshold : ℤ → ℕ → ℤ
calculate_percentage_threshold historical_average multiplier =
    quot (saturating_mul_i128 historical_average (pos multiplier)) (pos 10_000)

unfoldable pub reset_volume_counters : EnhancedCircuitBreakerState → ℕ → EnhancedCircuitBreakerState
reset_volume_counters s now = record s {
  one_minute_window = empty_window now;
  five_minute_window = empty_window now;
  one_hour_window = empty_window now;
  twenty_four_hour_window = empty_window now;
}

unfoldable pub update_rate_limit_state : RateLimitState → ℕ → RateLimitState
update_rate_limit_state r now =
    if leb (saturating_add u64_max r.current_minute_start 60) now
    then record { current_minute_start = now; tips_this_minute = 1 }
    else record r { tips_this_minute = saturating_add u32_max r.tips_this_minute 1 }

unfoldable pub check_global_rate_limit : RateLimitState → EnhancedCircuitBreakerConfig → ℕ → Bool
check_global_rate_limit r config now =
    if ltb now (saturating_add u64_max r.current_minute_start 60)
    then ltb config.max_tips_per_minute r.tips_this_minute
    else false

-- The counter is advanced in the state, and its new value is tested.
unfoldable pub check_rate_limit_trigger :
    EnhancedCircuitBreakerState
    → EnhancedCircuitBreakerConfig
    → ℕ
    → EnhancedCircuitBreakerState × Finding
check_rate_limit_trigger s config now =
    let r : RateLimitState = update_rate_limit_state s.rate_limit_state now in
    (
      record s { rate_limit_state = r },
      if check_global_rate_limit r config now then some (rate_limit, medium) else none,
    )

unfoldable pub reset_rate_limit_state :
    EnhancedCircuitBreakerState → ℕ → EnhancedCircuitBreakerState
reset_rate_limit_state s now = record s {
  rate_limit_state = record { current_minute_start = now; tips_this_minute = 0 };
}
