-- ===== src/CircuitBreaker/Halts.antt =====
-- The modules halt_manager and error_handler of
-- contracts/tipjar-legacy/src/circuit_breaker.rs: how a halt begins, ends and is reported.
use stellar_tipjar_contracts.Common.{ℕ, Bool, true, false, ◌&&◌, not, leb, ltb, if◌then◌else◌}
use stellar_tipjar_contracts.Common.Int.{pos, ltb_ℤ}
use stellar_tipjar_contracts.Common.Saturating.{u32_max, u64_max, saturating_add}
use stellar_tipjar_contracts.CircuitBreaker.{
  EnhancedCircuitBreakerConfig, EnhancedCircuitBreakerState, Verdict, accepted, refused,
  invalid_configuration, TriggerType, no_trigger, single_tip_spike, volume_spike, rate_limit,
  anomaly_detection, pattern_analysis, price_volatility, manual, TriggerSeverity, no_severity,
  one_minute, five_minutes, one_hour, twenty_four_hours, new_state, is_halted, remaining_cooldown,
}
use stellar_tipjar_contracts.CircuitBreaker.Triggers.{calculate_cooldown}
use stellar_tipjar_contracts.CircuitBreaker.Volumes.{reset_volume_counters, reset_rate_limit_state}

unfoldable pub activate_halt :
    EnhancedCircuitBreakerState
    → EnhancedCircuitBreakerConfig
    → TriggerType
    → TriggerSeverity
    → ℕ
    → EnhancedCircuitBreakerState
activate_halt s config trigger severity now =
    let cooldown : ℕ = calculate_cooldown config severity s.trigger_count in
    record s {
      halted_until = saturating_add u64_max now cooldown;
      halt_reason = trigger;
      halt_severity = severity;
      trigger_count = saturating_add u32_max s.trigger_count 1;
      last_trigger_time = now;
      total_halts = saturating_add u32_max s.total_halts 1;
      total_halt_duration = saturating_add u64_max s.total_halt_duration cooldown;
    }

unfoldable pub check_automatic_recovery : EnhancedCircuitBreakerState → ℕ → Bool
check_automatic_recovery s now = ltb 0 s.halted_until && leb s.halted_until now

unfoldable pub perform_automatic_recovery :
    EnhancedCircuitBreakerState → ℕ → EnhancedCircuitBreakerState
perform_automatic_recovery s now =
    reset_rate_limit_state
      (reset_volume_counters
        (record s { halted_until = 0; halt_reason = no_trigger; halt_severity = no_severity }) now)
      now

unfoldable pub should_block_operations :
    EnhancedCircuitBreakerState → EnhancedCircuitBreakerConfig → ℕ → Bool
should_block_operations s config now =
    if not config.enabled then false else if config.maintenance_mode then true else is_halted s now

unfoldable pub get_halt_status :
    EnhancedCircuitBreakerState → ℕ → Bool × TriggerType × TriggerSeverity × ℕ
get_halt_status s now = (is_halted s now, s.halt_reason, s.halt_severity, remaining_cooldown s now)

unfoldable pub extend_halt :
    EnhancedCircuitBreakerState → ℕ → ℕ → EnhancedCircuitBreakerState × Verdict
extend_halt s seconds now =
    if is_halted s now
    then (
      record s {
        halted_until = saturating_add u64_max s.halted_until seconds;
        total_halt_duration = saturating_add u64_max s.total_halt_duration seconds;
      },
      accepted,
    )
    else (s, refused invalid_configuration)

pub data HaltErrorCode : Type 0 where
  halted_single_tip_spike volume_spike_1_min volume_spike_5_min : HaltErrorCode
  volume_spike_1_hour volume_spike_24_hour rate_limit_exceeded anomaly_detected : HaltErrorCode
  suspicious_pattern halted_price_volatility manual_halt emergency maintenance : HaltErrorCode

unfoldable pub code_of : TriggerType → HaltErrorCode
code_of no_trigger = manual_halt
code_of single_tip_spike = halted_single_tip_spike
code_of (volume_spike one_minute) = volume_spike_1_min
code_of (volume_spike five_minutes) = volume_spike_5_min
code_of (volume_spike one_hour) = volume_spike_1_hour
code_of (volume_spike twenty_four_hours) = volume_spike_24_hour
code_of rate_limit = rate_limit_exceeded
code_of anomaly_detection = anomaly_detected
code_of pattern_analysis = suspicious_pattern
code_of price_volatility = halted_price_volatility
code_of manual = manual_halt

unfoldable pub get_halt_error_code :
    EnhancedCircuitBreakerState → EnhancedCircuitBreakerConfig → HaltErrorCode
get_halt_error_code s config =
    if config.maintenance_mode
    then maintenance
    else if config.emergency_mode
    then emergency
    else code_of s.halt_reason

-- `== TriggerType::None`
abbrev pub is_none : TriggerType → Bool
is_none no_trigger = true
is_none single_tip_spike = false
is_none (volume_spike w) = false
is_none rate_limit = false
is_none anomaly_detection = false
is_none pattern_analysis = false
is_none price_volatility = false
is_none manual = false

unfoldable pub validate_state_integrity : EnhancedCircuitBreakerState → Verdict
validate_state_integrity s =
    if ltb 0 s.halted_until && is_none s.halt_reason
    then refused invalid_configuration
    else if ltb_ℤ s.one_minute_window.current_volume (pos 0)
    then refused invalid_configuration
    else if ltb 1_000_000 s.trigger_count
    then refused invalid_configuration
    else accepted

unfoldable pub create_safe_default_state : ℕ → EnhancedCircuitBreakerState
create_safe_default_state now = new_state now

unfoldable pub ensure_state_preservation : EnhancedCircuitBreakerState → Bool
ensure_state_preservation s = true

unfoldable pub handle_corrupted_state :
    EnhancedCircuitBreakerState → ℕ → EnhancedCircuitBreakerState
handle_corrupted_state s now = elim (validate_state_integrity s) [
  | accepted ↦ s
  | refused e ↦ create_safe_default_state now
]
