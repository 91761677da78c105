-- ===== src/CircuitBreaker.antt =====
-- The enhanced circuit breaker of contracts/tipjar-legacy/src/circuit_breaker.rs: its types, their
-- validation and defaults. The children model the modules of that file.
pub mod Triggers
pub mod Volumes
pub mod Anomalies
pub mod Statistics
pub mod Patterns
pub mod Halts
pub mod Store
pub mod Guard
pub mod Cooldowns
pub mod Windows
pub mod Acceptance
pub mod Recovery
pub mod Limits
pub mod Soundness
pub mod Runs
pub mod Invocations
pub mod Checks
pub mod Roots
mod Tests
use stellar_tipjar_contracts.Common.{
  ℕ, Bool, true, false, ◌&&◌, ◌-◌, Option, leb, ltb, nat_beq, if◌then◌else◌,
}
use stellar_tipjar_contracts.Common.Int.{ℤ, pos, leb_ℤ, ltb_ℤ}

pub record EnhancedCircuitBreakerConfig : Type 0 where
  pub max_single_tip : ℤ
  pub one_minute_threshold : ℤ
  pub five_minute_threshold : ℤ
  pub one_hour_threshold : ℤ
  pub twenty_four_hour_threshold : ℤ
  pub max_tips_per_minute : ℕ
  pub max_tips_per_creator_per_min : ℕ
  pub anomaly_detection_enabled : Bool
  pub anomaly_confidence_threshold : ℕ
  pub pattern_analysis_enabled : Bool
  pub base_cooldown_seconds : ℕ
  pub max_cooldown_seconds : ℕ
  pub exponential_backoff_enabled : Bool
  pub backoff_multiplier : ℕ
  pub enabled : Bool
  pub emergency_mode : Bool
  pub maintenance_mode : Bool

pub record VolumeThresholds : Type 0 where
  pub one_minute_threshold : ℤ
  pub five_minute_threshold : ℤ
  pub one_hour_threshold : ℤ
  pub twenty_four_hour_threshold : ℤ
  pub percentage_based_enabled : Bool
  pub historical_multiplier : ℕ

pub record CooldownConfig : Type 0 where
  pub base_cooldown_seconds : ℕ
  pub max_cooldown_seconds : ℕ
  pub exponential_backoff_enabled : Bool
  pub backoff_multiplier : ℕ

pub data CircuitBreakerError : Type 0 where
  invalid_configuration invalid_single_tip_threshold : CircuitBreakerError
  invalid_volume_threshold invalid_cooldown_duration : CircuitBreakerError
  invalid_rate_limit invalid_confidence_threshold : CircuitBreakerError
  invalid_backoff_multiplier : CircuitBreakerError

-- `Result<(), CircuitBreakerError>`
pub data Verdict : Type 0 where
  accepted : Verdict
  refused : CircuitBreakerError → Verdict

-- The tests of the four volume thresholds, which both validations begin with, and what follows them.
unfoldable pub validate_volumes : ℤ → ℤ → ℤ → ℤ → Verdict → Verdict
validate_volumes minute five hour day rest =
    if leb_ℤ minute (pos 0)
    then refused invalid_volume_threshold
    else if leb_ℤ five (pos 0)
    then refused invalid_volume_threshold
    else if leb_ℤ hour (pos 0)
    then refused invalid_volume_threshold
    else if leb_ℤ day (pos 0)
    then refused invalid_volume_threshold
    else if ltb_ℤ five minute
    then refused invalid_volume_threshold
    else if ltb_ℤ hour five
    then refused invalid_volume_threshold
    else if ltb_ℤ day hour
    then refused invalid_volume_threshold
    else rest

-- The tests of the cooldown's parameters, with which two validations end.
unfoldable pub validate_backoff : ℕ → ℕ → Bool → ℕ → Verdict
validate_backoff base longest backoff multiplier =
    if nat_beq base 0
    then refused invalid_cooldown_duration
    else if nat_beq longest 0
    then refused invalid_cooldown_duration
    else if ltb longest base
    then refused invalid_cooldown_duration
    else if backoff && leb multiplier 10_000
    then refused invalid_backoff_multiplier
    else accepted

unfoldable pub validate : EnhancedCircuitBreakerConfig → Verdict
unfolding validate_volumes validate_backoff
validate c =
    if leb_ℤ c.max_single_tip (pos 0)
    then refused invalid_single_tip_threshold
    else validate_volumes c.one_minute_threshold c.five_minute_threshold c.one_hour_threshold
        c.twenty_four_hour_threshold
        (if nat_beq c.max_tips_per_minute 0
          then refused invalid_rate_limit
          else if nat_beq c.max_tips_per_creator_per_min 0
          then refused invalid_rate_limit
          else if ltb 10_000 c.anomaly_confidence_threshold
          then refused invalid_confidence_threshold
          else validate_backoff c.base_cooldown_seconds c.max_cooldown_seconds
              c.exponential_backoff_enabled c.backoff_multiplier)

unfoldable pub validate_thresholds : VolumeThresholds → Verdict
unfolding validate_volumes
validate_thresholds t =
    validate_volumes t.one_minute_threshold t.five_minute_threshold t.one_hour_threshold
      t.twenty_four_hour_threshold accepted

unfoldable pub validate_cooldowns : CooldownConfig → Verdict
unfolding validate_backoff
validate_cooldowns c =
    validate_backoff c.base_cooldown_seconds c.max_cooldown_seconds c.exponential_backoff_enabled
      c.backoff_multiplier

abbrev pub default_config : EnhancedCircuitBreakerConfig
default_config = record {
  max_single_tip = pos 1_000_000_000;
  one_minute_threshold = pos 10_000_000_000;
  five_minute_threshold = pos 40_000_000_000;
  one_hour_threshold = pos 200_000_000_000;
  twenty_four_hour_threshold = pos 2_000_000_000_000;
  max_tips_per_minute = 1000;
  max_tips_per_creator_per_min = 100;
  anomaly_detection_enabled = true;
  anomaly_confidence_threshold = 7500;
  pattern_analysis_enabled = true;
  base_cooldown_seconds = 300;
  max_cooldown_seconds = 86400;
  exponential_backoff_enabled = true;
  backoff_multiplier = 15000;
  enabled = true;
  emergency_mode = false;
  maintenance_mode = false;
}

abbrev pub default_thresholds : VolumeThresholds
default_thresholds = record {
  one_minute_threshold = pos 10_000_000_000;
  five_minute_threshold = pos 40_000_000_000;
  one_hour_threshold = pos 200_000_000_000;
  twenty_four_hour_threshold = pos 2_000_000_000_000;
  percentage_based_enabled = true;
  historical_multiplier = 20000;
}

abbrev pub default_cooldowns : CooldownConfig
default_cooldowns = record {
  base_cooldown_seconds = 300;
  max_cooldown_seconds = 86400;
  exponential_backoff_enabled = true;
  backoff_multiplier = 15000;
}

pub data TimeWindow : Type 0 where
  one_minute five_minutes one_hour twenty_four_hours : TimeWindow

pub record VolumeWindow : Type 0 where
  pub window_start : ℕ
  pub current_volume : ℤ
  pub tip_count : ℕ
  pub unique_senders : ℕ
  pub max_single_tip : ℤ

pub record RateLimitState : Type 0 where
  pub current_minute_start : ℕ
  pub tips_this_minute : ℕ

pub record HistoricalStats : Type 0 where
  pub average_tip_amount : ℤ
  pub standard_deviation : ℤ
  pub average_tips_per_minute : ℕ
  pub unique_senders_per_hour : ℕ
  pub last_update : ℕ
  pub sample_count : ℕ

pub record AnomalyDetectionState : Type 0 where
  pub historical_stats : HistoricalStats
  pub sender_clustering_score : ℕ
  pub velocity_anomaly_score : ℕ
  pub amount_deviation_score : ℕ
  pub overall_confidence : ℕ
  pub last_analysis_time : ℕ

pub data TriggerType : Type 0 where
  no_trigger single_tip_spike : TriggerType
  volume_spike : TimeWindow → TriggerType
  rate_limit anomaly_detection pattern_analysis price_volatility manual : TriggerType

pub data TriggerSeverity : Type 0 where
  no_severity low medium high critical : TriggerSeverity

pub data OptAnomalyDetectionState : Type 0 where
  absent : OptAnomalyDetectionState
  present : AnomalyDetectionState → OptAnomalyDetectionState

pub record EnhancedCircuitBreakerState : Type 0 where
  pub halted_until : ℕ
  pub halt_reason : TriggerType
  pub halt_severity : TriggerSeverity
  pub one_minute_window : VolumeWindow
  pub five_minute_window : VolumeWindow
  pub one_hour_window : VolumeWindow
  pub twenty_four_hour_window : VolumeWindow
  pub rate_limit_state : RateLimitState
  pub trigger_count : ℕ
  pub last_trigger_time : ℕ
  pub anomaly_state : OptAnomalyDetectionState
  pub total_halts : ℕ
  pub total_halt_duration : ℕ

-- The window with nothing in it, which a new state and a reset write.
abbrev pub empty_window : ℕ → VolumeWindow
empty_window now = record {
  window_start = now;
  current_volume = pos 0;
  tip_count = 0;
  unique_senders = 0;
  max_single_tip = pos 0;
}

unfoldable pub new_state : ℕ → EnhancedCircuitBreakerState
new_state now = record {
  halted_until = 0;
  halt_reason = no_trigger;
  halt_severity = no_severity;
  one_minute_window = empty_window now;
  five_minute_window = empty_window now;
  one_hour_window = empty_window now;
  twenty_four_hour_window = empty_window now;
  rate_limit_state = record { current_minute_start = now; tips_this_minute = 0 };
  trigger_count = 0;
  last_trigger_time = 0;
  anomaly_state = absent;
  total_halts = 0;
  total_halt_duration = 0;
}

unfoldable pub is_halted : EnhancedCircuitBreakerState → ℕ → Bool
is_halted s now = ltb now s.halted_until

-- The saturating subtraction.
unfoldable pub remaining_cooldown : EnhancedCircuitBreakerState → ℕ → ℕ
remaining_cooldown s now = s.halted_until - now
