-- ===== src/CircuitBreaker/Triggers.antt =====
-- The modules trigger_engine and cooldown_manager of
-- contracts/tipjar-legacy/src/circuit_breaker.rs: when a tip is a spike, and how long a halt lasts.
use stellar_tipjar_contracts.Common.{
  ℕ, zero, suc, ◌-◌, ◌/◌, ◌&&◌, Option, none, some, List, [], ◌∷◌, ltb, nat_beq, if◌then◌else◌,
}
use stellar_tipjar_contracts.Common.Int.{ℤ, ltb_ℤ}
use stellar_tipjar_contracts.Common.Saturating.{
  u32_max, u64_max, min, max, saturating_add, saturating_mul, mul_u64, div_or_trap,
}
use stellar_tipjar_contracts.Soroban.{Address}
use stellar_tipjar_contracts.CircuitBreaker.{
  EnhancedCircuitBreakerConfig, EnhancedCircuitBreakerState, TriggerType, TriggerSeverity,
  no_severity, low, medium, high, critical,
}

unfoldable pub check_single_tip_spike :
    EnhancedCircuitBreakerConfig → ℤ → Address → Address → Option TriggerSeverity
check_single_tip_spike config amount creator token =
    if config.enabled
    then (if ltb_ℤ config.max_single_tip amount then some high else none)
    else none

unfoldable pub check_creator_specific_limit : Address → ℤ → Option ℤ → Option TriggerSeverity
check_creator_specific_limit creator amount none = none
check_creator_specific_limit creator amount (some limit) =
    if ltb_ℤ limit amount then some medium else none

unfoldable pub check_token_specific_limit : Address → ℤ → Option ℤ → Option TriggerSeverity
check_token_specific_limit token amount none = none
check_token_specific_limit token amount (some limit) =
    if ltb_ℤ limit amount then some medium else none

-- The cooldown that a severity starts from, of which two modules have a copy.
unfoldable pub base_for : EnhancedCircuitBreakerConfig → TriggerSeverity → ℕ
base_for config no_severity = config.base_cooldown_seconds / 2
base_for config low = config.base_cooldown_seconds / 2
base_for config medium = config.base_cooldown_seconds
base_for config high = mul_u64 config.base_cooldown_seconds 2
base_for config critical = mul_u64 config.base_cooldown_seconds 4

-- The loop of the backoff.
unfoldable pub backed_off : ℕ → ℕ → ℕ → ℕ
backed_off zero multiplier adjusted = adjusted
backed_off (suc n) multiplier adjusted =
    backed_off n multiplier (saturating_mul u64_max adjusted multiplier / 10_000)

unfoldable pub calculate_cooldown : EnhancedCircuitBreakerConfig → TriggerSeverity → ℕ → ℕ
calculate_cooldown config severity trigger_count =
    let cooldown : ℕ =
      if config.exponential_backoff_enabled && ltb 0 trigger_count
      then backed_off (min trigger_count 5) config.backoff_multiplier (base_for config severity)
      else base_for config severity in
    max (min cooldown config.max_cooldown_seconds) config.base_cooldown_seconds

unfoldable pub trigger_immediate_halt :
    EnhancedCircuitBreakerState
    → EnhancedCircuitBreakerConfig
    → TriggerType
    → TriggerSeverity
    → ℕ
    → EnhancedCircuitBreakerState
trigger_immediate_halt s config trigger severity now =
    let cooldown : ℕ = calculate_cooldown config severity s.trigger_count in
    record s {
      halted_until = saturating_add u64_max now cooldown;
      halt_reason = trigger;
      halt_severity = severity;
      trigger_count = saturating_add u32_max s.trigger_count 1;
      last_trigger_time = now;
      total_halts = saturating_add u32_max s.total_halts 1;
      total_halt_duration = saturating_add u64_max s.total_halt_duration cooldown;
    }

unfoldable pub apply_exponential_backoff : ℕ → ℕ → ℕ → ℕ → ℕ → ℕ
apply_exponential_backoff base trigger_count multiplier last_trigger_time now =
    if ltb 3600 (now - last_trigger_time)
    then base
    else backed_off (min trigger_count 5) multiplier base

unfoldable pub enforce_cooldown_bounds : ℕ → EnhancedCircuitBreakerConfig → ℕ
enforce_cooldown_bounds cooldown config =
    min (max cooldown config.base_cooldown_seconds) config.max_cooldown_seconds

unfoldable pub calculate_cooldown_period :
    EnhancedCircuitBreakerConfig → TriggerSeverity → ℕ → ℕ → ℕ → ℕ
calculate_cooldown_period config severity trigger_count last_trigger_time now =
    let cooldown : ℕ =
      if config.exponential_backoff_enabled && ltb 0 trigger_count
      then apply_exponential_backoff (base_for config severity) trigger_count
          config.backoff_multiplier last_trigger_time now
      else base_for config severity in
    enforce_cooldown_bounds cooldown config

unfoldable pub calculate_creator_cooldown : ℕ → Option ℕ → ℕ
calculate_creator_cooldown base none = base
calculate_creator_cooldown base (some multiplier) = saturating_mul u64_max base multiplier / 10_000

unfoldable pub select_longest_cooldown : List ℕ → ℕ
select_longest_cooldown [] = 0
select_longest_cooldown (c ∷ cs) = max c (select_longest_cooldown cs)

-- The stage's length is 0 where there are more stages than seconds, and the division by it traps.
unfoldable pub calculate_graduated_recovery : ℕ → ℕ → ℕ → Option ℕ
calculate_graduated_recovery total_cooldown elapsed stages =
    if nat_beq stages 0
    then some 0
    else if nat_beq total_cooldown 0
    then some 0
    else elim (div_or_trap elapsed (total_cooldown / stages)) [
      | none ↦ none
      | some stage ↦ some (min stage stages)
    ]
