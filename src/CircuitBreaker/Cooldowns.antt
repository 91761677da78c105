-- ===== src/CircuitBreaker/Cooldowns.antt =====
-- How long a halt lasts: the bounds of the cooldown, and its two computations compared.
use stellar_tipjar_contracts.Common.{ℕ, ◌+◌, ◌-◌, ◌≤◌, ◌≡◌, Bool, false, ltb, arith}
use stellar_tipjar_contracts.Common.Saturating.{u64_max, min, max, saturating_add}
use stellar_tipjar_contracts.CircuitBreaker.{
  EnhancedCircuitBreakerConfig, EnhancedCircuitBreakerState, TriggerType, TriggerSeverity, accepted,
  validate, validate_volumes, validate_backoff, is_halted,
}
use stellar_tipjar_contracts.CircuitBreaker.Triggers.{
  calculate_cooldown, calculate_cooldown_period, apply_exponential_backoff, enforce_cooldown_bounds,
}
use stellar_tipjar_contracts.CircuitBreaker.Halts.{activate_halt}

validate_backoff-ordered :
    (base longest multiplier : ℕ) (backoff : Bool)
    → validate_backoff base longest backoff multiplier ≡ accepted
    → base ≤ longest
unfolding validate_backoff
validate_backoff-ordered base longest multiplier backoff h = ground arith

-- A validated config has its cooldowns in order.
pub validate-ordered :
    (config : EnhancedCircuitBreakerConfig)
    → validate config ≡ accepted
    → config.base_cooldown_seconds ≤ config.max_cooldown_seconds
unfolding validate validate_volumes
validate-ordered config h = ground (
  arith,
  validate_backoff-ordered config.base_cooldown_seconds config.max_cooldown_seconds
      config.backoff_multiplier config.exponential_backoff_enabled,
)

between :
    (c low high : ℕ) → low ≤ high → (low ≤ max (min c high) low) × (max (min c high) low ≤ high)
unfolding max min
between c low high h = ground arith

either_order : (c low high : ℕ) → low ≤ high → max (min c high) low ≡ min (max c low) high
unfolding max min
either_order c low high h = ground arith

-- Under a config that `validate` accepts, the cooldown of any severity after any number of triggers is
-- from the base up to the maximum.
pub calculate_cooldown-bounds :
    (config : EnhancedCircuitBreakerConfig) (level : TriggerSeverity) (trigger_count : ℕ)
    → validate config ≡ accepted
    → (config.base_cooldown_seconds ≤ calculate_cooldown config level trigger_count)
      × (calculate_cooldown config level trigger_count ≤ config.max_cooldown_seconds)
unfolding calculate_cooldown
calculate_cooldown-bounds config level trigger_count h =
    between _ config.base_cooldown_seconds config.max_cooldown_seconds (validate-ordered config h)

-- Under a validated config and within an hour of the last trigger the two computations agree.
calculate_cooldown-eq-calculate_cooldown_period :
    (config : EnhancedCircuitBreakerConfig) (level : TriggerSeverity) (trigger_count last now : ℕ)
    → validate config ≡ accepted
    → now - last ≤ 3600
    → calculate_cooldown config level trigger_count
      ≡ calculate_cooldown_period config level trigger_count last now
unfolding calculate_cooldown calculate_cooldown_period apply_exponential_backoff
    enforce_cooldown_bounds
calculate_cooldown-eq-calculate_cooldown_period config level trigger_count last now h k =
    let recent : ltb 3600 (now - last) ≡ false = ground arith in
    rw recent (
      either_order _ config.base_cooldown_seconds config.max_cooldown_seconds
        (validate-ordered config h))

-- After a halt begins, it blocks just until the cooldown is over.
activate_halt-is_halted :
    (s : EnhancedCircuitBreakerState) (config : EnhancedCircuitBreakerConfig) (cause : TriggerType)
    (level : TriggerSeverity) (now later : ℕ)
    → validate config ≡ accepted
    → now + config.max_cooldown_seconds ≤ u64_max
    → now ≤ later
    → is_halted (activate_halt s config cause level now) later
      ≡ ltb later (now + calculate_cooldown config level s.trigger_count)
unfolding is_halted activate_halt saturating_add min
activate_halt-is_halted s config cause level now later h k l =
    ground (arith, calculate_cooldown-bounds config level s.trigger_count h)
