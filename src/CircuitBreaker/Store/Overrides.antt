-- ===== src/CircuitBreaker/Store/Overrides.antt =====
-- The modules manual_override and emergency_mode of
-- contracts/tipjar-legacy/src/circuit_breaker.rs: what an admin does to a halt and to the modes.
use stellar_tipjar_contracts.Common.{
  nat_eq, ℕ, ◌-◌, ◌/◌, Bool, true, false, ◌||◌, some, ltb, if◌then◌else◌,
}
use stellar_tipjar_contracts.Soroban.{Address, Env, pure, modify, require_auth, ◌>>=◌, ◌>>◌}
use stellar_tipjar_contracts.CircuitBreaker.{
  EnhancedCircuitBreakerConfig, EnhancedCircuitBreakerState, invalid_configuration, Verdict,
  accepted, refused, manual, TriggerSeverity, default_config,
}
use stellar_tipjar_contracts.CircuitBreaker.Triggers.{calculate_cooldown_period}
use stellar_tipjar_contracts.CircuitBreaker.Halts
use stellar_tipjar_contracts.CircuitBreaker.Halts.{
  activate_halt, perform_automatic_recovery, get_halt_status,
}
use stellar_tipjar_contracts.CircuitBreaker.Store.{
  Event, Call, publish, triggered_manually, was_reset, halt_extended, emergency_on, emergency_off,
  maintenance_on, maintenance_off,
}

-- The functions below are handed the breaker's state, and return what they make of it.
unfoldable pub manual_trigger :
    Env
    → Address
    → EnhancedCircuitBreakerState
    → EnhancedCircuitBreakerConfig
    → ℕ
    → TriggerSeverity
    → Call EnhancedCircuitBreakerState
unfolding ◌>>=◌ ◌>>◌
manual_trigger env admin state config reason severity = do
  require_auth env admin
  let halted : EnhancedCircuitBreakerState =
      activate_halt state config manual severity env.timestamp
  publish (triggered_manually admin reason severity halted.halted_until)
  pure halted

unfoldable pub manual_reset :
    Env
    → Address
    → EnhancedCircuitBreakerState
    → Bool
    → Call (EnhancedCircuitBreakerState × Verdict)
unfolding ◌>>=◌ ◌>>◌
manual_reset env admin state force = do
  require_auth env admin
  let elapsed : ℕ = env.timestamp - state.last_trigger_time
  let min_elapsed : ℕ = calculate_cooldown_period default_config state.halt_severity 0 0 0 / 2
  if (if force then false else ltb elapsed min_elapsed)
      then pure (state, refused invalid_configuration)
      else do
        publish (was_reset admin force env.timestamp)
        pure (perform_automatic_recovery state env.timestamp, accepted)

unfoldable pub extend_halt :
    Env → Address → EnhancedCircuitBreakerState → ℕ → Call (EnhancedCircuitBreakerState × Verdict)
unfolding ◌>>=◌ ◌>>◌
extend_halt env admin state seconds = do
  require_auth env admin
  let outcome : EnhancedCircuitBreakerState × Verdict =
      Halts.extend_halt state seconds env.timestamp
  elim outcome.1 [
    | refused e ↦ pure (outcome.0, refused e)
    | accepted ↦ do
      publish (halt_extended admin seconds outcome.0.halted_until)
      pure (outcome.0, accepted)
  ]

-- Stores a config that one of the four switches has changed.
abbrev pub switch : EnhancedCircuitBreakerConfig → Event → Call EnhancedCircuitBreakerConfig
unfolding ◌>>=◌ ◌>>◌
switch config event = do
  modify (λ s. record s { enhanced_config = some config })
  publish event
  pure config

unfoldable pub enable_emergency_mode :
    Env → Address → EnhancedCircuitBreakerConfig → ℕ → Call EnhancedCircuitBreakerConfig
unfolding ◌>>=◌ ◌>>◌
enable_emergency_mode env admin config reason = do
  require_auth env admin
  switch (record config { emergency_mode = true }) (emergency_on admin reason)

unfoldable pub disable_emergency_mode :
    Env → Address → EnhancedCircuitBreakerConfig → Call EnhancedCircuitBreakerConfig
unfolding ◌>>=◌ ◌>>◌
disable_emergency_mode env admin config = do
  require_auth env admin
  switch (record config { emergency_mode = false }) (emergency_off admin)

unfoldable pub enable_maintenance_mode :
    Env → Address → EnhancedCircuitBreakerConfig → Call EnhancedCircuitBreakerConfig
unfolding ◌>>=◌ ◌>>◌
enable_maintenance_mode env admin config = do
  require_auth env admin
  switch (record config { maintenance_mode = true }) (maintenance_on admin)

unfoldable pub disable_maintenance_mode :
    Env → Address → EnhancedCircuitBreakerConfig → Call EnhancedCircuitBreakerConfig
unfolding ◌>>=◌ ◌>>◌
disable_maintenance_mode env admin config = do
  require_auth env admin
  switch (record config { maintenance_mode = false }) (maintenance_off admin)

unfoldable pub is_system_locked : EnhancedCircuitBreakerConfig → Bool
is_system_locked config = config.emergency_mode || config.maintenance_mode
