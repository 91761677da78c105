-- ===== src/CircuitBreaker/Guard.antt =====
-- The modules optimization and guard of contracts/tipjar-legacy/src/circuit_breaker.rs: the check that
-- a tip passes, and what it makes of the stored state.
use stellar_tipjar_contracts.Common.{ℕ, Bool, not, Option, none, some, get_or, if◌then◌else◌}
use stellar_tipjar_contracts.Common.Int.{ℤ}
use stellar_tipjar_contracts.Common.Saturating.{sub_u64}
use stellar_tipjar_contracts.Soroban.{
  Address, Env, pure, gets, or_trap, modify, require_auth, ◌>>=◌, ◌>>◌,
}
use stellar_tipjar_contracts.CircuitBreaker.{
  EnhancedCircuitBreakerConfig, EnhancedCircuitBreakerState, invalid_configuration, Verdict,
  accepted, refused, TriggerType, single_tip_spike, TriggerSeverity, default_config, new_state,
  is_halted,
}
use stellar_tipjar_contracts.CircuitBreaker.Triggers.{check_single_tip_spike}
use stellar_tipjar_contracts.CircuitBreaker.Volumes.{
  Finding, check_rate_limit_trigger, check_all_volume_thresholds, update_all_windows,
  update_rate_limit_state,
}
use stellar_tipjar_contracts.CircuitBreaker.Anomalies.{update_anomaly_state, check_anomaly_trigger}
use stellar_tipjar_contracts.CircuitBreaker.Halts.{
  activate_halt, check_automatic_recovery, perform_automatic_recovery, should_block_operations,
}
use stellar_tipjar_contracts.CircuitBreaker.Store.{
  Store, Call, HaltStatusResult, automatic, trigger_symbol, auto_symbol, get_cached_config,
  get_cached_state, update_config_cache, update_state_cache, emit_recovery_event,
  emit_trigger_event, emit_config_update_event,
}
use stellar_tipjar_contracts.CircuitBreaker.Store.Audits.{
  get_current_audit_id, record_audit_entry, check_and_emit_status,
}
use stellar_tipjar_contracts.CircuitBreaker.Store.Queries.{get_volume_stats, get_halt_status}

unfoldable pub should_skip_checks : EnhancedCircuitBreakerConfig → Bool
should_skip_checks config = not config.enabled

-- The state with its anomaly scores brought up to date, and what they show. `none` where the score's
-- division traps.
unfoldable pub lazy_anomaly_check :
    Env
    → EnhancedCircuitBreakerState
    → EnhancedCircuitBreakerConfig
    → ℤ
    → Option (EnhancedCircuitBreakerState × Finding)
lazy_anomaly_check env s config amount =
    if config.anomaly_detection_enabled
    then elim (update_anomaly_state s.anomaly_state amount env.timestamp) [
      | none ↦ none
      | some a ↦ some (record s { anomaly_state = a }, check_anomaly_trigger a config)
    ]
    else some (s, none)

-- What follows the tests of the amount and of the halt: the rate, the volumes, the anomalies.
unfoldable pub check_history :
    Env
    → EnhancedCircuitBreakerState × Finding
    → EnhancedCircuitBreakerConfig
    → ℤ
    → Option (EnhancedCircuitBreakerState × Finding)
check_history env (s, some found) config amount = some (s, some found)
check_history env (s, none) config amount =
    elim (check_all_volume_thresholds s config env.timestamp) [
      | some found ↦ some (s, some found)
      | none ↦ lazy_anomaly_check env s config amount
    ]

unfoldable pub optimized_check_sequence :
    Env
    → EnhancedCircuitBreakerState
    → EnhancedCircuitBreakerConfig
    → ℤ
    → Address
    → Address
    → Option (EnhancedCircuitBreakerState × Finding)
optimized_check_sequence env s config amount creator token =
    if is_halted s env.timestamp
    then some (s, some (s.halt_reason, s.halt_severity))
    else if should_skip_checks config
    then some (s, none)
    else elim (check_single_tip_spike config amount creator token) [
      | some severity ↦ some (s, some (single_tip_spike, severity))
      | none ↦ check_history env (check_rate_limit_trigger s config env.timestamp) config amount
    ]

unfoldable pub updated_by : EnhancedCircuitBreakerState → ℤ → ℕ → EnhancedCircuitBreakerState
updated_by s amount now =
    let t : EnhancedCircuitBreakerState = update_all_windows s amount now in
    record t { rate_limit_state = update_rate_limit_state t.rate_limit_state now }

abbrev pub batch_state_updates : Env → EnhancedCircuitBreakerState → ℤ → Call (Unit {0})
batch_state_updates env s amount = modify (update_state_cache (updated_by s amount env.timestamp))

-- The recovery at the start of a check, with its event.
unfoldable pub recover : Env → EnhancedCircuitBreakerState → Call EnhancedCircuitBreakerState
unfolding ◌>>=◌ ◌>>◌
recover env s =
    if check_automatic_recovery s env.timestamp
    then (do
      recovery_id ← gets get_current_audit_id
      emit_recovery_event recovery_id automatic none s.total_halt_duration
      pure (perform_automatic_recovery s env.timestamp))
    else pure s

-- What a trigger does: the halt, its event, the audit entry, and the state's store.
unfoldable pub halt :
    Env
    → EnhancedCircuitBreakerState
    → EnhancedCircuitBreakerConfig
    → TriggerType
    → TriggerSeverity
    → Call Verdict
unfolding ◌>>=◌ ◌>>◌
halt env s config trigger severity = do
  let t : EnhancedCircuitBreakerState = activate_halt s config trigger severity env.timestamp
  emit_trigger_event t.trigger_count trigger severity (sub_u64 t.halted_until env.timestamp)
      (some (get_volume_stats t))
  _ ← record_audit_entry env trigger_symbol none auto_symbol
  modify (update_state_cache t)
  pure (refused invalid_configuration)

-- What the checks' finding leads to: a halt, or the counting of the tip.
unfoldable pub act_on :
    Env → EnhancedCircuitBreakerConfig → ℤ → EnhancedCircuitBreakerState × Finding → Call Verdict
unfolding ◌>>=◌ ◌>>◌
act_on env config amount (s, some (trigger, severity)) = halt env s config trigger severity
act_on env config amount (s, none) = do batch_state_updates env s amount; pure accepted

-- A refused tip, with a status event where one is due. The error's code, which is not used, is left
-- out.
unfoldable pub blocked : Env → EnhancedCircuitBreakerState → Call Verdict
unfolding ◌>>=◌ ◌>>◌
blocked env s = do check_and_emit_status env s none; pure (refused invalid_configuration)

unfoldable pub checked :
    Env
    → EnhancedCircuitBreakerState
    → EnhancedCircuitBreakerConfig
    → ℤ
    → Address
    → Address
    → Call Verdict
unfolding ◌>>=◌ ◌>>◌
checked env s config amount creator token = do
  found ← or_trap (optimized_check_sequence env s config amount creator token)
  act_on env config amount found

-- The check under a config that is enabled.
unfoldable pub check_enabled :
    Env → EnhancedCircuitBreakerConfig → ℤ → Address → Address → Call Verdict
unfolding ◌>>=◌ ◌>>◌
check_enabled env config amount creator token = do
  cached ← gets get_cached_state
  s ← recover env (get_or (new_state env.timestamp) cached)
  if should_block_operations s config env.timestamp
      then blocked env s
      else checked env s config amount creator token

-- Without a config, or with one that is not enabled, every tip passes.
unfoldable pub check_under :
    Env → ℤ → Address → Address → Option EnhancedCircuitBreakerConfig → Call Verdict
check_under env amount creator token none = pure accepted
check_under env amount creator token (some config) =
    if should_skip_checks config
    then pure accepted
    else check_enabled env config amount creator token

unfoldable pub check_circuit_breaker : Env → ℤ → Address → Address → Call Verdict
unfolding ◌>>=◌ ◌>>◌
check_circuit_breaker env amount creator token = do
  cached ← get_cached_config
  check_under env amount creator token cached

unfoldable pub initialize_circuit_breaker : Env → Address → Call (Unit {0})
unfolding ◌>>=◌ ◌>>◌
initialize_circuit_breaker env admin = do
  require_auth env admin
  modify (update_config_cache default_config)
  modify (update_state_cache (new_state env.timestamp))
  emit_config_update_event admin default_config

unfoldable pub get_status : Env → Store → HaltStatusResult
get_status env s = get_halt_status env (get_or (new_state env.timestamp) (get_cached_state s))
