-- ===== src/CircuitBreaker/Store.antt =====
-- What the circuit breaker of contracts/tipjar-legacy/src/circuit_breaker.rs stores, and its modules
-- events, admin and cache.
pub mod Overrides
pub mod Audits
pub mod Queries
use stellar_tipjar_contracts.Common.{
  nat_eq, ℕ, zero, suc, ◌+◌, ◌-◌, ◌/◌, Bool, true, false, ◌||◌, Option, none, some, List, [], ◌∷◌,
  ltb, leb, get_or, if◌then◌else◌,
}
use stellar_tipjar_contracts.Common.Int.{ℤ, pos, leb_ℤ}
use stellar_tipjar_contracts.Common.Map.{Map, get, set, remove}
use stellar_tipjar_contracts.Common.Saturating.{u64_max, saturating_add}
use stellar_tipjar_contracts.Soroban.{
  Address, Env, M, pure, gets, modify, require_auth, ◌>>=◌, ◌>>◌,
}
use stellar_tipjar_contracts.CircuitBreaker.{
  EnhancedCircuitBreakerConfig, EnhancedCircuitBreakerState, CircuitBreakerError,
  invalid_configuration, invalid_single_tip_threshold, Verdict, accepted, refused, TimeWindow,
  TriggerType, manual, TriggerSeverity, validate, default_config, new_state, is_halted,
  remaining_cooldown,
}
use stellar_tipjar_contracts.CircuitBreaker.Triggers.{calculate_cooldown_period}
use stellar_tipjar_contracts.CircuitBreaker.Volumes.{update_all_windows}
use stellar_tipjar_contracts.CircuitBreaker.Halts
use stellar_tipjar_contracts.CircuitBreaker.Halts.{
  activate_halt, perform_automatic_recovery, get_halt_status,
}

-- Symbols and the texts of reasons are only stored and handed on.
abbrev pub Symbol : Type 0
Symbol = ℕ

abbrev pub trigger_symbol : Symbol
trigger_symbol = 0

abbrev pub auto_symbol : Symbol
auto_symbol = 1

pub record AuditEntry : Type 0 where
  pub entry_id : ℕ
  pub timestamp : ℕ
  pub action : Symbol
  pub admin : Option Address
  pub details : Symbol

pub record HaltStatusResult : Type 0 where
  pub halted : Bool
  pub halt_reason : TriggerType
  pub halt_severity : TriggerSeverity
  pub remaining_cooldown : ℕ
  pub halted_until : ℕ

pub record VolumeStatsResult : Type 0 where
  pub one_minute_volume : ℤ
  pub five_minute_volume : ℤ
  pub one_hour_volume : ℤ
  pub twenty_four_hour_volume : ℤ
  pub one_minute_tip_count : ℕ
  pub five_minute_tip_count : ℕ

pub data RecoveryType : Type 0 where
  automatic by_manual_reset by_manual_force emergency_override : RecoveryType

-- The events, whose topics are the constructors' names.
pub data Event : Type 0 where
  config_set : Address → EnhancedCircuitBreakerConfig → Event
  creator_limit_set token_limit_set : Address → ℤ → Event
  creator_limit_removed : Address → Event
  triggered_manually : Address → ℕ → TriggerSeverity → ℕ → Event
  was_reset : Address → Bool → ℕ → Event
  halt_extended : Address → ℕ → ℕ → Event
  emergency_on : Address → ℕ → Event
  emergency_off maintenance_on maintenance_off : Address → Event
  triggered : ℕ → TriggerType → TriggerSeverity → ℕ → Option VolumeStatsResult → Event
  recovered : ℕ → RecoveryType → Option Address → ℕ → Event
  status : ℕ → TriggerType → TriggerSeverity → ℕ → Event
  audited : Symbol → Option Address → Symbol → ℕ → Event
  threshold_warning : TimeWindow → ℤ → ℤ → ℕ → Event
  anomaly : ℕ → ℕ → ℕ → ℕ → ℕ → Event

-- One field for each storage key that the file uses, and the log of events, newest first.
pub record Store : Type 0 where
  pub enhanced_config : Option EnhancedCircuitBreakerConfig
  pub creator_overrides : Map Address ℤ
  pub token_limits : Map Address ℤ
  pub cache_config : Option EnhancedCircuitBreakerConfig
  pub cache_state : Option EnhancedCircuitBreakerState
  pub cache_valid : Option Bool
  pub audit_counter : Option ℕ
  pub audit_entries : Map ℕ AuditEntry
  pub last_status : Option ℕ
  pub log : List Event

-- An error that a function returns is a `Verdict`: the state stays as the function has left it.
abbrev pub Call : Type 0 → Type 0
Call A = M Store CircuitBreakerError A

abbrev pub publish : Event → Call (Unit {0})
publish e = modify (λ s. record s { log = e ∷ s.log })

unfoldable pub set_enhanced_config : Env → Address → EnhancedCircuitBreakerConfig → Call Verdict
unfolding ◌>>=◌ ◌>>◌
set_enhanced_config env admin config = do
  require_auth env admin
  elim (validate config) [
    | refused e ↦ pure (refused e)
    | accepted ↦ do
      modify (λ s. record s { enhanced_config = some config })
      publish (config_set admin config)
      pure accepted
  ]

unfoldable pub get_enhanced_config : Store → Option EnhancedCircuitBreakerConfig
get_enhanced_config s = s.enhanced_config

unfoldable pub set_creator_limit : Env → Address → Address → ℤ → Call Verdict
unfolding ◌>>=◌ ◌>>◌
set_creator_limit env admin creator limit = do
  require_auth env admin
  if leb_ℤ limit (pos 0) then pure (refused invalid_single_tip_threshold) else do
    modify (λ s. record s { creator_overrides = set creator limit s.creator_overrides })
    publish (creator_limit_set creator limit)
    pure accepted

unfoldable pub remove_creator_limit : Env → Address → Address → Call (Unit {0})
unfolding ◌>>=◌ ◌>>◌
remove_creator_limit env admin creator = do
  require_auth env admin
  modify (λ s. record s { creator_overrides = remove creator s.creator_overrides })
  publish (creator_limit_removed creator)

unfoldable pub get_creator_limit : Address → Store → Option ℤ
get_creator_limit creator s = get creator s.creator_overrides

unfoldable pub set_token_limit : Env → Address → Address → ℤ → Call Verdict
unfolding ◌>>=◌ ◌>>◌
set_token_limit env admin token limit = do
  require_auth env admin
  if leb_ℤ limit (pos 0) then pure (refused invalid_single_tip_threshold) else do
    modify (λ s. record s { token_limits = set token limit s.token_limits })
    publish (token_limit_set token limit)
    pure accepted

unfoldable pub get_token_limit : Address → Store → Option ℤ
get_token_limit token s = get token s.token_limits

abbrev pub emit_trigger_event :
    ℕ → TriggerType → TriggerSeverity → ℕ → Option VolumeStatsResult → Call (Unit {0})
emit_trigger_event id trigger severity cooldown stats =
    publish (triggered id trigger severity cooldown stats)

abbrev pub emit_recovery_event : ℕ → RecoveryType → Option Address → ℕ → Call (Unit {0})
emit_recovery_event id kind admin duration = publish (recovered id kind admin duration)

abbrev pub emit_config_update_event : Address → EnhancedCircuitBreakerConfig → Call (Unit {0})
emit_config_update_event admin config = publish (config_set admin config)

abbrev pub emit_status_event : Env → EnhancedCircuitBreakerState → ℕ → Call (Unit {0})
emit_status_event env state remaining =
    publish (status env.timestamp state.halt_reason state.halt_severity remaining)

abbrev pub emit_audit_event : Env → Symbol → Option Address → Symbol → Call (Unit {0})
emit_audit_event env action admin details = publish (audited action admin details env.timestamp)

abbrev pub emit_threshold_warning : TimeWindow → ℤ → ℤ → ℕ → Call (Unit {0})
emit_threshold_warning window volume threshold percentage =
    publish (threshold_warning window volume threshold percentage)

abbrev pub emit_anomaly_event : Env → ℕ → ℕ → ℕ → ℕ → Call (Unit {0})
emit_anomaly_event env confidence clustering velocity amount =
    publish (anomaly env.timestamp confidence clustering velocity amount)

abbrev pub is_cache_valid : Store → Bool
is_cache_valid s = get_or false s.cache_valid

unfoldable pub update_config_cache : EnhancedCircuitBreakerConfig → Store → Store
update_config_cache config s = record s { cache_config = some config; cache_valid = some true }

-- What the storage holds goes to the cache.
unfoldable pub load_config : Call (Option EnhancedCircuitBreakerConfig)
load_config s = elim (get_enhanced_config s) [
  | none ↦ pure none s
  | some config ↦ pure (some config) (update_config_cache config s)
]

unfoldable pub get_cached_config : Call (Option EnhancedCircuitBreakerConfig)
unfolding load_config
get_cached_config s =
    let loaded = load_config s in
    if is_cache_valid s
    then elim s.cache_config [ none ↦ loaded | some config ↦ pure (some config) s ]
    else loaded

abbrev pub get_cached_state : Store → Option EnhancedCircuitBreakerState
get_cached_state s = s.cache_state

unfoldable pub update_state_cache : EnhancedCircuitBreakerState → Store → Store
update_state_cache state s = record s { cache_state = some state }

unfoldable pub invalidate_cache : Store → Store
invalidate_cache s = record s { cache_valid = some false }

unfoldable pub batch_update_volumes :
    Env → EnhancedCircuitBreakerState → ℤ → Call EnhancedCircuitBreakerState
unfolding ◌>>=◌ ◌>>◌
batch_update_volumes env state amount = do
  let updated : EnhancedCircuitBreakerState = update_all_windows state amount env.timestamp
  modify (update_state_cache updated)
  pure updated
