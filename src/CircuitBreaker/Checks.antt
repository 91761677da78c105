-- ===== src/CircuitBreaker/Checks.antt =====
-- What a check of a tip lets through, and what it makes of the stored state.
use stellar_tipjar_contracts.Common.{
  ℕ, ◌≡◌, refl, ◌∙◌, true, false, not, some, if◌then◌else◌, arith,
}
use stellar_tipjar_contracts.Common.Int.{ℤ, ◌<ℤ◌}
use stellar_tipjar_contracts.Soroban.{Address, Env, ok, bind-ok, ◌>>=◌, ◌>>◌}
use stellar_tipjar_contracts.CircuitBreaker.{
  EnhancedCircuitBreakerConfig, EnhancedCircuitBreakerState, invalid_configuration, refused,
  TriggerType, TriggerSeverity, high, single_tip_spike, is_halted,
}
use stellar_tipjar_contracts.CircuitBreaker.Triggers.{check_single_tip_spike}
use stellar_tipjar_contracts.CircuitBreaker.Halts.{
  activate_halt, should_block_operations, check_automatic_recovery,
}
use stellar_tipjar_contracts.CircuitBreaker.Store.{Store, get_cached_config, update_state_cache}
use stellar_tipjar_contracts.CircuitBreaker.Store.Audits.{record_audit_entry}
use stellar_tipjar_contracts.CircuitBreaker.Guard.{
  recover, halt, blocked, act_on, checked, optimized_check_sequence, should_skip_checks,
  check_enabled, check_under, check_circuit_breaker,
}

-- The cache holds a config that the check uses, and that is enabled.
pub record IsArmed (config : EnhancedCircuitBreakerConfig) (s : Store) : Type 0 where
  pub cached : s.cache_config ≡ some config
  pub valid : s.cache_valid ≡ some true
  pub enabled : config.enabled ≡ true

get_cached_config-armed :
    (config : EnhancedCircuitBreakerConfig) (s : Store)
    → IsArmed config s
    → get_cached_config s ≡ ok (some config, s)
unfolding get_cached_config
get_cached_config-armed config s h = ground (arith, h.valid, h.cached)

module _ (env : Env) (config : EnhancedCircuitBreakerConfig) (amount : ℤ) (creator token : Address)
    (s : Store) where
  pub check_circuit_breaker-armed :
      IsArmed config s
      → check_circuit_breaker env amount creator token s
        ≡ check_enabled env config amount creator token s
  unfolding check_circuit_breaker check_under should_skip_checks
  check_circuit_breaker-armed h =
      let on : not config.enabled ≡ false = ground (arith, h.enabled) in
      bind-ok (some config) s get_cached_config _ (get_cached_config-armed config s h) ∙ simp (on)

  -- Where nothing is to recover, the check goes on with the cached state.
  pub check_enabled-cached :
      (st : EnhancedCircuitBreakerState)
      → s.cache_state ≡ some st
      → check_automatic_recovery st env.timestamp ≡ false
      → check_enabled env config amount creator token s
        ≡ (if should_block_operations st config env.timestamp
              then blocked env st
              else checked env st config amount creator token)
            s
  unfolding check_enabled recover ◌>>=◌
  check_enabled-cached st c r = rw (c, r) refl

-- What stays of the store: the armed config, and the state that is cached.
pub record Leaves (s : Store) (state : EnhancedCircuitBreakerState) (t : Store) : Type 0 where
  pub same_config : t.cache_config ≡ s.cache_config
  pub same_valid : t.cache_valid ≡ s.cache_valid
  pub stored : t.cache_state ≡ some state

pub halt-refuses :
    (env : Env) (st : EnhancedCircuitBreakerState) (config : EnhancedCircuitBreakerConfig)
    (cause : TriggerType) (level : TriggerSeverity) (s : Store)
    → (t : Store) × (halt env st config cause level s ≡ ok (refused invalid_configuration, t))
      × Leaves s (activate_halt st config cause level env.timestamp) t
unfolding halt record_audit_entry ◌>>=◌ ◌>>◌ update_state_cache
halt-refuses env st config cause level s =
    (_, refl, record { same_config = refl; same_valid = refl; stored = refl })

-- With no halt, the check sequence finds an oversized tip at once.
pub optimized_check_sequence-spike :
    (env : Env) (st : EnhancedCircuitBreakerState) (config : EnhancedCircuitBreakerConfig)
    (amount : ℤ) (creator token : Address)
    → is_halted st env.timestamp ≡ false
    → config.enabled ≡ true
    → config.max_single_tip <ℤ amount
    → optimized_check_sequence env st config amount creator token
      ≡ some (st, some (single_tip_spike, high))
unfolding optimized_check_sequence should_skip_checks check_single_tip_spike
optimized_check_sequence-spike env st config amount creator token h e l = ground arith

checked-spike :
    (env : Env) (st : EnhancedCircuitBreakerState) (config : EnhancedCircuitBreakerConfig)
    (amount : ℤ) (creator token : Address) (s : Store)
    → is_halted st env.timestamp ≡ false
    → config.enabled ≡ true
    → config.max_single_tip <ℤ amount
    → checked env st config amount creator token s ≡ halt env st config single_tip_spike high s
unfolding checked act_on ◌>>=◌
checked-spike env st config amount creator token s h e l =
    rw (optimized_check_sequence-spike env st config amount creator token h e l) refl

-- No halt is stored, nor do the modes lock the system.
pub record IsFree (config : EnhancedCircuitBreakerConfig) (st : EnhancedCircuitBreakerState)
    : Type 0 where
  pub not_halted : st.halted_until ≡ 0
  pub not_maintained : config.maintenance_mode ≡ false

pub free-tests :
    (st : EnhancedCircuitBreakerState) (config : EnhancedCircuitBreakerConfig) (now : ℕ)
    → IsFree config st
    → (check_automatic_recovery st now ≡ false)
      × (should_block_operations st config now ≡ false)
      × (is_halted st now ≡ false)
unfolding check_automatic_recovery should_block_operations is_halted
free-tests st config now f = ground (arith, f.not_halted, f.not_maintained)

-- The check of a state with no halt is the sequence of tests.
pub check-free :
    (env : Env) (config : EnhancedCircuitBreakerConfig) (amount : ℤ) (creator token : Address)
    (s : Store) (st : EnhancedCircuitBreakerState)
    → IsArmed config s
    → s.cache_state ≡ some st
    → IsFree config st
    → check_circuit_breaker env amount creator token s
      ≡ checked env st config amount creator token s
check-free env config amount creator token s st armed stored free =
    let (r, b, h) = free-tests st config env.timestamp free in
    check_circuit_breaker-armed env config amount creator token s armed
    ∙ check_enabled-cached env config amount creator token s st stored r
    ∙ simp (b)

-- An oversized tip is refused, and halts.
pub check-spike :
    (env : Env) (config : EnhancedCircuitBreakerConfig) (amount : ℤ) (creator token : Address)
    (s : Store) (st : EnhancedCircuitBreakerState)
    → IsArmed config s
    → s.cache_state ≡ some st
    → IsFree config st
    → config.max_single_tip <ℤ amount
    → (t : Store) × (check_circuit_breaker env amount creator token s
        ≡ ok (refused invalid_configuration, t))
      × Leaves s (activate_halt st config single_tip_spike high env.timestamp) t
check-spike env config amount creator token s st a c f l =
    let (_, _, h) = free-tests st config env.timestamp f in
    let (t, e, keeps) = halt-refuses env st config single_tip_spike high s in
    (
      t,
      check-free env config amount creator token s st a c f
          ∙ checked-spike env st config amount creator token s h a.enabled l
          ∙ e,
      keeps,
    )
