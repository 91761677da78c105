-- ===== src/CircuitBreaker/Recovery.antt =====
-- How a halt ends: the first check after it.
use stellar_tipjar_contracts.Common.{
  ℕ, ◌≤◌, ◌<◌, ◌≡◌, refl, ◌∙◌, ap, true, false, Option, none, some, ◌∷◌, get_or, if◌then◌else◌,
  arith,
}
use stellar_tipjar_contracts.Common.Int.{ℤ, ◌≤ℤ◌}
use stellar_tipjar_contracts.Common.Saturating.{saturating_add, min}
use stellar_tipjar_contracts.Soroban.{Address, Env, ok, bind-ok, ◌>>=◌, ◌>>◌}
use stellar_tipjar_contracts.CircuitBreaker.{
  EnhancedCircuitBreakerConfig, EnhancedCircuitBreakerState, accepted, absent, validate, new_state,
  is_halted,
}
use stellar_tipjar_contracts.CircuitBreaker.Volumes.{
  check_volume_threshold, check_all_volume_thresholds, update_all_windows, update_rate_limit_state,
  check_global_rate_limit, reset_volume_counters, reset_rate_limit_state,
}
use stellar_tipjar_contracts.CircuitBreaker.Halts.{
  check_automatic_recovery, perform_automatic_recovery, should_block_operations,
}
use stellar_tipjar_contracts.CircuitBreaker.Store.{Store, recovered, automatic, update_state_cache}
use stellar_tipjar_contracts.CircuitBreaker.Guard.{
  recover, blocked, checked, updated_by, check_enabled, check_circuit_breaker,
}
use stellar_tipjar_contracts.CircuitBreaker.Checks.{IsArmed, check_circuit_breaker-armed}
use stellar_tipjar_contracts.CircuitBreaker.Acceptance.{
  rated, optimized_check_sequence-small, check_history-none, checked-accepts,
  check_all_volume_thresholds-rated, validate-positive,
}

module _ (env : Env) (config : EnhancedCircuitBreakerConfig) (amount : ℤ) (creator token : Address)
    (s : Store) (st' : EnhancedCircuitBreakerState) (s' : Store) where
  pub check_enabled-from :
      recover env (get_or (new_state env.timestamp) s.cache_state) s ≡ ok (st', s')
      → check_enabled env config amount creator token s
        ≡ (if should_block_operations st' config env.timestamp
              then blocked env st'
              else checked env st' config amount creator token)
            s'
  unfolding check_enabled ◌>>=◌
  check_enabled-from r = bind-ok st' s' (recover env _) _ r

recovered-tests :
    (st : EnhancedCircuitBreakerState) (config : EnhancedCircuitBreakerConfig) (now : ℕ)
    → validate config ≡ accepted
    → config.maintenance_mode ≡ false
    → (is_halted (perform_automatic_recovery st now) now ≡ false)
      × (should_block_operations (perform_automatic_recovery st now) config now ≡ false)
      × (check_all_volume_thresholds (perform_automatic_recovery st now) config now ≡ none)
      × (check_global_rate_limit
            (update_rate_limit_state (perform_automatic_recovery st now).rate_limit_state now)
            config
            now
          ≡ false)
unfolding perform_automatic_recovery should_block_operations is_halted check_all_volume_thresholds
    check_volume_threshold check_global_rate_limit update_rate_limit_state reset_volume_counters
    reset_rate_limit_state saturating_add min
recovered-tests st config now v m = ground (arith, validate-positive config v)

-- A halt that is over is lifted, with an event.
pub recover-lifts :
    (env : Env) (st : EnhancedCircuitBreakerState) (s : Store)
    → check_automatic_recovery st env.timestamp ≡ true
    → recover env st s
      ≡ ok (
        perform_automatic_recovery st env.timestamp,
        record s {
          log = recovered (get_or 0 s.audit_counter) automatic none st.total_halt_duration ∷ s.log;
        },
      )
unfolding recover ◌>>=◌ ◌>>◌
recover-lifts env st s h = rw h refl

is_over :
    (st : EnhancedCircuitBreakerState) (now : ℕ)
    → 0 < st.halted_until
    → st.halted_until ≤ now
    → check_automatic_recovery st now ≡ true
unfolding check_automatic_recovery
is_over st now h k = ground arith

recovered-plain :
    (st : EnhancedCircuitBreakerState) (now : ℕ)
    → st.anomaly_state ≡ absent
    → (perform_automatic_recovery st now).anomaly_state ≡ absent
unfolding perform_automatic_recovery reset_volume_counters reset_rate_limit_state
recovered-plain st now h = h

recovered-unhalted :
    (st : EnhancedCircuitBreakerState) (now : ℕ) (amount : ℤ)
    → (updated_by (rated (perform_automatic_recovery st now) now) amount now).halted_until ≡ 0
unfolding updated_by update_all_windows perform_automatic_recovery reset_volume_counters
    reset_rate_limit_state
recovered-unhalted st now amount = refl

-- Under a cached, valid and enabled config that is not in maintenance, from a halted state without anomaly
-- statistics: from the halt's end on a check of an amount up to the largest tip accepts it, and stores
-- a state with no halt.
pub check-recovers :
    (env : Env) (config : EnhancedCircuitBreakerConfig) (amount : ℤ) (creator token : Address)
    (s : Store) (st : EnhancedCircuitBreakerState)
    → IsArmed config s
    → s.cache_state ≡ some st
    → validate config ≡ accepted
    → config.maintenance_mode ≡ false
    → st.anomaly_state ≡ absent
    → 0 < st.halted_until
    → st.halted_until ≤ env.timestamp
    → amount ≤ℤ config.max_single_tip
    → (t : Store) × (v : EnhancedCircuitBreakerState) × (check_circuit_breaker env amount creator
          token s
        ≡ ok (accepted, t))
      × (t.cache_state ≡ some v)
      × (v.halted_until ≡ 0)
unfolding update_state_cache
check-recovers env config amount creator token s st a c v m p h k l =
    let st' : EnhancedCircuitBreakerState = perform_automatic_recovery st env.timestamp in
    let s' : Store = record s {
      log = recovered (get_or 0 s.audit_counter) automatic none st.total_halt_duration ∷ s.log;
    } in
    let (open_, free, below, slow) = recovered-tests st config env.timestamp v m in
    let lifted : recover env (get_or (new_state env.timestamp) s.cache_state) s ≡ ok (st', s') =
      ap
        (λ (o : Option EnhancedCircuitBreakerState).
          recover env (get_or (new_state env.timestamp) o) s)
        c
      ∙ recover-lifts env st s (is_over st env.timestamp h k) in
    let sequence =
      optimized_check_sequence-small env config amount creator token st' s' open_ a.enabled
        (ground (arith, l)) in
    (
      update_state_cache (updated_by (rated st' env.timestamp) amount env.timestamp) s',
      updated_by (rated st' env.timestamp) amount env.timestamp,
      check_circuit_breaker-armed env config amount creator token s a
          ∙ check_enabled-from env config amount creator token s st' s' lifted
          ∙ simp (free) (
              checked-accepts env config amount creator token st' s' (
                sequence
                ∙ check_history-none env config amount creator token st' s'
                    (recovered-plain st env.timestamp p) slow
                    (check_all_volume_thresholds-rated st' config env.timestamp ∙ below))),
      refl,
      recovered-unhalted st env.timestamp amount,
    )
