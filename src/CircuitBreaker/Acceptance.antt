-- ===== src/CircuitBreaker/Acceptance.antt =====
-- Which tips a check accepts, and what it makes of the windows and the rate.
use stellar_tipjar_contracts.Common.{
  ℕ, ◌<◌, ◌≡◌, refl, ◌∙◌, ap, sym, true, false, none, some, Bool-cases, Option-cases, inl, inr,
  arith,
}
use stellar_tipjar_contracts.Common.Int.{ℤ, pos, ltb_ℤ, ◌≤ℤ◌, ◌+ℤ◌, i128_max}
use stellar_tipjar_contracts.Common.Saturating.{saturating_add_i128, clamp_i128}
use stellar_tipjar_contracts.Soroban.{Address, Env, ok, ◌>>=◌, ◌>>◌}
use stellar_tipjar_contracts.CircuitBreaker.{
  EnhancedCircuitBreakerConfig, EnhancedCircuitBreakerState, VolumeWindow, accepted, TriggerType,
  TriggerSeverity, high, medium, absent, single_tip_spike, rate_limit, validate, validate_volumes,
  is_halted,
}
use stellar_tipjar_contracts.CircuitBreaker.Triggers.{check_single_tip_spike}
use stellar_tipjar_contracts.CircuitBreaker.Volumes.{
  update_volume_window, check_volume_threshold, check_all_volume_thresholds,
  update_rate_limit_state, check_global_rate_limit, check_rate_limit_trigger,
}
use stellar_tipjar_contracts.CircuitBreaker.Anomalies.{update_anomaly_state, check_anomaly_trigger}
use stellar_tipjar_contracts.CircuitBreaker.Store.{Store, update_state_cache}
use stellar_tipjar_contracts.CircuitBreaker.Guard.{
  halt, act_on, checked, optimized_check_sequence, should_skip_checks, check_history,
  lazy_anomaly_check, updated_by, check_circuit_breaker,
}
use stellar_tipjar_contracts.CircuitBreaker.Checks.{
  IsArmed, IsFree, check-free, free-tests, halt-refuses, optimized_check_sequence-spike,
}

-- The state that a check hands to the counting: the rate's counter has been advanced once.
abbrev pub rated : EnhancedCircuitBreakerState → ℕ → EnhancedCircuitBreakerState
rated st now = record st { rate_limit_state = update_rate_limit_state st.rate_limit_state now }

module _ (env : Env) (config : EnhancedCircuitBreakerConfig) (amount : ℤ) (creator token : Address)
    (st : EnhancedCircuitBreakerState) (s : Store) where
  -- With no halt and no anomaly statistics, the sequence comes down to three tests.
  pub optimized_check_sequence-small :
      is_halted st env.timestamp ≡ false
      → config.enabled ≡ true
      → ltb_ℤ config.max_single_tip amount ≡ false
      → optimized_check_sequence env st config amount creator token
        ≡ check_history env (check_rate_limit_trigger st config env.timestamp) config amount
  unfolding optimized_check_sequence should_skip_checks check_single_tip_spike
  optimized_check_sequence-small h e l = ground arith

  pub check_history-none :
      st.anomaly_state ≡ absent
      → check_global_rate_limit
          (update_rate_limit_state st.rate_limit_state env.timestamp)
          config
          env.timestamp
        ≡ false
      → check_all_volume_thresholds (rated st env.timestamp) config env.timestamp ≡ none
      → check_history env (check_rate_limit_trigger st config env.timestamp) config amount
        ≡ some (rated st env.timestamp, none)
  unfolding check_rate_limit_trigger check_history lazy_anomaly_check update_anomaly_state
      check_anomaly_trigger
  check_history-none a r v = ground arith

  check_history-some :
      (found : TriggerType × TriggerSeverity)
      → check_global_rate_limit
          (update_rate_limit_state st.rate_limit_state env.timestamp)
          config
          env.timestamp
        ≡ false
      → check_all_volume_thresholds (rated st env.timestamp) config env.timestamp ≡ some found
      → check_history env (check_rate_limit_trigger st config env.timestamp) config amount
        ≡ some (rated st env.timestamp, some found)
  unfolding check_rate_limit_trigger check_history
  check_history-some found r v = ground arith

  pub checked-accepts :
      optimized_check_sequence env st config amount creator token
        ≡ some (rated st env.timestamp, none)
      → checked env st config amount creator token s
        ≡ ok (
          accepted,
          update_state_cache (updated_by (rated st env.timestamp) amount env.timestamp) s,
        )
  unfolding checked act_on ◌>>=◌ ◌>>◌
  checked-accepts e = rw e refl

-- The thresholds do not look at the rate.
pub check_all_volume_thresholds-rated :
    (st : EnhancedCircuitBreakerState) (config : EnhancedCircuitBreakerConfig) (now : ℕ)
    → check_all_volume_thresholds (rated st now) config now
      ≡ check_all_volume_thresholds st config now
unfolding check_all_volume_thresholds
check_all_volume_thresholds-rated st config now = refl

-- A window below its threshold stays below it but for one more tip.
pub window-bound :
    (w : VolumeWindow) (threshold amount most : ℤ) (now duration : ℕ)
    → check_volume_threshold w threshold now duration ≡ false
    → amount ≤ℤ most
    → pos 0 ≤ℤ threshold
    → pos 0 ≤ℤ amount
    → pos 0 ≤ℤ w.current_volume
    → (update_volume_window w amount now duration).current_volume ≤ℤ (threshold +ℤ most)
unfolding check_volume_threshold update_volume_window saturating_add_i128 clamp_i128 ◌+ℤ◌ i128_max
window-bound w threshold amount most now duration h l p q r = ground arith

pub below-all :
    (st : EnhancedCircuitBreakerState) (config : EnhancedCircuitBreakerConfig) (now : ℕ)
    → check_all_volume_thresholds st config now ≡ none
    → (check_volume_threshold st.one_minute_window config.one_minute_threshold now 60 ≡ false)
      × (check_volume_threshold st.five_minute_window config.five_minute_threshold now 300 ≡ false)
      × (check_volume_threshold st.one_hour_window config.one_hour_threshold now 3600 ≡ false)
      × (check_volume_threshold st.twenty_four_hour_window config.twenty_four_hour_threshold now
            86400
          ≡ false)
unfolding check_all_volume_thresholds
below-all st config now h = ground arith

pub validate-positive :
    (config : EnhancedCircuitBreakerConfig)
    → validate config ≡ accepted
    → (pos 0 ≤ℤ config.max_single_tip)
      × (pos 0 ≤ℤ config.one_minute_threshold)
      × (pos 0 ≤ℤ config.five_minute_threshold)
      × (pos 0 ≤ℤ config.one_hour_threshold)
      × (pos 0 ≤ℤ config.twenty_four_hour_threshold)
      × (0 < config.max_tips_per_minute)
unfolding validate validate_volumes
validate-positive config h = ground arith

module _ (env : Env) (config : EnhancedCircuitBreakerConfig) (amount : ℤ) (creator token : Address)
    (st : EnhancedCircuitBreakerState) (s t : Store) where
  -- What the sequence finds is refused.
  found-refuses :
      checked env st config amount creator token s ≡ ok (accepted, t)
      → (u : EnhancedCircuitBreakerState) (cause : TriggerType) (level : TriggerSeverity)
      → optimized_check_sequence env st config amount creator token ≡ some (u, some (cause, level))
      → ⊥
  unfolding checked act_on ◌>>=◌
  found-refuses e u cause level f =
      let (_, r, _) = halt-refuses env u config cause level s in
      let halts : checked env st config amount creator token s ≡ halt env u config cause level s =
        rw f refl in
      cc

  small-accepts :
      is_halted st env.timestamp ≡ false
      → config.enabled ≡ true
      → st.anomaly_state ≡ absent
      → ltb_ℤ config.max_single_tip amount ≡ false
      → checked env st config amount creator token s ≡ ok (accepted, t)
      → (amount ≤ℤ config.max_single_tip)
        × (check_all_volume_thresholds st config env.timestamp ≡ none)
        × (t.cache_state ≡ some (updated_by (rated st env.timestamp) amount env.timestamp))
  unfolding check_rate_limit_trigger check_history update_state_cache
  small-accepts h on plain small e =
      let sequence =
        optimized_check_sequence-small env config amount creator token st s h on small in
      let now : ℕ = env.timestamp in
      elim (Bool-cases (
        check_global_rate_limit (update_rate_limit_state st.rate_limit_state env.timestamp) config
          env.timestamp)) [
            | inl fast ↦ absurd (
                found-refuses e (rated st env.timestamp) rate_limit medium
                  (sequence ∙ rw fast refl))
            | inr slow ↦ elim (Option-cases (check_all_volume_thresholds st config env.timestamp)) [
              | inl below ↦
                  let run = checked-accepts env config amount creator token st s (
                    sequence
                    ∙ check_history-none env config amount creator token st s plain slow
                        (check_all_volume_thresholds-rated st config env.timestamp ∙ below)) in
                  let same : update_state_cache
                        (updated_by (rated st env.timestamp) amount env.timestamp) s
                      ≡ t =
                    cc (run, e) in
                  (ground (arith, small), below, ap (λ (x : Store). x.cache_state) (sym same))
              | inr (found, f) ↦ absurd (
                  found-refuses e (rated st env.timestamp) found.0 found.1 (
                    sequence
                    ∙ check_history-some env config amount creator token st s found slow
                        (check_all_volume_thresholds-rated st config env.timestamp ∙ f)))
            ]
          ]

module _ (env : Env) (config : EnhancedCircuitBreakerConfig) (amount : ℤ) (creator token : Address)
    (s : Store) (st : EnhancedCircuitBreakerState) (armed : IsArmed config s)
    (stored : s.cache_state ≡ some st) (free : IsFree config st)
    (plain : st.anomaly_state ≡ absent) where
  -- A tip that is accepted is not oversized, and no threshold was passed before it.
  pub check-accepts :
      (t : Store)
      → check_circuit_breaker env amount creator token s ≡ ok (accepted, t)
      → (amount ≤ℤ config.max_single_tip)
        × (check_all_volume_thresholds st config env.timestamp ≡ none)
        × (t.cache_state ≡ some (updated_by (rated st env.timestamp) amount env.timestamp))
  check-accepts t e =
      let (_, _, h) = free-tests st config env.timestamp free in
      let e' : checked env st config amount creator token s ≡ ok (accepted, t) =
        sym (check-free env config amount creator token s st armed stored free) ∙ e in
      let found = found-refuses env config amount creator token st s t e' in
      elim (Bool-cases (ltb_ℤ config.max_single_tip amount)) [
        | inl big ↦ absurd (
            found st single_tip_spike high (
              optimized_check_sequence-spike env st config amount creator token h armed.enabled
                (ground (arith, big))))
        | inr small ↦
            small-accepts env config amount creator token st s t h armed.enabled plain small e'
      ]
