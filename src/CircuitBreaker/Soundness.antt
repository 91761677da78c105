-- ===== src/CircuitBreaker/Soundness.antt =====
-- States that the checks may leave behind, and that each step of a check keeps them such.
use stellar_tipjar_contracts.Common.{
  ℕ, ◌≡◌, refl, sym, subst, true, false, ◌&&◌, Option, none, some, ltb, Bool-cases, inl, inr, arith,
}
use stellar_tipjar_contracts.Common.Int.{ℤ, pos, ◌≤ℤ◌, ◌+ℤ◌, i128_max}
use stellar_tipjar_contracts.Common.Saturating.{saturating_add_i128, clamp_i128}
use stellar_tipjar_contracts.Soroban.{Address, Env}
use stellar_tipjar_contracts.CircuitBreaker.{
  EnhancedCircuitBreakerConfig, EnhancedCircuitBreakerState, VolumeWindow, TriggerType,
  TriggerSeverity, single_tip_spike, absent, new_state, is_halted,
}
use stellar_tipjar_contracts.CircuitBreaker.Triggers.{check_single_tip_spike}
use stellar_tipjar_contracts.CircuitBreaker.Volumes.{
  Finding, update_volume_window, update_all_windows, check_rate_limit_trigger,
  check_all_volume_thresholds, reset_volume_counters, reset_rate_limit_state,
}
use stellar_tipjar_contracts.CircuitBreaker.Anomalies.{update_anomaly_state, check_anomaly_trigger}
use stellar_tipjar_contracts.CircuitBreaker.Halts.{
  is_none, activate_halt, perform_automatic_recovery,
}
use stellar_tipjar_contracts.CircuitBreaker.Guard.{
  optimized_check_sequence, should_skip_checks, check_history, lazy_anomaly_check, updated_by,
}
use stellar_tipjar_contracts.CircuitBreaker.Limits.{IsNonnegative}

-- A state that is halted has a reason, its volumes are not negative, its halts are counted twice the
-- same, and it has no anomaly statistics.
pub record IsSound (st : EnhancedCircuitBreakerState) : Type 0 where
  pub reasoned : (ltb 0 st.halted_until && is_none st.halt_reason) ≡ false
  pub volumes : IsNonnegative st
  pub counted : st.trigger_count ≡ st.total_halts
  pub plain : st.anomaly_state ≡ absent

pub new_state-IsSound : (now : ℕ) → IsSound (new_state now)
unfolding new_state
new_state-IsSound now = record {
  reasoned = refl;
  volumes = record {
    minute = omega arith;
    five = omega arith;
    hour = omega arith;
    day = omega arith;
  };
  counted = refl;
  plain = refl;
}

pub perform_automatic_recovery-IsSound :
    (st : EnhancedCircuitBreakerState) (now : ℕ)
    → IsSound st
    → IsSound (perform_automatic_recovery st now)
unfolding perform_automatic_recovery reset_volume_counters reset_rate_limit_state
perform_automatic_recovery-IsSound st now h = record {
  reasoned = refl;
  volumes = record {
    minute = omega arith;
    five = omega arith;
    hour = omega arith;
    day = omega arith;
  };
  counted = h.counted;
  plain = h.plain;
}

pub activate_halt-IsSound :
    (st : EnhancedCircuitBreakerState) (config : EnhancedCircuitBreakerConfig) (cause : TriggerType)
    (level : TriggerSeverity) (now : ℕ)
    → is_none cause ≡ false
    → IsSound st
    → IsSound (activate_halt st config cause level now)
unfolding activate_halt
activate_halt-IsSound st config cause level now e h = record {
  reasoned = ground (arith, e);
  volumes = record {
    minute = h.volumes.minute;
    five = h.volumes.five;
    hour = h.volumes.hour;
    day = h.volumes.day;
  };
  counted = rw h.counted refl;
  plain = h.plain;
}

update_volume_window-nonneg :
    (w : VolumeWindow) (amount : ℤ) (now duration : ℕ)
    → pos 0 ≤ℤ w.current_volume
    → pos 0 ≤ℤ amount
    → pos 0 ≤ℤ (update_volume_window w amount now duration).current_volume
unfolding update_volume_window saturating_add_i128 clamp_i128 ◌+ℤ◌ i128_max
update_volume_window-nonneg w amount now duration h k = ground arith

pub updated_by-IsSound :
    (st : EnhancedCircuitBreakerState) (amount : ℤ) (now : ℕ)
    → pos 0 ≤ℤ amount
    → IsSound st
    → IsSound (updated_by st amount now)
unfolding updated_by update_all_windows
updated_by-IsSound st amount now p h = record {
  reasoned = h.reasoned;
  volumes = record {
    minute = update_volume_window-nonneg _ amount now 60 h.volumes.minute p;
    five = update_volume_window-nonneg _ amount now 300 h.volumes.five p;
    hour = update_volume_window-nonneg _ amount now 3600 h.volumes.hour p;
    day = update_volume_window-nonneg _ amount now 86400 h.volumes.day p;
  };
  counted = h.counted;
  plain = h.plain;
}

-- What the check sequence may hand on: a sound state, and a finding that is a trigger.
abbrev pub Sane : Option (EnhancedCircuitBreakerState × Finding) → Type 0
Sane none = Unit
Sane (some (u, none)) = IsSound u
Sane (some (u, some (cause, level))) = IsSound u × (is_none cause ≡ false)

abbrev IsTrigger : Finding → Type 0
IsTrigger none = Unit
IsTrigger (some (cause, level)) = is_none cause ≡ false

check_all_volume_thresholds-IsTrigger :
    (st : EnhancedCircuitBreakerState) (config : EnhancedCircuitBreakerConfig) (now : ℕ)
    → IsTrigger (check_all_volume_thresholds st config now)
unfolding check_all_volume_thresholds
check_all_volume_thresholds-IsTrigger st config now = ground arith

lazy_anomaly_check-plain :
    (env : Env) (st : EnhancedCircuitBreakerState) (config : EnhancedCircuitBreakerConfig)
    (amount : ℤ)
    → st.anomaly_state ≡ absent
    → lazy_anomaly_check env st config amount ≡ some (st, none)
unfolding lazy_anomaly_check update_anomaly_state check_anomaly_trigger
lazy_anomaly_check-plain env st config amount h = ground arith

check_history-Sane :
    (env : Env) (st : EnhancedCircuitBreakerState) (found : Finding)
    (config : EnhancedCircuitBreakerConfig) (amount : ℤ)
    → IsSound st
    → IsTrigger found
    → Sane (check_history env (st, found) config amount)
unfolding check_history
check_history-Sane env st (some (cause, level)) config amount h k = (h, k)
check_history-Sane env st none config amount h k =
    volumes (check_all_volume_thresholds st config env.timestamp)
      (check_all_volume_thresholds-IsTrigger st config env.timestamp)
  where
    volumes :
        (f : Finding)
        → IsTrigger f
        → Sane (elim f [
          | some found ↦ some (st, some found)
          | none ↦ lazy_anomaly_check env st config amount
        ])
    volumes (some (cause, level)) t = (h, t)
    volumes none t = subst Sane (sym (lazy_anomaly_check-plain env st config amount h.plain)) h

check_rate_limit_trigger-IsSound :
    (st : EnhancedCircuitBreakerState) (config : EnhancedCircuitBreakerConfig) (now : ℕ)
    → IsSound st
    → IsSound (check_rate_limit_trigger st config now).0
      × IsTrigger (check_rate_limit_trigger st config now).1
unfolding check_rate_limit_trigger
check_rate_limit_trigger-IsSound st config now h = (
  record {
    reasoned = h.reasoned;
    volumes = record {
      minute = h.volumes.minute;
      five = h.volumes.five;
      hour = h.volumes.hour;
      day = h.volumes.day;
    };
    counted = h.counted;
    plain = h.plain;
  },
  ground arith,
)

halted-reasoned :
    (st : EnhancedCircuitBreakerState) (now : ℕ)
    → IsSound st
    → is_halted st now ≡ true
    → is_none st.halt_reason ≡ false
unfolding is_halted
halted-reasoned st now h e = ground (arith, h.reasoned)

pub optimized_check_sequence-Sane :
    (env : Env) (st : EnhancedCircuitBreakerState) (config : EnhancedCircuitBreakerConfig)
    (amount : ℤ) (creator token : Address)
    → IsSound st
    → Sane (optimized_check_sequence env st config amount creator token)
unfolding optimized_check_sequence
optimized_check_sequence-Sane env st config amount creator token h =
    elim (Bool-cases (is_halted st env.timestamp)) [
      | inl e ↦ rw e (h, halted-reasoned st env.timestamp h e)
      | inr e ↦ elim (Bool-cases (should_skip_checks config)) [
        | inl f ↦ rw (e, f) h
        | inr f ↦ rw (e, f) (spike (check_single_tip_spike config amount creator token))
      ]
    ]
  where
    spike :
        (o : Option TriggerSeverity)
        → Sane (elim o [
          | some level ↦ some (st, some (single_tip_spike, level))
          | none ↦
              check_history env (check_rate_limit_trigger st config env.timestamp) config amount
        ])
    spike (some level) = (h, refl)
    spike none =
        let (sound, found) = check_rate_limit_trigger-IsSound st config env.timestamp h in
        check_history-Sane env _ _ config amount sound found
