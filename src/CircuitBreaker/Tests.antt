-- ===== src/CircuitBreaker/Tests.antt =====
-- Runs of the circuit breaker, and the theorems at concrete inputs.
use stellar_tipjar_contracts.Common.{
  ℕ, ◌*◌, ◌/◌, ◌≤◌, ◌<◌, ◌≡◌, refl, true, false, none, some, List, [], ◌∷◌, ltb, get_or,
  if◌then◌else◌, arith,
}
use stellar_tipjar_contracts.Common.Int.{ℤ, pos, ◌+ℤ◌, i128_max}
use stellar_tipjar_contracts.Common.Saturating.{
  min, max, saturating_add, saturating_mul, mul_u64, saturating_add_i128, clamp_i128,
}
use stellar_tipjar_contracts.Soroban.{Address, Env, ok, err, panic, ◌>>=◌, ◌>>◌}
use stellar_tipjar_contracts.CircuitBreaker.{
  EnhancedCircuitBreakerConfig, EnhancedCircuitBreakerState, accepted, refused,
  invalid_configuration, default_config, validate, validate_volumes, validate_backoff, new_state,
  high, single_tip_spike, is_halted,
}
use stellar_tipjar_contracts.CircuitBreaker.Triggers.{
  calculate_cooldown, base_for, backed_off, calculate_graduated_recovery, check_single_tip_spike,
}
use stellar_tipjar_contracts.CircuitBreaker.Volumes.{
  check_rate_limit_trigger, update_rate_limit_state, check_global_rate_limit,
  check_all_volume_thresholds, check_volume_threshold, update_all_windows, update_volume_window,
}
use stellar_tipjar_contracts.CircuitBreaker.Anomalies.{update_anomaly_state, check_anomaly_trigger}
use stellar_tipjar_contracts.CircuitBreaker.Statistics.{sqrt_approx}
use stellar_tipjar_contracts.CircuitBreaker.Halts.{
  validate_state_integrity, check_automatic_recovery, should_block_operations,
}
use stellar_tipjar_contracts.CircuitBreaker.Store.{
  Store, set_enhanced_config, get_cached_config, load_config, update_state_cache,
}
use stellar_tipjar_contracts.CircuitBreaker.Guard.{
  check_circuit_breaker, check_under, check_enabled, recover, checked, act_on, should_skip_checks,
  optimized_check_sequence, check_history, lazy_anomaly_check, updated_by,
}
use stellar_tipjar_contracts.CircuitBreaker.Cooldowns.{calculate_cooldown-bounds}
use stellar_tipjar_contracts.CircuitBreaker.Windows.{
  Tip, after, latest, IsOrdered, IsTally, after-IsTally,
}
use stellar_tipjar_contracts.CircuitBreaker.Roots.{sqrt_approx-far}
use stellar_tipjar_contracts.CircuitBreaker.Checks.{IsArmed, IsFree}
use stellar_tipjar_contracts.CircuitBreaker.Invocations.{
  TipRequest, invoke, IsUnhalted, run-is_halted,
}
use stellar_tipjar_contracts.Soroban
use stellar_tipjar_contracts.CircuitBreaker.Recovery.{check-recovers}
use stellar_tipjar_contracts.CircuitBreaker.Acceptance.{rated}
use stellar_tipjar_contracts.CircuitBreaker.Limits.{
  IsWithin, check-IsWithin, set_enhanced_config-check,
}
use stellar_tipjar_contracts.CircuitBreaker.Soundness.{new_state-IsSound}
use stellar_tipjar_contracts.CircuitBreaker.Runs.{Request, run, run-validate_state_integrity}

abbrev at : ℕ → Env
at time = record {
  sequence = 1;
  timestamp = time;
  authorized = λ a. true;
  this = 9;
  accepts = λ t. true;
}

abbrev fresh : EnhancedCircuitBreakerState
unfolding new_state
fresh = new_state 1000

abbrev store_of : EnhancedCircuitBreakerState → Store
store_of st = record {
  enhanced_config = some default_config;
  creator_overrides = [];
  token_limits = [];
  cache_config = some default_config;
  cache_state = some st;
  cache_valid = some true;
  audit_counter = none;
  audit_entries = [];
  last_status = none;
  log = [];
}

abbrev halted : EnhancedCircuitBreakerState
unfolding new_state
halted = record (new_state 1000) {
  halted_until = 1600;
  halt_reason = single_tip_spike;
  halt_severity = high;
}

default-valid : validate default_config ≡ accepted
unfolding validate validate_volumes validate_backoff
default-valid = refl

armed : (st : EnhancedCircuitBreakerState) → IsArmed default_config (store_of st)
armed st = record { cached = refl; valid = refl; enabled = refl }

free : IsFree default_config fresh
unfolding fresh
free = record { not_halted = refl; not_maintained = refl }

-- Three stages of a cooldown of 90 seconds, and the division by 0 where there are more stages than
-- seconds.
graduated :
    (calculate_graduated_recovery 90 65 3 ≡ some 2) × (calculate_graduated_recovery 2 1 3 ≡ none)
unfolding calculate_graduated_recovery min
graduated = (refl, refl)

-- The third halt of high severity lasts 600 seconds, 1.5 times 1.5 times.
third_halt : calculate_cooldown default_config high 2 ≡ 1350
unfolding calculate_cooldown base_for backed_off mul_u64 saturating_mul min max
third_halt = refl

abbrev tips : List Tip
tips =
    record { time = 1070; amount = 5 }
    ∷ record { time = 1050; amount = 7 }
    ∷ record { time = 1010; amount = 3 }
    ∷ []

tips-IsOrdered : IsOrdered 60 1000 tips
unfolding latest i128_max
tips-IsOrdered = omega arith

after-IsTally_example : IsTally 60 1000 tips (after 60 1000 tips)
after-IsTally_example = after-IsTally 60 1000 tips (omega arith) tips-IsOrdered

calculate_cooldown-bounds_example :
    (300 ≤ calculate_cooldown default_config high 2)
    × (calculate_cooldown default_config high 2 ≤ 86400)
calculate_cooldown-bounds_example = calculate_cooldown-bounds default_config high 2 default-valid

-- The root of 10 ^ 12 is 10 ^ 6.
sqrt_approx-far_example :
    (r : ℕ) × (sqrt_approx (pos 1_000_000_000_000) ≡ some (pos r))
    × (1_000_000_000_000 < r * r)
    × (1_000_000_000_000 / 1024 ≤ r)
sqrt_approx-far_example = sqrt_approx-far 1_000_000_000_000 (omega arith) (omega arith)

free_store : IsUnhalted default_config (store_of fresh)
free_store = record { armed = armed fresh; state = fresh; stored = refl; free = free }

-- A small tip, an oversized one, and a small one.
abbrev tip_requests : List (Env × TipRequest)
tip_requests =
    (at 1010, record { amount = pos 5; creator = 3; token = 4 })
    ∷ (at 1020, record { amount = pos 2_000_000_000; creator = 3; token = 4 })
    ∷ (at 1030, record { amount = pos 7; creator = 3; token = 4 })
    ∷ []

run-is_halted_example :
    (invoke
        (at 1040)
        (record { amount = pos 2_000_000_000; creator = 3; token = 4 })
        (Soroban.run invoke tip_requests (store_of fresh))
      ≡ err (panic invalid_configuration))
    × (is_halted
          (get_or (new_state 1041) (Soroban.run invoke tip_requests (store_of fresh)).cache_state)
          1041
        ≡ false)
run-is_halted_example =
    run-is_halted default_config tip_requests (store_of fresh) (at 1040)
      (record { amount = pos 2_000_000_000; creator = 3; token = 4 }) 1041 free_store (omega arith)

check-recovers_example :
    (t : Store) × (v : EnhancedCircuitBreakerState) × (check_circuit_breaker
        (at 1600)
        (pos 50)
        3
        4
        (store_of halted)
      ≡ ok (accepted, t))
    × (t.cache_state ≡ some v)
    × (v.halted_until ≡ 0)
unfolding halted
check-recovers_example =
    check-recovers (at 1600) default_config (pos 50) 3 4 (store_of halted) halted (armed halted)
      refl default-valid refl refl (omega arith) (omega arith) (omega arith)

-- The store after a tip of 50 is accepted.
abbrev tipped : Store
unfolding update_state_cache updated_by update_all_windows update_volume_window
    update_rate_limit_state saturating_add saturating_add_i128 clamp_i128 ◌+ℤ◌ min i128_max
    new_state
tipped = update_state_cache (updated_by (rated fresh 1010) (pos 50) 1010) (store_of fresh)

accepts : check_circuit_breaker (at 1010) (pos 50) 3 4 (store_of fresh) ≡ ok (accepted, tipped)
unfolding check_circuit_breaker get_cached_config load_config check_under should_skip_checks
    check_enabled recover checked act_on optimized_check_sequence check_history lazy_anomaly_check
    updated_by check_single_tip_spike check_rate_limit_trigger update_rate_limit_state
    check_global_rate_limit check_all_volume_thresholds check_volume_threshold update_all_windows
    update_volume_window update_anomaly_state check_anomaly_trigger check_automatic_recovery
    should_block_operations is_halted update_state_cache saturating_add saturating_add_i128
    clamp_i128 ◌+ℤ◌ min i128_max ◌>>=◌ ◌>>◌ new_state
accepts = refl

check-IsWithin_example :
    (v : EnhancedCircuitBreakerState) × (tipped.cache_state ≡ some v) × IsWithin default_config v
unfolding fresh
check-IsWithin_example =
    check-IsWithin (at 1010) default_config (pos 50) 3 4 (store_of fresh) fresh (armed fresh) refl
      free refl tipped accepts default-valid
      (record { minute = omega arith; five = omega arith; hour = omega arith; day = omega arith })
      (omega arith)

abbrev lowered : EnhancedCircuitBreakerConfig
lowered = record default_config { max_single_tip = pos 10 }

lowered-valid : validate lowered ≡ accepted
unfolding validate validate_volumes validate_backoff
lowered-valid = refl

set_enhanced_config-check_example :
    (t : Store) × (set_enhanced_config (at 1010) 1 lowered (store_of fresh) ≡ ok (accepted, t))
    × (t.enhanced_config ≡ some lowered)
    × ((amount : ℤ) (creator token : Address)
        → check_circuit_breaker (at 1020) amount creator token t
          ≡ check_enabled (at 1020) default_config amount creator token t)
set_enhanced_config-check_example =
    set_enhanced_config-check (at 1010) (at 1020) default_config lowered 1 (store_of fresh)
      (armed fresh) refl lowered-valid

abbrev requests : List Request
requests =
    record { env = at 1010; amount = pos 50; creator = 3; token = 4 }
    ∷ record { env = at 1020; amount = pos 2_000_000_000; creator = 3; token = 4 }
    ∷ []

run-validate_state_integrity_example :
    validate_state_integrity (get_or (new_state 1000) (run requests (store_of fresh)).cache_state)
    ≡ (if ltb 1_000_000
          (get_or (new_state 1000) (run requests (store_of fresh)).cache_state).total_halts
        then refused invalid_configuration
        else accepted)
unfolding fresh
run-validate_state_integrity_example =
    run-validate_state_integrity requests (store_of fresh) 1000 (omega arith)
      (λ now. new_state-IsSound 1000)
