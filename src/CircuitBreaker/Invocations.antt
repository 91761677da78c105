-- ===== src/CircuitBreaker/Invocations.antt =====
-- Invocations that pass a check's error on, as the guard of contracts/tipjar-legacy/src/circuit_breaker.rs
-- hands it to its caller: the host rolls them back, with the halt that the check has stored.
use stellar_tipjar_contracts.Common.{
  ℕ, ◌≡◌, refl, sym, subst, ◌∙◌, false, Option, none, some, get_or, List, arith,
}
use stellar_tipjar_contracts.Common.Int.{ℤ, ◌<ℤ◌}
use stellar_tipjar_contracts.Soroban.{
  Address, Env, ok, err, panic, pure, raise, or_trap, After, bind-ok, run, run-keeps, ◌>>=◌, ◌>>◌,
}
use stellar_tipjar_contracts.CircuitBreaker.{
  EnhancedCircuitBreakerConfig, EnhancedCircuitBreakerState, CircuitBreakerError, Verdict, accepted,
  refused, invalid_configuration, new_state, is_halted,
}
use stellar_tipjar_contracts.CircuitBreaker.Volumes.{
  Finding, check_rate_limit_trigger, update_all_windows,
}
use stellar_tipjar_contracts.CircuitBreaker.Store.{Store, Call, update_state_cache}
use stellar_tipjar_contracts.CircuitBreaker.Guard.{
  act_on, checked, optimized_check_sequence, check_history, lazy_anomaly_check, updated_by,
  check_circuit_breaker,
}
use stellar_tipjar_contracts.CircuitBreaker.Checks.{
  IsArmed, IsFree, free-tests, halt-refuses, check-free, check-spike,
}

-- A tip that is to be checked.
pub record TipRequest : Type 0 where
  pub amount : ℤ
  pub creator : Address
  pub token : Address

-- A returned error ends the invocation.
abbrev propagate : Verdict → Call (Unit {0})
propagate accepted = pure tt
propagate (refused e) = raise e

unfoldable pub invoke : Env → TipRequest → Call (Unit {0})
unfolding ◌>>=◌ ◌>>◌
invoke env tip = do
  verdict ← check_circuit_breaker env tip.amount tip.creator tip.token
  propagate verdict

ended :
    (m : Call Verdict) (s t : Store) (e : CircuitBreakerError)
    → m s ≡ ok (refused e, t)
    → (m >>= propagate) s ≡ err (panic e)
ended m s t e h = bind-ok (refused e) t m propagate h

bind-same :
    (m n : Call Verdict) (f : Verdict → Call (Unit {0})) (s : Store)
    → m s ≡ n s
    → (m >>= f) s ≡ (n >>= f) s
unfolding ◌>>=◌
bind-same m n f s h = rw (h, ◌>>=◌) refl

-- The state that the checks hand on, with the given end of the halt.
abbrev HasEnd : ℕ → Option (EnhancedCircuitBreakerState × Finding) → Type 0
HasEnd n none = Unit
HasEnd n (some (u, found)) = u.halted_until ≡ n

module _ (env : Env) (config : EnhancedCircuitBreakerConfig) (amount : ℤ) where
  check_history-HasEnd :
      (st : EnhancedCircuitBreakerState) (found : Finding)
      → HasEnd st.halted_until (check_history env (st, found) config amount)
  unfolding check_history lazy_anomaly_check
  check_history-HasEnd st (some found) = refl
  check_history-HasEnd st none = ground arith

  optimized_check_sequence-HasEnd :
      (st : EnhancedCircuitBreakerState) (creator token : Address)
      → HasEnd st.halted_until (optimized_check_sequence env st config amount creator token)
  unfolding optimized_check_sequence check_rate_limit_trigger
  optimized_check_sequence-HasEnd st creator token = ground (
    arith,
    check_history-HasEnd (check_rate_limit_trigger st config env.timestamp).0
        (check_rate_limit_trigger st config env.timestamp).1,
  )

-- The check has a config and a state in its cache, neither of which halts.
pub record IsUnhalted (config : EnhancedCircuitBreakerConfig) (s : Store) : Type 0 where
  pub armed : IsArmed config s
  pub state : EnhancedCircuitBreakerState
  pub stored : s.cache_state ≡ some state
  pub free : IsFree config state

module _ (config : EnhancedCircuitBreakerConfig) where
  -- A check that accepts stores a state with the same end of the halt.
  acted-IsUnhalted :
      (env : Env) (amount : ℤ) (s : Store) (h : IsUnhalted config s)
      (o : Option (EnhancedCircuitBreakerState × Finding))
      → HasEnd h.state.halted_until o
      → After (IsUnhalted config) (((or_trap o >>= act_on env config amount) >>= propagate) s)
  unfolding act_on updated_by update_all_windows update_state_cache ◌>>=◌ ◌>>◌
  acted-IsUnhalted env amount s h none k = record { holds = tt }
  acted-IsUnhalted env amount s h (some (u, none)) k = record {
    holds = record {
      armed = record { cached = h.armed.cached; valid = h.armed.valid; enabled = h.armed.enabled };
      state = updated_by u amount env.timestamp;
      stored = refl;
      free = record { not_halted = k ∙ h.free.not_halted; not_maintained = h.free.not_maintained };
    };
  }
  acted-IsUnhalted env amount s h (some (u, some (cause, level))) k =
      let (t, r, _) = halt-refuses env u config cause level s in
      subst (After (IsUnhalted config))
        (sym (ended (or_trap (some (u, some (cause, level))) >>= act_on env config amount) s t _ r))
        (record { holds = tt })

  invoke-IsUnhalted :
      (env : Env) (tip : TipRequest) (s : Store)
      → IsUnhalted config s
      → After (IsUnhalted config) (invoke env tip s)
  unfolding invoke checked ◌>>=◌
  invoke-IsUnhalted env tip s h =
      subst (After (IsUnhalted config))
        (sym (
          bind-same (check_circuit_breaker env tip.amount tip.creator tip.token)
            (checked env h.state config tip.amount tip.creator tip.token) propagate s
            (check-free env config tip.amount tip.creator tip.token s h.state h.armed h.stored
              h.free)))
        (acted-IsUnhalted env tip.amount s h _
          (optimized_check_sequence-HasEnd env config tip.amount h.state tip.creator tip.token))

  -- Under a cached, valid and enabled config with no maintenance, and from a cached state with no halt:
  -- after any sequence of invocations that check a tip and pass the error on, of which the failing ones
  -- are rolled back, an oversized tip fails with the check's error, and the cached state is not halted
  -- at any time, as the halt of an oversized tip is rolled back with its error.
  pub run-is_halted :
      (calls : List (Env × TipRequest)) (s : Store) (env : Env) (tip : TipRequest) (now : ℕ)
      → IsUnhalted config s
      → config.max_single_tip <ℤ tip.amount
      → (invoke env tip (run invoke calls s) ≡ err (panic invalid_configuration))
        × (is_halted (get_or (new_state now) (run invoke calls s).cache_state) now ≡ false)
  unfolding invoke
  run-is_halted calls s env tip now h l =
      let k = run-keeps invoke (IsUnhalted config) invoke-IsUnhalted calls s h in
      let (t, e, _) =
        check-spike env config tip.amount tip.creator tip.token (run invoke calls s) k.state k.armed
          k.stored k.free l in
      (
        ended (check_circuit_breaker env tip.amount tip.creator tip.token) (run invoke calls s) t _
            e,
        rw k.stored (free-tests k.state config now k.free).2,
      )
