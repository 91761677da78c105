-- ===== src/CircuitBreaker/Runs.antt =====
-- Sequences of checks: what the stored state keeps.
use stellar_tipjar_contracts.Common.{
  ℕ, ◌≡◌, refl, Bool, true, false, Option, none, some, get_or, List, [], ◌∷◌, ltb, if◌then◌else◌,
  Bool-cases, inl, inr, arith,
}
use stellar_tipjar_contracts.Common.Int.{ℤ, pos, ◌≤ℤ◌}
use stellar_tipjar_contracts.Soroban.{
  Address, Env, Result, ok, err, or_trap, After, After-bind, After-then, ◌>>=◌, ◌>>◌,
}
use stellar_tipjar_contracts.CircuitBreaker.{
  EnhancedCircuitBreakerConfig, EnhancedCircuitBreakerState, CircuitBreakerError, Verdict, accepted,
  refused, invalid_configuration, TriggerType, TriggerSeverity, new_state,
}
use stellar_tipjar_contracts.CircuitBreaker.Volumes.{Finding}
use stellar_tipjar_contracts.CircuitBreaker.Halts.{
  is_none, check_automatic_recovery, should_block_operations, validate_state_integrity,
}
use stellar_tipjar_contracts.CircuitBreaker.Store.{
  Store, get_cached_config, load_config, update_config_cache, update_state_cache,
  get_enhanced_config,
}
use stellar_tipjar_contracts.CircuitBreaker.Store.Audits.{
  check_and_emit_status, emit_periodic_status, should_emit_status,
}
use stellar_tipjar_contracts.CircuitBreaker.Guard.{
  recover, halt, blocked, act_on, checked, optimized_check_sequence, should_skip_checks, updated_by,
  check_enabled, check_under, check_circuit_breaker,
}
use stellar_tipjar_contracts.CircuitBreaker.Checks.{halt-refuses}
use stellar_tipjar_contracts.CircuitBreaker.Recovery.{check_enabled-from, recover-lifts}
use stellar_tipjar_contracts.CircuitBreaker.Soundness.{
  IsSound, Sane, perform_automatic_recovery-IsSound, activate_halt-IsSound, updated_by-IsSound,
  optimized_check_sequence-Sane,
}

recover-keeps :
    (env : Env) (st : EnhancedCircuitBreakerState) (s : Store)
    → check_automatic_recovery st env.timestamp ≡ false
    → recover env st s ≡ ok (st, s)
unfolding recover
recover-keeps env st s h = rw h refl

-- The state that a check starts from, and that the cache holds if it holds one.
abbrev pub OnCache : Store → Type 0
OnCache s = (now : ℕ) → IsSound (get_or (new_state now) s.cache_state)

stored-OnCache :
    (st : EnhancedCircuitBreakerState) (s : Store)
    → s.cache_state ≡ some st
    → IsSound st
    → OnCache s
stored-OnCache st s e h now = rw e h

halt-OnCache :
    (env : Env) (st : EnhancedCircuitBreakerState) (config : EnhancedCircuitBreakerConfig)
    (cause : TriggerType) (level : TriggerSeverity) (s : Store)
    → IsSound st
    → is_none cause ≡ false
    → After OnCache (halt env st config cause level s)
halt-OnCache env st config cause level s h e =
    let (t, r, l) = halt-refuses env st config cause level s in
    let sound = activate_halt-IsSound st config cause level env.timestamp e h in
    rw r (record { holds = stored-OnCache _ t l.stored sound })

check_and_emit_status-OnCache :
    (env : Env) (st : EnhancedCircuitBreakerState) (s : Store)
    → OnCache s
    → After OnCache (check_and_emit_status env st none s)
unfolding check_and_emit_status emit_periodic_status ◌>>=◌ ◌>>◌
check_and_emit_status-OnCache env st s h =
    elim (Bool-cases (should_emit_status env st (get_or 0 s.last_status) 300)) [
      | inl due ↦ rw due (record { holds = h })
      | inr early ↦ rw early (record { holds = h })
    ]

blocked-OnCache :
    (env : Env) (st : EnhancedCircuitBreakerState) (s : Store)
    → OnCache s
    → After OnCache (blocked env st s)
unfolding blocked
blocked-OnCache env st s h =
    After-then _ OnCache (check_and_emit_status env st none)
      (check_and_emit_status-OnCache env st s h) (λ t k. record { holds = k })

module _ (env : Env) (config : EnhancedCircuitBreakerConfig) (amount : ℤ) (creator token : Address)
    (nonneg : pos 0 ≤ℤ amount) where
  checked-OnCache :
      (st : EnhancedCircuitBreakerState) (s : Store)
      → IsSound st
      → After OnCache (checked env st config amount creator token s)
  unfolding checked act_on ◌>>=◌ ◌>>◌ update_state_cache
  checked-OnCache st s h =
      go (optimized_check_sequence env st config amount creator token)
        (optimized_check_sequence-Sane env st config amount creator token h)
    where
      go :
          (o : Option (EnhancedCircuitBreakerState × Finding))
          → Sane o
          → After OnCache ((or_trap o >>= act_on env config amount) s)
      go none k = record { holds = tt }
      go (some (u, none)) k = record {
        holds =
            stored-OnCache (updated_by u amount env.timestamp)
              (update_state_cache (updated_by u amount env.timestamp) s) refl
              (updated_by-IsSound u amount env.timestamp nonneg k);
      }
      go (some (u, some (cause, level))) k = halt-OnCache env u config cause level s k.0 k.1

  step-OnCache :
      (st : EnhancedCircuitBreakerState) (s : Store)
      → IsSound st
      → OnCache s
      → After OnCache (
          (if should_block_operations st config env.timestamp
              then blocked env st
              else checked env st config amount creator token)
            s)
  step-OnCache st s h k = elim (Bool-cases (should_block_operations st config env.timestamp)) [
    | inl b ↦ rw b (blocked-OnCache env st s k)
    | inr b ↦ rw b (checked-OnCache st s h)
  ]

  check_enabled-OnCache :
      (s : Store) → OnCache s → After OnCache (check_enabled env config amount creator token s)
  check_enabled-OnCache s h =
      let st : EnhancedCircuitBreakerState = get_or (new_state env.timestamp) s.cache_state in
      elim (Bool-cases (check_automatic_recovery st env.timestamp)) [
        | inl over ↦
            rw
              (check_enabled-from env config amount creator token s _ _
                (recover-lifts env st s over))
              (step-OnCache _ _
                (perform_automatic_recovery-IsSound st env.timestamp (h env.timestamp)) h)
        | inr on ↦
            rw
              (check_enabled-from env config amount creator token s _ _ (recover-keeps env st s on))
              (step-OnCache _ _ (h env.timestamp) h)
      ]

get_cached_config-OnCache : (s : Store) → OnCache s → After OnCache (get_cached_config s)
unfolding get_cached_config load_config get_enhanced_config update_config_cache
get_cached_config-OnCache s h = go (get_or false s.cache_valid) s.cache_config s.enhanced_config
  where
    load :
        (o : Option EnhancedCircuitBreakerConfig)
        → After {E = CircuitBreakerError} OnCache (elim o [
          | none ↦ ok (none, s)
          | some config ↦ ok (some config, update_config_cache config s)
        ])
    load none = record { holds = h }
    load (some config) = record { holds = h }

    go :
        (b : Bool) (c o : Option EnhancedCircuitBreakerConfig)
        → After {E = CircuitBreakerError} OnCache (
            if b
            then elim c [
              | none ↦ elim o [
                | none ↦ ok (none, s)
                | some config ↦ ok (some config, update_config_cache config s)
              ]
              | some config ↦ ok (some config, s)
            ]
            else elim o [
              | none ↦ ok (none, s)
              | some config ↦ ok (some config, update_config_cache config s)
            ])
    go false c o = load o
    go true none o = load o
    go true (some config) o = record { holds = h }

check_under-OnCache :
    (env : Env) (amount : ℤ) (creator token : Address)
    (cached : Option EnhancedCircuitBreakerConfig) (s : Store)
    → pos 0 ≤ℤ amount
    → OnCache s
    → After OnCache (check_under env amount creator token cached s)
unfolding check_under
check_under-OnCache env amount creator token none s p h = record { holds = h }
check_under-OnCache env amount creator token (some config) s p h =
    elim (Bool-cases (should_skip_checks config)) [
      | inl off ↦ rw off (record { holds = h })
      | inr on ↦ rw on (check_enabled-OnCache env config amount creator token p s h)
    ]

check_circuit_breaker-OnCache :
    (env : Env) (amount : ℤ) (creator token : Address) (s : Store)
    → pos 0 ≤ℤ amount
    → OnCache s
    → After OnCache (check_circuit_breaker env amount creator token s)
unfolding check_circuit_breaker
check_circuit_breaker-OnCache env amount creator token s p h =
    After-bind OnCache get_cached_config _ (get_cached_config-OnCache s h)
      (λ cached t k. check_under-OnCache env amount creator token cached t p k)

-- One check that the contract is asked for. One that traps is rolled back; of one that is refused the
-- state is kept, as for a caller that handles the error.
pub record Request : Type 0 where
  pub env : Env
  pub amount : ℤ
  pub creator : Address
  pub token : Address

unfoldable pub step : Request → Store → Store
step r s = elim (check_circuit_breaker r.env r.amount r.creator r.token s) [
  | ok (v, t) ↦ t
  | err e ↦ s
]

unfoldable pub run : List Request → Store → Store
run [] s = s
run (r ∷ rest) s = run rest (step r s)

abbrev pub IsPlausible : List Request → Type 0
IsPlausible [] = Unit
IsPlausible (r ∷ rest) = (pos 0 ≤ℤ r.amount) × IsPlausible rest

step-OnCache_lem : (r : Request) (s : Store) → pos 0 ≤ℤ r.amount → OnCache s → OnCache (step r s)
unfolding step
step-OnCache_lem r s p h =
    go (check_circuit_breaker r.env r.amount r.creator r.token s)
      (check_circuit_breaker-OnCache r.env r.amount r.creator r.token s p h)
  where
    go :
        (q : Result CircuitBreakerError (Verdict × Store))
        → After OnCache q
        → OnCache (elim q [ ok (v, t) ↦ t | err e ↦ s ])
    go (ok (v, t)) k = k.holds
    go (err e) k = h

run-OnCache : (rs : List Request) (s : Store) → IsPlausible rs → OnCache s → OnCache (run rs s)
unfolding run
run-OnCache [] s p h = h
run-OnCache (r ∷ rest) s p h = run-OnCache rest (step r s) p.1 (step-OnCache_lem r s p.0 h)

validate_state_integrity-IsSound :
    (st : EnhancedCircuitBreakerState)
    → IsSound st
    → validate_state_integrity st
      ≡ (if ltb 1_000_000 st.total_halts then refused invalid_configuration else accepted)
unfolding validate_state_integrity
validate_state_integrity-IsSound st h = ground (arith, h.reasoned, h.volumes.minute, h.counted)

-- Over any sequence of checks of amounts from 0 on, those that trap included, where the cached state, if
-- any, is sound: the state is refused as corrupt just where its halts are more than a million.
pub run-validate_state_integrity :
    (rs : List Request) (s : Store) (now : ℕ)
    → IsPlausible rs
    → OnCache s
    → validate_state_integrity (get_or (new_state now) (run rs s).cache_state) ≡ (
        if ltb 1_000_000 (get_or (new_state now) (run rs s).cache_state).total_halts
        then refused invalid_configuration
        else accepted)
run-validate_state_integrity rs s now p h =
    validate_state_integrity-IsSound _ (run-OnCache rs s p h now)
