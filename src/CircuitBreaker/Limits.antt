-- ===== src/CircuitBreaker/Limits.antt =====
-- What the accepted tips can add up to, how the rate counts them, and which config a check reads.
use stellar_tipjar_contracts.Common.{ℕ, ◌+◌, ◌≤◌, ◌<◌, ◌≡◌, refl, ◌∙◌, true, some, ◌∷◌, arith}
use stellar_tipjar_contracts.Common.Int.{ℤ, pos, ◌≤ℤ◌, ◌+ℤ◌}
use stellar_tipjar_contracts.Common.Saturating.{u64_max, u32_max, saturating_add, min}
use stellar_tipjar_contracts.Soroban.{Address, Env, ok, then-ok, require_auth, ◌>>=◌, ◌>>◌}
use stellar_tipjar_contracts.CircuitBreaker.{
  EnhancedCircuitBreakerConfig, EnhancedCircuitBreakerState, RateLimitState, accepted, absent,
  validate,
}
use stellar_tipjar_contracts.CircuitBreaker.Volumes.{update_all_windows, update_rate_limit_state}
use stellar_tipjar_contracts.CircuitBreaker.Store.{Store, config_set, set_enhanced_config}
use stellar_tipjar_contracts.CircuitBreaker.Guard.{updated_by, check_enabled, check_circuit_breaker}
use stellar_tipjar_contracts.CircuitBreaker.Checks.{IsArmed, IsFree, check_circuit_breaker-armed}
use stellar_tipjar_contracts.CircuitBreaker.Acceptance.{
  rated, check-accepts, window-bound, below-all, validate-positive,
}

-- Every window's volume is at most its threshold and one largest tip.
pub record IsWithin (config : EnhancedCircuitBreakerConfig) (v : EnhancedCircuitBreakerState)
    : Type 0 where
  pub minute :
      v.one_minute_window.current_volume ≤ℤ (config.one_minute_threshold +ℤ config.max_single_tip)
  pub five :
      v.five_minute_window.current_volume ≤ℤ (config.five_minute_threshold +ℤ config.max_single_tip)
  pub hour :
      v.one_hour_window.current_volume ≤ℤ (config.one_hour_threshold +ℤ config.max_single_tip)
  pub day :
      v.twenty_four_hour_window.current_volume
      ≤ℤ (config.twenty_four_hour_threshold +ℤ config.max_single_tip)

-- No window's volume is negative.
pub record IsNonnegative (st : EnhancedCircuitBreakerState) : Type 0 where
  pub minute : pos 0 ≤ℤ st.one_minute_window.current_volume
  pub five : pos 0 ≤ℤ st.five_minute_window.current_volume
  pub hour : pos 0 ≤ℤ st.one_hour_window.current_volume
  pub day : pos 0 ≤ℤ st.twenty_four_hour_window.current_volume

twice :
    (r : RateLimitState) (now : ℕ)
    → r.current_minute_start + 60 ≤ u64_max
    → now < r.current_minute_start + 60
    → r.tips_this_minute + 2 ≤ u32_max
    → (update_rate_limit_state (update_rate_limit_state r now) now).tips_this_minute
      ≡ r.tips_this_minute + 2
unfolding update_rate_limit_state saturating_add min
twice r now w h k = ground arith

module _ (env : Env) (config : EnhancedCircuitBreakerConfig) (amount : ℤ) (creator token : Address)
    (s : Store) (st : EnhancedCircuitBreakerState) (armed : IsArmed config s)
    (stored : s.cache_state ≡ some st) (free : IsFree config st) (plain : st.anomaly_state ≡ absent)
    (t : Store)
    (accepts : check_circuit_breaker env amount creator token s ≡ ok (accepted, t)) where
  -- If a check under a cached, valid and enabled config, from a state with no halt, no anomaly statistics and
  -- no negative volume, accepts an amount from 0 on: the stored state has each window's volume at most
  -- its threshold and one largest tip.
  pub check-IsWithin :
      validate config ≡ accepted
      → IsNonnegative st
      → pos 0 ≤ℤ amount
      → (v : EnhancedCircuitBreakerState) × (t.cache_state ≡ some v) × IsWithin config v
  unfolding updated_by update_all_windows
  check-IsWithin valid n p =
      let (l, below, e) =
        check-accepts env config amount creator token s st armed stored free plain t accepts in
      let (m, f, h, d) = below-all st config env.timestamp below in
      let (_, m', f', h', d', _) = validate-positive config valid in
      (
        updated_by (rated st env.timestamp) amount env.timestamp,
        e,
        record {
          minute = window-bound _ _ _ _ env.timestamp 60 m l m' p n.minute;
          five = window-bound _ _ _ _ env.timestamp 300 f l f' p n.five;
          hour = window-bound _ _ _ _ env.timestamp 3600 h l h' p n.hour;
          day = window-bound _ _ _ _ env.timestamp 86400 d l d' p n.day;
        },
      )

  -- If a check under a cached and enabled config, from a state with no halt and no anomaly statistics, accepts
  -- a tip in the current minute, the tips of this minute have grown by 2; time and count do not overflow.
  check-counts_twice :
      st.rate_limit_state.current_minute_start + 60 ≤ u64_max
      → env.timestamp < st.rate_limit_state.current_minute_start + 60
      → st.rate_limit_state.tips_this_minute + 2 ≤ u32_max
      → (v : EnhancedCircuitBreakerState) × (t.cache_state ≡ some v)
        × (v.rate_limit_state.tips_this_minute ≡ st.rate_limit_state.tips_this_minute + 2)
  unfolding updated_by update_all_windows
  check-counts_twice w h k =
      let (_, _, e) =
        check-accepts env config amount creator token s st armed stored free plain t accepts in
      (
        updated_by (rated st env.timestamp) amount env.timestamp,
        e,
        twice st.rate_limit_state env.timestamp w h k,
      )

-- Where a config is cached and enabled, an admin's new config that is valid is stored, but every check in
-- that state goes on under the cached one.
pub set_enhanced_config-check :
    (env later : Env) (config fresh : EnhancedCircuitBreakerConfig) (admin : Address) (s : Store)
    → IsArmed config s
    → env.authorized admin ≡ true
    → validate fresh ≡ accepted
    → (t : Store) × (set_enhanced_config env admin fresh s ≡ ok (accepted, t))
      × (t.enhanced_config ≡ some fresh)
      × ((amount : ℤ) (creator token : Address)
          → check_circuit_breaker later amount creator token t
            ≡ check_enabled later config amount creator token t)
unfolding set_enhanced_config ◌>>=◌ ◌>>◌
set_enhanced_config-check env later config fresh admin s a h v = (
  record s { enhanced_config = some fresh; log = config_set admin fresh ∷ s.log },
  then-ok s (require_auth env admin) _ (rw (h, require_auth) refl) ∙ rw v refl,
  refl,
  λ amount creator token.
      check_circuit_breaker-armed later config amount creator token _
        (record { cached = a.cached; valid = a.valid; enabled = a.enabled }),
)
