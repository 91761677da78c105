-- ===== src/RiskManagement.antt =====
-- The exposure of the participants, contracts/risk-management/src/lib.rs.
pub mod Laws
pub mod Totals
mod Tests
use stellar_tipjar_contracts.Common.{
  nat_eq, ℕ, Bool, true, false, not, Option, none, some, List, [], ◌∷◌, nat_beq, is_some, get_or,
  if◌then◌else◌,
}
use stellar_tipjar_contracts.Common.Int.{
  ℤ, pos, pos_part, leb_ℤ, ltb_ℤ, add_i128, mul_i128, sub_i128, checked_div,
}
use stellar_tipjar_contracts.Common.Map.{Map, get, set}
use stellar_tipjar_contracts.Soroban.{
  Address, Effect, Env, M, ok, pure, gets, or_raise, or_trap, raise_if, modify, require_auth, ◌>>=◌,
  ◌>>◌,
}

pub record RiskProfile : Type 0 where
  pub owner : Address
  pub exposure : ℤ
  pub risk_score : ℕ
  pub alert_threshold : ℤ

pub record RiskMetrics : Type 0 where
  pub total_exposure : ℤ
  pub high_risk_count : ℕ
  pub last_updated : ℕ

pub data RiskError : Type 0 where
  unauthorized not_registered exposure_limit_exceeded already_registered : RiskError
  invalid_threshold : RiskError

-- The events, whose topics are the constructors' names.
pub data Event : Type 0 where
  exposure_updated : Address → ℤ → ℕ → Event
  alert : Address → ℤ → ℤ → Event

-- One field for each variant of the source's `DataKey`, and the log.
pub record Register : Type 0 where
  pub profiles : Map Address RiskProfile
  pub metrics : Option RiskMetrics
  pub admin : Option Address
  pub log : List (Effect Unit Event)

abbrev pub Call : Type 0 → Type 0
Call A = M Register RiskError A

abbrev pub publish : Event → Call (Unit {0})
publish e s = ok (tt, record s { log = Effect.published e ∷ s.log })

abbrev pub no_metrics : RiskMetrics
no_metrics = record { total_exposure = pos 0; high_risk_count = 0; last_updated = 0 }

-- Nothing keeps the call from being repeated.
unfoldable pub init : Env → Address → Call (Unit {0})
unfolding ◌>>=◌ ◌>>◌
init env admin = do
  require_auth env admin
  modify (λ s. record s { admin = some admin })
  modify (λ s. record s {
    metrics =
        some (record { total_exposure = pos 0; high_risk_count = 0; last_updated = env.timestamp });
  })

unfoldable pub register_participant : Env → Address → ℤ → Call (Unit {0})
unfolding ◌>>=◌ ◌>>◌
register_participant env caller alert_threshold = do
  require_auth env caller
  raise_if (leb_ℤ alert_threshold (pos 0)) invalid_threshold
  raise_if (is_some (← gets (λ s. get caller s.profiles))) already_registered
  let profile : RiskProfile = record {
    owner = caller;
    exposure = pos 0;
    risk_score = 0;
    alert_threshold = alert_threshold;
  }
  modify (λ s. record s { profiles = set caller profile s.profiles })

-- The score before it is capped; the division traps where it has no result.
unfoldable pub raw_score : ℤ → ℤ → Call ℤ
raw_score exposure alert_threshold =
    if ltb_ℤ (pos 0) alert_threshold
    then or_trap (checked_div (mul_i128 exposure (pos 100)) alert_threshold)
    else pure (pos 100)

-- The cap at 0 and 100.
unfoldable pub capped : ℤ → ℕ
capped score =
    if ltb_ℤ (pos 100) score then 100 else if ltb_ℤ score (pos 0) then 0 else pos_part score

unfoldable pub update_exposure : Env → Address → ℤ → Call (Unit {0})
unfolding raw_score ◌>>=◌ ◌>>◌
update_exposure env caller delta = do
  require_auth env caller
  profile ← or_raise (← gets (λ s. get caller s.profiles)) not_registered
  let exposure = add_i128 profile.exposure delta
  raw ← raw_score exposure profile.alert_threshold
  modify (λ s. record s {
    profiles =
        set caller (record profile { exposure = exposure; risk_score = capped raw }) s.profiles;
  })
  metrics ← gets (λ s. get_or no_metrics s.metrics)
  modify (λ s. record s {
    metrics = some (record metrics {
      total_exposure = add_i128 (sub_i128 metrics.total_exposure profile.exposure) exposure;
      last_updated = env.timestamp;
    });
  })
  publish (exposure_updated caller exposure (capped raw))
  (if ltb_ℤ profile.alert_threshold exposure
      then publish (alert caller exposure profile.alert_threshold)
      else pure tt)

unfoldable pub check_exposure : Address → Call RiskProfile
unfolding ◌>>=◌ ◌>>◌
check_exposure owner = do or_raise (← gets (λ s. get owner s.profiles)) not_registered

unfoldable pub enforce_limit : Env → Address → Call (Unit {0})
unfolding ◌>>=◌ ◌>>◌
enforce_limit env caller = do
  require_auth env caller
  profile ← or_raise (← gets (λ s. get caller s.profiles)) not_registered
  raise_if (ltb_ℤ profile.alert_threshold profile.exposure) exposure_limit_exceeded

unfoldable pub get_risk_metrics : Call RiskMetrics
get_risk_metrics = gets (λ s. get_or no_metrics s.metrics)

unfoldable pub reset_exposure : Env → Address → Address → Call (Unit {0})
unfolding ◌>>=◌ ◌>>◌
reset_exposure env admin owner = do
  require_auth env admin
  stored_admin ← or_raise (← gets (λ s. s.admin)) unauthorized
  raise_if (not (nat_beq stored_admin admin)) unauthorized
  profile ← or_raise (← gets (λ s. get owner s.profiles)) not_registered
  modify (λ s. record s {
    profiles = set owner (record profile { exposure = pos 0; risk_score = 0 }) s.profiles;
  })
  metrics ← gets (λ s. get_or no_metrics s.metrics)
  modify (λ s. record s {
    metrics = some (record metrics {
      total_exposure = sub_i128 metrics.total_exposure profile.exposure;
      last_updated = env.timestamp;
    });
  })
