-- ===== src/RiskManagement/Tests.antt =====
-- Runs of the register at concrete inputs.
use stellar_tipjar_contracts.Common.{
  nat_eq, ◌≡◌, refl, not, List, get_or, none, some, true, [], ◌∷◌, nat_beq,
}
use stellar_tipjar_contracts.Common.Int.{pos, wrap_i128, ◌+ℤ◌, ◌-ℤ◌}
use stellar_tipjar_contracts.Common.Map.{get, sum}
use stellar_tipjar_contracts.Common.Sums.{total, numbers}
use stellar_tipjar_contracts.Soroban.{Env, After, ok, err, ◌>>=◌, ◌>>◌, panic, run}
use stellar_tipjar_contracts.RiskManagement.{
  RiskProfile, RiskMetrics, Register, init, no_metrics, get_risk_metrics, exposure_limit_exceeded,
  enforce_limit,
}
use stellar_tipjar_contracts.RiskManagement.Totals.{
  RiskCall, set_up, last_base, IsTotalled, sum_of, invoke, run-get_risk_metrics,
}

abbrev everyone : Env
everyone = record {
  sequence = 1;
  timestamp = 9;
  authorized = λ who. not (nat_beq who 0);
  this = 0;
  accepts = λ t. true;
}

abbrev trader : RiskProfile
trader = record { owner = 4; exposure = pos 30; risk_score = 30; alert_threshold = pos 100 }

abbrev register : Register
register = record { profiles = (4, trader) ∷ []; metrics = none; admin = some 1; log = [] }

trader_stored : get 4 register.profiles ≡ some trader
unfolding get
trader_stored = refl

-- The total is that of the trader.
booked : Register
booked = record register {
  metrics = some (record { total_exposure = pos 30; high_risk_count = 0; last_updated = 1 });
}

booked-IsTotalled : IsTotalled (pos 0) booked
unfolding booked total numbers sum wrap_i128 ◌+ℤ◌ ◌-ℤ◌
booked-IsTotalled = record { total = refl }

-- A set-up is repeated between the updates.
abbrev calls : List (Env × RiskCall)
calls =
    (everyone, RiskCall.register 5 (pos 10))
    ∷ (everyone, set_up 4)
    ∷ (everyone, RiskCall.update 5 (pos 7))
    ∷ []

run-get_risk_metrics_example :
    (m : RiskMetrics) × (get_risk_metrics (run invoke calls booked)
      ≡ ok (m, run invoke calls booked))
    × (m.total_exposure
        ≡ wrap_i128 (sum_of (run invoke calls booked).profiles -ℤ last_base calls booked (pos 0)))
run-get_risk_metrics_example = run-get_risk_metrics calls (pos 0) booked booked-IsTotalled

-- A second set-up is accepted and clears the total, while the exposure stays.
set_up_again :
    After (λ t. (get_or no_metrics t.metrics).total_exposure ≡ pos 0) (init everyone 4 booked)
unfolding init ◌>>=◌ ◌>>◌
set_up_again = record { holds = refl }

-- The limit check refuses an exposure above the threshold.
over_limit :
    enforce_limit everyone 4
      (record register { profiles = (4, record trader { exposure = pos 110 }) ∷ [] })
    ≡ err (panic exposure_limit_exceeded)
unfolding enforce_limit get ◌>>=◌ ◌>>◌
over_limit = refl
