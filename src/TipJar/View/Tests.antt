-- ===== src/TipJar/View/Tests.antt =====
-- A tip and a withdrawal that return: the token is 5, the admin 1, the creator 3.
use stellar_tipjar_contracts.Common.{
  nat_eq, pair_eq, ◌≡◌, refl, true, false, some, [], ◌∷◌, contains, arith,
}
use stellar_tipjar_contracts.Common.Int.{pos, ◌+ℤ◌, IsAmount, fits_i128}
use stellar_tipjar_contracts.Common.Map.{get}
use stellar_tipjar_contracts.Soroban.{Env, Returns}
use stellar_tipjar_contracts.TipJar.State.{State, deployed}
use stellar_tipjar_contracts.TipJar.Internal.{is_paused, effective_pause_flags}
use stellar_tipjar_contracts.TipJar.Tips.{tip}
use stellar_tipjar_contracts.TipJar.FeeRate.{exact_fee}
use stellar_tipjar_contracts.TipJar.View.{view, old_entry, fee_view, held, tipped, collected}
use stellar_tipjar_contracts.TipJar.View.Tips.{IsTip}
use stellar_tipjar_contracts.TipJar.View.Receipts.{tip-Returns}

-- Everyone has signed, and every transfer goes through.
abbrev env : Env
env = record {
  sequence = 9;
  timestamp = 0;
  authorized = λ who. true;
  this = 0;
  accepts = λ t. true;
}

-- A fee of one per cent; the creator holds 990 of a version 1 entry.
abbrev jar : State
jar = record deployed {
  token = some 5;
  allowed_tokens = some (5 ∷ []);
  admin = some 1;
  fee_bps = some 100;
  creator_balance = (3, pos 990) ∷ [];
  creator_total = (3, pos 1000) ∷ [];
}

jar-runs : (is_paused env 1 jar ≡ false) × (is_paused env 2 jar ≡ false)
unfolding is_paused effective_pause_flags
jar-runs = (refl, refl)

jar-words : IsAmount (held 3 5 jar) × IsAmount (tipped 3 5 jar) × IsAmount (collected 5 jar)
unfolding fits_i128 view old_entry fee_view get ◌+ℤ◌
jar-words = ((omega arith, refl), (omega arith, refl), (omega arith, refl))

jar-room :
    (fits_i128 (held 3 5 jar +ℤ pos 1000) ≡ true)
    × (fits_i128 (tipped 3 5 jar +ℤ pos 1000) ≡ true)
    × (fits_i128 (collected 5 jar +ℤ pos 1000) ≡ true)
unfolding fits_i128 view old_entry fee_view get ◌+ℤ◌
jar-room = (refl, refl, refl)

lists_token : contains 5 (5 ∷ []) ≡ true
unfolding contains
lists_token = refl

fits : (fits_i128 (pos 1000) ≡ true) × (fits_i128 (pos 100_000) ≡ true)
unfolding fits_i128
fits = (refl, refl)

tip-Returns_example :
    Returns (IsTip 3 5 3 5 (pos 1000) (pos (exact_fee 1000 100)) jar) (tip env 2 3 5 (pos 1000) jar)
tip-Returns_example =
    tip-Returns env 2 3 5 1 1000 jar 3 5 refl jar-runs.0 refl lists_token (omega arith) refl
      (omega arith) fits.0 fits.1 (jar-words.0, jar-room.0) (jar-words.1, jar-room.1)
      (jar-words.2, jar-room.2)
