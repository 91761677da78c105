-- ===== src/TipJar/Tests.antt =====
-- Runs of the tip jar at concrete inputs: the token is 5, the admin 1, the contract itself 0.
use stellar_tipjar_contracts.Common.{
  nat_eq, pair_eq, ℕ, ◌≡◌, refl, true, not, none, some, List, [], ◌∷◌, nat_beq, arith,
}
use stellar_tipjar_contracts.Common.Int.{pos, int_laws, parts_of_eq, IsAmount-zero, fits_i128}
use stellar_tipjar_contracts.Common.Map.{get, sum-empty}
use stellar_tipjar_contracts.Soroban.{Env, After, Returns, ok, err, panic, ◌>>◌}
use stellar_tipjar_contracts.TipJar.Types.{timelock_not_elapsed}
use stellar_tipjar_contracts.TipJar.State.{State, deployed}
use stellar_tipjar_contracts.TipJar.Internal.{fee_for, maybe_migrate_creator_data}
use stellar_tipjar_contracts.TipJar.Tips.{get_balance, get_total_tips}
use stellar_tipjar_contracts.TipJar.Tips
use stellar_tipjar_contracts.TipJar.Withdrawals
use stellar_tipjar_contracts.TipJar.Payouts
use stellar_tipjar_contracts.TipJar.Admin
use stellar_tipjar_contracts.TipJar.Upgrade
use stellar_tipjar_contracts.TipJar.Calls.{Op, init, set_fee, tip, withdraw, add_token, invoke, run}
use stellar_tipjar_contracts.TipJar.FeeRate.{exact_fee, fee_for-eq}
use stellar_tipjar_contracts.TipJar.Settings.{installs}
use stellar_tipjar_contracts.TipJar.Books.{has_token, IsSolvent, legacy_owed, legacy_part_out}
use stellar_tipjar_contracts.TipJar.Solvency.Runs.{AllOutside, run-IsSolvent}
use stellar_tipjar_contracts.TipJar.View.{held, tipped}
use stellar_tipjar_contracts.TipJar.View.Migration.{queries-view}
use stellar_tipjar_contracts.TipJar.View.Tips.{IsTip, tip-IsTip}
use stellar_tipjar_contracts.TipJar.View.Withdrawals.{payee}
use stellar_tipjar_contracts.TipJar.Allowance.{left_of, withdraw-IsLeft}
use stellar_tipjar_contracts.TipJar.Access.{Change, IsListed}
use stellar_tipjar_contracts.TipJar.Access.Calls.{invoke-Change, run-IsListed}
use stellar_tipjar_contracts.TipJar.Handover.{
  propose_admin-accept_admin, propose_upgrade-execute_early, propose_upgrade-execute_upgrade,
}
use stellar_tipjar_contracts.TipJar.PayoutDelay.{set_payout_address-payee}

-- Everyone but the contract has signed, and every transfer goes through.
abbrev at_ledger : ℕ → Env
at_ledger n = record {
  sequence = n;
  timestamp = 0;
  authorized = λ who. not (nat_beq who 0);
  this = 0;
  accepts = λ t. true;
}

-- A set-up jar with a fee of one per cent, whose creator 3 holds 990 of a version 1 entry.
abbrev jar : State
jar = record deployed {
  token = some 5;
  allowed_tokens = some (5 ∷ []);
  admin = some 1;
  upgrade_timelock_ledgers = some 100;
  fee_bps = some 100;
  creator_balance = (3, pos 990) ∷ [];
  creator_total = (3, pos 1000) ∷ [];
}

abbrev calls : List (Env × Op)
calls =
    (at_ledger 1, init 5 1 100)
    ∷ (at_ledger 2, set_fee 1 100)
    ∷ (at_ledger 3, tip 2 3 5 (pos 1000))
    ∷ (at_ledger 4, withdraw 3 3 5 3 (some (pos 90)))
    ∷ (at_ledger 5, withdraw 4 3 5 3 none)
    ∷ []

calls_outside : AllOutside 0 calls
unfolding fits_i128
calls_outside = (
  (refl, refl, tt),
  ((refl, refl, tt), ((refl, refl, refl), ((refl, refl, tt), ((refl, refl, tt), tt)))),
)

deployed-IsSolvent : IsSolvent 0 5 deployed
unfolding get
deployed-IsSolvent = record {
  balances = tt;
  old_balances = tt;
  fees = tt;
  old_fees = IsAmount-zero;
  rate = omega arith;
  unused = λ h. (refl, refl);
  covered = omega (
    int_laws,
    parts_of_eq (sum-empty (has_token 5)),
    parts_of_eq (legacy_part_out 5 none (legacy_owed deployed) refl),
  );
}

run-IsSolvent_example : IsSolvent 0 5 (run calls deployed)
run-IsSolvent_example = run-IsSolvent 0 5 calls deployed calls_outside deployed-IsSolvent

tip-IsTip_example :
    After
      (IsTip 3 5 3 5 (pos 1000) (pos (exact_fee 1000 100)) jar)
      (Tips.tip (at_ledger 9) 2 3 5 (pos 1000) jar)
unfolding fits_i128
tip-IsTip_example = tip-IsTip (at_ledger 9) 2 3 5 (pos 1000) jar 3 5 refl (omega arith)

abbrev shared : State
shared = record jar { operator = ((3, 4), (pos 100, 50)) ∷ [] }

shared_entry : get (3, 4) shared.operator ≡ some (pos 100, 50)
unfolding get
shared_entry = refl

withdraw-IsLeft_example :
    After
      (λ t. get (3, 4) t.operator ≡ left_of (pos 100) 50 (pos 30))
      (Withdrawals.withdraw (at_ledger 9) 4 3 5 3 (some (pos 30)) shared)
unfolding fits_i128
withdraw-IsLeft_example =
    withdraw-IsLeft (at_ledger 9) 4 3 5 3 (pos 100) (pos 30) 50 shared (omega arith, refl)
      shared_entry refl

invoke-Change_example : After (Change (at_ledger 9) jar) (invoke (at_ledger 9) (add_token 1 6) jar)
invoke-Change_example = invoke-Change (at_ledger 9) jar (add_token 1 6)

run-IsListed_example :
    IsListed (run ((at_ledger 9, add_token 1 6) ∷ (at_ledger 9, add_token 1 6) ∷ []) deployed)
run-IsListed_example =
    run-IsListed ((at_ledger 9, add_token 1 6) ∷ (at_ledger 9, add_token 1 6) ∷ []) deployed
      (record { distinct = tt; bounded = omega arith })

queries-view_example :
    (get_balance 3 5 jar ≡ ok (held 3 5 jar, maybe_migrate_creator_data 3 5 jar))
    × (get_total_tips 3 5 jar ≡ ok (tipped 3 5 jar, maybe_migrate_creator_data 3 5 jar))
queries-view_example = queries-view 3 5 jar

set_payout_address-payee_example :
    After (λ t. payee (at_ledger 20000) 3 t ≡ 7) (Payouts.set_payout_address (at_ledger 9) 3 7 jar)
set_payout_address-payee_example =
    set_payout_address-payee (at_ledger 9) (at_ledger 20000) jar 3 3 7 (omega arith)

propose_upgrade-execute_early_example :
    (Upgrade.propose_upgrade (at_ledger 9) 1 77 >> Upgrade.execute_upgrade (at_ledger 108)) jar
    ≡ err (panic timelock_not_elapsed)
propose_upgrade-execute_early_example =
    propose_upgrade-execute_early (at_ledger 9) (at_ledger 108) jar 1 refl refl 77 100 refl refl
      (omega arith) (omega arith)

propose_upgrade-execute_upgrade_example :
    Returns
      (λ t. (installs t.log ≡ 77 ∷ installs jar.log) × (t.pending_upgrade ≡ none))
      ((Upgrade.propose_upgrade (at_ledger 9) 1 77 >> Upgrade.execute_upgrade (at_ledger 109)) jar)
propose_upgrade-execute_upgrade_example =
    propose_upgrade-execute_upgrade (at_ledger 9) (at_ledger 109) jar 1 refl refl 77 100 refl refl
      (omega arith) (omega arith)

propose_admin-accept_admin_example :
    Returns
      (λ t. (t.admin ≡ some 8) × (t.pending_admin ≡ none))
      ((Admin.propose_admin (at_ledger 9) 1 8 >> Admin.accept_admin (at_ledger 34_569) 8) jar)
propose_admin-accept_admin_example =
    propose_admin-accept_admin (at_ledger 9) (at_ledger 34_569) jar 1 refl refl 8 refl (omega arith)
      refl (omega arith)

fee_for-eq_example : fee_for (pos 1050) 100 jar ≡ ok (pos 10, jar)
unfolding fits_i128
fee_for-eq_example = fee_for-eq 1050 100 jar
