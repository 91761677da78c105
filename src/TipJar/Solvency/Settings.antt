-- ===== src/TipJar/Solvency/Settings.antt =====
-- Solvency across the calls that move no tokens.
use stellar_tipjar_contracts.Common.{ℕ, arith}
use stellar_tipjar_contracts.Common.Int.{ℤ}
use stellar_tipjar_contracts.Soroban.{Address, Env, After}
use stellar_tipjar_contracts.TipJar.State.{State}
use stellar_tipjar_contracts.TipJar.Books.{IsSolvent}
use stellar_tipjar_contracts.TipJar.Tokens.{add_token, remove_token}
use stellar_tipjar_contracts.TipJar.Payouts.{
  set_payout_address, cancel_payout_address, authorize_operator, revoke_operator,
}
use stellar_tipjar_contracts.TipJar.Admin.{propose_admin, accept_admin, cancel_admin_transfer}
use stellar_tipjar_contracts.TipJar.Upgrade.{
  propose_upgrade, cancel_upgrade, execute_upgrade, migrate,
}
use stellar_tipjar_contracts.TipJar.Breaker.{
  set_guardian, set_guardian_pause_duration, pause_internal, unpause_internal,
}
use stellar_tipjar_contracts.TipJar.Fees.{
  set_fee, propose_fee_collector, accept_fee_collector, cancel_fee_collector_transfer,
}

module _ (this token : Address) (env : Env) (s : State) (h : IsSolvent this token s) where
  pub add_token-IsSolvent : (a b : Address) → After (IsSolvent this token) (add_token env a b s)
  unfolding add_token
  add_token-IsSolvent a b = ground arith

  pub remove_token-IsSolvent :
      (a b : Address) → After (IsSolvent this token) (remove_token env a b s)
  unfolding remove_token
  remove_token-IsSolvent a b = ground arith

  pub set_payout_address-IsSolvent :
      (a b : Address) → After (IsSolvent this token) (set_payout_address env a b s)
  unfolding set_payout_address
  set_payout_address-IsSolvent a b = ground arith

  pub cancel_payout_address-IsSolvent :
      (a : Address) → After (IsSolvent this token) (cancel_payout_address env a s)
  unfolding cancel_payout_address
  cancel_payout_address-IsSolvent a = ground arith

  pub authorize_operator-IsSolvent :
      (a b : Address) (z : ℤ) (n : ℕ)
      → After (IsSolvent this token) (authorize_operator env a b z n s)
  unfolding authorize_operator
  authorize_operator-IsSolvent a b z n = ground arith

  pub revoke_operator-IsSolvent :
      (a b : Address) → After (IsSolvent this token) (revoke_operator env a b s)
  unfolding revoke_operator
  revoke_operator-IsSolvent a b = ground arith

  pub propose_admin-IsSolvent :
      (a b : Address) → After (IsSolvent this token) (propose_admin env a b s)
  unfolding propose_admin
  propose_admin-IsSolvent a b = ground arith

  pub accept_admin-IsSolvent : (a : Address) → After (IsSolvent this token) (accept_admin env a s)
  unfolding accept_admin
  accept_admin-IsSolvent a = ground arith

  pub cancel_admin_transfer-IsSolvent :
      (a : Address) → After (IsSolvent this token) (cancel_admin_transfer env a s)
  unfolding cancel_admin_transfer
  cancel_admin_transfer-IsSolvent a = ground arith

  pub propose_upgrade-IsSolvent :
      (a : Address) (n : ℕ) → After (IsSolvent this token) (propose_upgrade env a n s)
  unfolding propose_upgrade
  propose_upgrade-IsSolvent a n = ground arith

  pub cancel_upgrade-IsSolvent :
      (a : Address) → After (IsSolvent this token) (cancel_upgrade env a s)
  unfolding cancel_upgrade
  cancel_upgrade-IsSolvent a = ground arith

  pub execute_upgrade-IsSolvent : After (IsSolvent this token) (execute_upgrade env s)
  unfolding execute_upgrade
  execute_upgrade-IsSolvent = ground arith

  pub migrate-IsSolvent : (a : Address) → After (IsSolvent this token) (migrate env a s)
  unfolding migrate
  migrate-IsSolvent a = ground arith

  pub set_guardian-IsSolvent :
      (a b : Address) → After (IsSolvent this token) (set_guardian env a b s)
  unfolding set_guardian
  set_guardian-IsSolvent a b = ground arith

  pub set_guardian_pause_duration-IsSolvent :
      (a : Address) (n : ℕ) → After (IsSolvent this token) (set_guardian_pause_duration env a n s)
  unfolding set_guardian_pause_duration
  set_guardian_pause_duration-IsSolvent a n = ground arith

  pub pause_internal-IsSolvent :
      (a : Address) (n : ℕ) → After (IsSolvent this token) (pause_internal env a n s)
  unfolding pause_internal
  pause_internal-IsSolvent a n = ground arith

  pub unpause_internal-IsSolvent :
      (a : Address) (n : ℕ) → After (IsSolvent this token) (unpause_internal env a n s)
  unfolding unpause_internal
  unpause_internal-IsSolvent a n = ground arith

  pub set_fee-IsSolvent : (a : Address) (n : ℕ) → After (IsSolvent this token) (set_fee env a n s)
  unfolding set_fee
  set_fee-IsSolvent a n = ground arith

  pub propose_fee_collector-IsSolvent :
      (a b : Address) → After (IsSolvent this token) (propose_fee_collector env a b s)
  unfolding propose_fee_collector
  propose_fee_collector-IsSolvent a b = ground arith

  pub accept_fee_collector-IsSolvent :
      (a : Address) → After (IsSolvent this token) (accept_fee_collector env a s)
  unfolding accept_fee_collector
  accept_fee_collector-IsSolvent a = ground arith

  pub cancel_fee_collector_transfer-IsSolvent :
      (a : Address) → After (IsSolvent this token) (cancel_fee_collector_transfer env a s)
  unfolding cancel_fee_collector_transfer
  cancel_fee_collector_transfer-IsSolvent a = ground arith
