-- ===== src/TipJar/Calls.antt =====
-- The entry points of contracts/tipjar/src/lib.rs as data, and sequences of invocations.
use stellar_tipjar_contracts.Common.{ℕ, Option, List, [], ◌∷◌}
use stellar_tipjar_contracts.Common.Int.{ℤ}
use stellar_tipjar_contracts.Soroban.{Address, Env, Result, ok, err, After, Holds, pure, ◌>>=◌}
use stellar_tipjar_contracts.TipJar.State.{State, Call}
use stellar_tipjar_contracts.TipJar.Types.{Error}
use stellar_tipjar_contracts.TipJar.Tips
use stellar_tipjar_contracts.TipJar.Withdrawals
use stellar_tipjar_contracts.TipJar.Tokens
use stellar_tipjar_contracts.TipJar.Payouts
use stellar_tipjar_contracts.TipJar.Admin
use stellar_tipjar_contracts.TipJar.Upgrade
use stellar_tipjar_contracts.TipJar.Breaker
use stellar_tipjar_contracts.TipJar.Fees
use stellar_tipjar_contracts.TipJar.Legacy

-- Every entry point that can write to the storage, with its arguments.
pub data Op : Type 0 where
  init : Address → Address → ℕ → Op
  tip : Address → Address → Address → ℤ → Op
  get_total_tips get_balance : Address → Address → Op
  withdraw : Address → Address → Address → Address → Option ℤ → Op
  add_token remove_token set_payout_address : Address → Address → Op
  cancel_payout_address : Address → Op
  authorize_operator : Address → Address → ℤ → ℕ → Op
  revoke_operator propose_admin : Address → Address → Op
  accept_admin cancel_admin_transfer : Address → Op
  propose_upgrade : Address → ℕ → Op
  cancel_upgrade : Address → Op
  execute_upgrade : Op
  migrate : Address → Op
  set_guardian : Address → Address → Op
  set_guardian_pause_duration : Address → ℕ → Op
  pause_tips pause_withdrawals pause_all : Address → Op
  unpause_tips unpause_withdrawals unpause_all : Address → Op
  set_fee : Address → ℕ → Op
  propose_fee_collector : Address → Address → Op
  accept_fee_collector cancel_fee_collector_transfer : Address → Op
  withdraw_fees : Address → Address → Option ℤ → Op
  get_fee_balance : Address → Op
  tip_legacy : Address → Address → ℤ → Op
  get_total_tips_legacy : Address → Op
  withdraw_legacy : Address → Address → Address → Option ℤ → Op

-- A query as a call without a result.
unfoldable pub discard : {A : Type 0} → Call A → Call (Unit {0})
discard m = m >>= λ _. pure tt

unfoldable pub invoke : Env → Op → Call (Unit {0})
invoke env (init token admin timelock) = Tips.init env token admin timelock
invoke env (tip sender creator token amount) = Tips.tip env sender creator token amount
invoke env (get_total_tips creator token) = discard (Tips.get_total_tips creator token)
invoke env (get_balance creator token) = discard (Tips.get_balance creator token)
invoke env (withdraw caller creator token to amount) =
    Withdrawals.withdraw env caller creator token to amount
invoke env (add_token admin token) = Tokens.add_token env admin token
invoke env (remove_token admin token) = Tokens.remove_token env admin token
invoke env (set_payout_address creator payout) = Payouts.set_payout_address env creator payout
invoke env (cancel_payout_address creator) = Payouts.cancel_payout_address env creator
invoke env (authorize_operator creator operator allowance expiry) =
    Payouts.authorize_operator env creator operator allowance expiry
invoke env (revoke_operator creator operator) = Payouts.revoke_operator env creator operator
invoke env (propose_admin admin new_admin) = Admin.propose_admin env admin new_admin
invoke env (accept_admin new_admin) = Admin.accept_admin env new_admin
invoke env (cancel_admin_transfer admin) = Admin.cancel_admin_transfer env admin
invoke env (propose_upgrade admin hash) = Upgrade.propose_upgrade env admin hash
invoke env (cancel_upgrade admin) = Upgrade.cancel_upgrade env admin
invoke env execute_upgrade = Upgrade.execute_upgrade env
invoke env (migrate admin) = Upgrade.migrate env admin
invoke env (set_guardian admin guardian) = Breaker.set_guardian env admin guardian
invoke env (set_guardian_pause_duration admin ledgers) =
    Breaker.set_guardian_pause_duration env admin ledgers
invoke env (pause_tips caller) = Breaker.pause_tips env caller
invoke env (pause_withdrawals caller) = Breaker.pause_withdrawals env caller
invoke env (pause_all caller) = Breaker.pause_all env caller
invoke env (unpause_tips caller) = Breaker.unpause_tips env caller
invoke env (unpause_withdrawals caller) = Breaker.unpause_withdrawals env caller
invoke env (unpause_all caller) = Breaker.unpause_all env caller
invoke env (set_fee admin bps) = Fees.set_fee env admin bps
invoke env (propose_fee_collector admin new_collector) =
    Fees.propose_fee_collector env admin new_collector
invoke env (accept_fee_collector new_collector) = Fees.accept_fee_collector env new_collector
invoke env (cancel_fee_collector_transfer admin) = Fees.cancel_fee_collector_transfer env admin
invoke env (withdraw_fees caller token amount) = Fees.withdraw_fees env caller token amount
invoke env (get_fee_balance token) = discard (Fees.get_fee_balance token)
invoke env (tip_legacy sender creator amount) = Legacy.tip_legacy env sender creator amount
invoke env (get_total_tips_legacy creator) = discard (Legacy.get_total_tips_legacy creator)
invoke env (withdraw_legacy caller creator to amount) =
    Legacy.withdraw_legacy env caller creator to amount

-- One invocation: the host commits what a call that returns has done, and rolls back one that fails.
unfoldable pub step : Env × Op → State → State
step (env, op) s = elim (invoke env op s) [ ok (_, t) ↦ t | err _ ↦ s ]

committed {ℓ} :
    (P : State → Type ℓ) (s : State) (r : Result Error (Unit {0} × State))
    → Holds P r
    → P s
    → P (elim r [ ok (_, t) ↦ t | err _ ↦ s ])
committed P s (ok (a, t)) h k = h
committed P s (err e) h k = k

-- What every call that returns keeps, an invocation keeps.
pub step_keeps {ℓ} :
    {P : State → Type ℓ} (env : Env) (op : Op) (s : State)
    → After P (invoke env op s)
    → P s
    → P (step (env, op) s)
unfolding step
step_keeps {P = P} env op s h k = committed P s (invoke env op s) h.holds k

-- The state after a sequence of invocations, the first in front.
unfoldable pub run : List (Env × Op) → State → State
run [] s = s
run (c ∷ cs) s = run cs (step c s)
