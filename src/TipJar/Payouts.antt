-- ===== src/TipJar/Payouts.antt =====
-- Payout addresses and operators, of contracts/tipjar/src/lib.rs.
use stellar_tipjar_contracts.Common.{nat_eq, pair_eq, ℕ, not, is_some}
use stellar_tipjar_contracts.Common.Int.{ℤ, add_u32}
use stellar_tipjar_contracts.Common.Map.{get, set, remove}
use stellar_tipjar_contracts.Soroban.{
  Address, Env, gets, raise_if, modify, require_auth, ◌>>=◌, ◌>>◌,
}
use stellar_tipjar_contracts.TipJar.Types.{
  DataKey, Event, payout_delay_ledgers, pause_flag_withdrawals, no_pending_payout_change,
}
use stellar_tipjar_contracts.TipJar.State.{Call, publish, bump_instance, bump}
use stellar_tipjar_contracts.TipJar.Internal.{check_not_paused}

unfoldable pub set_payout_address : Env → Address → Address → Call (Unit {0})
unfolding check_not_paused ◌>>=◌ ◌>>◌
set_payout_address env creator payout = do
  require_auth env creator
  check_not_paused env pause_flag_withdrawals
  let effective_ledger = add_u32 env.sequence payout_delay_ledgers
  modify (λ s. record s {
    pending_payout_change = set creator (payout, effective_ledger) s.pending_payout_change;
  })
  bump (DataKey.pending_payout_change creator)
  bump_instance
  publish (Event.payout_change_proposed creator payout effective_ledger)

unfoldable pub cancel_payout_address : Env → Address → Call (Unit {0})
unfolding check_not_paused ◌>>=◌ ◌>>◌
cancel_payout_address env creator = do
  require_auth env creator
  check_not_paused env pause_flag_withdrawals
  pending ← gets (λ s. get creator s.pending_payout_change)
  raise_if (not (is_some pending)) no_pending_payout_change
  modify (λ s. record s { pending_payout_change = remove creator s.pending_payout_change })
  publish (Event.payout_change_cancelled creator)

unfoldable pub authorize_operator : Env → Address → Address → ℤ → ℕ → Call (Unit {0})
unfolding check_not_paused ◌>>=◌ ◌>>◌
authorize_operator env creator operator allowance expiry_ledger = do
  require_auth env creator
  check_not_paused env pause_flag_withdrawals
  modify
      (λ s. record s { operator = set (creator, operator) (allowance, expiry_ledger) s.operator })
  bump (DataKey.operator creator operator)
  bump_instance
  publish (Event.operator_authorized creator operator allowance expiry_ledger)

unfoldable pub revoke_operator : Env → Address → Address → Call (Unit {0})
unfolding check_not_paused ◌>>=◌ ◌>>◌
revoke_operator env creator operator = do
  require_auth env creator
  check_not_paused env pause_flag_withdrawals
  modify (λ s. record s { operator = remove (creator, operator) s.operator })
  publish (Event.operator_revoked creator operator)
