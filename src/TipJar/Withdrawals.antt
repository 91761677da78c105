-- ===== src/TipJar/Withdrawals.antt =====
-- `withdraw`, of contracts/tipjar/src/lib.rs, in the three parts that it is made of.
use stellar_tipjar_contracts.Common.{
  nat_eq, pair_eq, ℕ, not, ◌||◌, Option, none, some, ltb, leb, nat_beq, is_some, get_or,
  if◌then◌else◌,
}
use stellar_tipjar_contracts.Common.Int.{ℤ, pos, leb_ℤ, ltb_ℤ, eqb_ℤ, sub_i128}
use stellar_tipjar_contracts.Common.Map.{get, set, remove}
use stellar_tipjar_contracts.Soroban.{
  Address, Env, pure, raise, gets, raise_if, modify, require_auth, ◌>>=◌, ◌>>◌,
}
use stellar_tipjar_contracts.TipJar.Types.{
  DataKey, Event, pause_flag_withdrawals, nothing_to_withdraw, invalid_amount, operator_expired,
  insufficient_allowance, invalid_operator, invalid_target,
}
use stellar_tipjar_contracts.TipJar.State.{
  State, Call, publish, publish_in, bump_instance, bump, bump_in, transfer,
}
use stellar_tipjar_contracts.TipJar.Internal.{
  ensure_initialized, maybe_migrate_creator_data, check_not_paused,
}

-- The entry that an operator has left after a withdrawal.
unfoldable pub lower_allowance : Address → Address → ℤ → ℕ → State → State
lower_allowance creator caller new_allowance expiry_ledger s =
    if eqb_ℤ new_allowance (pos 0)
    then record s { operator = remove (creator, caller) s.operator }
    else bump_in (DataKey.operator creator caller)
        (record s { operator = set (creator, caller) (new_allowance, expiry_ledger) s.operator })

-- The check of a caller who is not the creator.
unfoldable pub use_operator : Env → Address → Address → ℤ → Option (ℤ × ℕ) → Call (Unit {0})
unfolding ◌>>=◌ ◌>>◌
use_operator env creator caller amount none = raise invalid_operator
use_operator env creator caller amount (some (allowance, expiry_ledger)) = do
  raise_if (ltb expiry_ledger env.sequence) operator_expired
  raise_if (ltb_ℤ allowance amount) insufficient_allowance
  modify (lower_allowance creator caller (sub_i128 allowance amount) expiry_ledger)

-- Applies a pending payout address whose ledger has come.
unfoldable pub apply_payout_change : Env → Address → Option (Address × ℕ) → State → State
apply_payout_change env creator none s = s
apply_payout_change env creator (some (new_payout, effective_ledger)) s =
    if leb effective_ledger env.sequence
    then publish_in (Event.payout_change_applied creator new_payout) (record s {
      payout_address = set creator new_payout s.payout_address;
      log = (bump_in (DataKey.payout_address creator) s).log;
      pending_payout_change = remove creator s.pending_payout_change;
    })
    else s

unfoldable pub withdraw : Env → Address → Address → Address → Address → Option ℤ → Call (Unit {0})
withdraw env caller creator token to amount = do
  require_auth env caller
  check_not_paused env pause_flag_withdrawals
  ensure_initialized
  modify (maybe_migrate_creator_data creator token)
  balance ← gets (λ s. get_or (pos 0) (get (creator, token) s.balance))
  raise_if (eqb_ℤ balance (pos 0)) nothing_to_withdraw
  let amount_to_withdraw = get_or balance amount
  raise_if (leb_ℤ amount_to_withdraw (pos 0) || ltb_ℤ balance amount_to_withdraw) invalid_amount
  entry ← gets (λ s. get (creator, caller) s.operator)
  (if not (nat_beq caller creator)
      then use_operator env creator caller amount_to_withdraw entry
      else pure tt)
  pending ← gets (λ s. get creator s.pending_payout_change)
  modify (apply_payout_change env creator pending)
  stored_payout ← gets (λ s. get creator s.payout_address)
  let payout_address = get_or creator stored_payout
  (if is_some stored_payout then bump (DataKey.payout_address creator) else pure tt)
  raise_if (not (nat_beq to payout_address)) invalid_target
  transfer env (record {
    asset = token;
    sender = env.this;
    recipient = payout_address;
    amount = amount_to_withdraw;
  })
  modify (λ s. record s {
    balance = set (creator, token) (sub_i128 balance amount_to_withdraw) s.balance;
  })
  bump (DataKey.balance creator token)
  bump_instance
  publish (Event.withdraw_event creator token amount_to_withdraw payout_address)
