-- ===== src/TipJar/Fees.antt =====
-- The protocol fee of contracts/tipjar/src/lib.rs.
use stellar_tipjar_contracts.Common.{
  nat_eq, pair_eq, ℕ, Bool, false, not, ◌||◌, Option, none, some, ltb, nat_beq, is_some, get_or,
}
use stellar_tipjar_contracts.Common.Int.{ℤ, pos, leb_ℤ, ltb_ℤ, eqb_ℤ, sub_i128, add_u32}
use stellar_tipjar_contracts.Common.Map.{get, set}
use stellar_tipjar_contracts.Soroban.{
  Address, Env, pure, gets, or_raise, raise_if, modify, require_auth, ◌>>=◌, ◌>>◌,
}
use stellar_tipjar_contracts.TipJar.Types.{
  DataKey, Event, admin_transfer_expiry_ledgers, max_fee_bps, invalid_amount, nothing_to_withdraw,
  invalid_target, invalid_fee, not_fee_collector, no_pending_fee_collector,
  fee_collector_transfer_expired, fee_collector_transfer_already_pending,
}
use stellar_tipjar_contracts.TipJar.State.{Call, publish, bump_instance, bump, transfer}
use stellar_tipjar_contracts.TipJar.Internal.{require_admin, fee_for, maybe_migrate_fee_balance}

unfoldable pub set_fee : Env → Address → ℕ → Call (Unit {0})
unfolding ◌>>=◌ ◌>>◌
set_fee env admin bps = do
  require_auth env admin
  require_admin admin
  raise_if (ltb max_fee_bps bps) invalid_fee
  modify (λ s. record s { fee_bps = some bps })
  bump_instance
  publish (Event.fee_configured admin bps)

-- Whether the address is the collector already.
abbrev pub is_collector : Address → Option Address → Bool
is_collector who none = false
is_collector who (some current) = nat_beq current who

unfoldable pub propose_fee_collector : Env → Address → Address → Call (Unit {0})
unfolding ◌>>=◌ ◌>>◌
propose_fee_collector env admin new_collector = do
  require_auth env admin
  require_admin admin
  raise_if (is_collector new_collector (← gets (λ s. s.fee_collector))) invalid_target
  raise_if (is_some (← gets (λ s. s.pending_fee_collector))) fee_collector_transfer_already_pending
  let expiry_ledger = add_u32 env.sequence admin_transfer_expiry_ledgers
  modify (λ s. record s { pending_fee_collector = some (new_collector, expiry_ledger) })
  bump_instance
  publish (Event.fee_collector_transfer_proposed admin new_collector expiry_ledger)

unfoldable pub accept_fee_collector : Env → Address → Call (Unit {0})
unfolding ◌>>=◌ ◌>>◌
accept_fee_collector env new_collector = do
  require_auth env new_collector
  pending ← or_raise (← gets (λ s. s.pending_fee_collector)) no_pending_fee_collector
  raise_if (not (nat_beq pending.0 new_collector)) no_pending_fee_collector
  raise_if (ltb pending.1 env.sequence) fee_collector_transfer_expired
  modify (λ s. record s { fee_collector = some new_collector; pending_fee_collector = none })
  bump_instance
  publish (Event.fee_collector_transfer_accepted new_collector)

unfoldable pub cancel_fee_collector_transfer : Env → Address → Call (Unit {0})
unfolding ◌>>=◌ ◌>>◌
cancel_fee_collector_transfer env admin = do
  require_auth env admin
  require_admin admin
  raise_if (not (is_some (← gets (λ s. s.pending_fee_collector)))) no_pending_fee_collector
  modify (λ s. record s { pending_fee_collector = none })
  publish (Event.fee_collector_transfer_cancelled admin)

unfoldable pub get_pending_fee_collector : Call (Option Address)
get_pending_fee_collector =
    gets λ s. elim s.pending_fee_collector [ none ↦ none | some (addr, _) ↦ some addr ]

unfoldable pub withdraw_fees : Env → Address → Address → Option ℤ → Call (Unit {0})
withdraw_fees env caller token amount = do
  require_auth env caller
  collector ← or_raise (← gets (λ s. s.fee_collector)) nothing_to_withdraw
  raise_if (not (nat_beq caller collector)) not_fee_collector
  maybe_migrate_fee_balance token
  balance ← gets (λ s. get_or (pos 0) (get token s.fee_balance_token))
  raise_if (eqb_ℤ balance (pos 0)) nothing_to_withdraw
  let amount_to_withdraw = get_or balance amount
  raise_if (leb_ℤ amount_to_withdraw (pos 0) || ltb_ℤ balance amount_to_withdraw) invalid_amount
  transfer env (record {
    asset = token;
    sender = env.this;
    recipient = collector;
    amount = amount_to_withdraw;
  })
  modify (λ s. record s {
    fee_balance_token = set token (sub_i128 balance amount_to_withdraw) s.fee_balance_token;
  })
  bump (DataKey.fee_balance_token token)
  bump_instance
  publish (Event.fee_withdraw collector amount_to_withdraw)

unfoldable pub get_fee_bps : Call ℕ
get_fee_bps = gets (λ s. get_or 0 s.fee_bps)

unfoldable pub get_fee_collector : Call (Option Address)
get_fee_collector = gets (λ s. s.fee_collector)

unfoldable pub get_fee_balance : Address → Call ℤ
get_fee_balance token = do
  maybe_migrate_fee_balance token
  gets (λ s. get_or (pos 0) (get token s.fee_balance_token))

unfoldable pub preview_fee : ℤ → ℕ → Call (ℤ × ℤ)
unfolding ◌>>=◌ ◌>>◌
preview_fee amount bps = do fee ← fee_for amount bps; pure (fee, sub_i128 amount fee)
