-- ===== src/TipJar/Tips.antt =====
-- `init`, `tip` and the queries on a creator's amounts, of contracts/tipjar/src/lib.rs.
use stellar_tipjar_contracts.Common.{
  nat_eq, pair_eq, ℕ, some, List, [], ◌∷◌, ltb, nat_beq, is_some, get_or, if◌then◌else◌,
}
use stellar_tipjar_contracts.Common.Int.{ℤ, pos, leb_ℤ, checked_add, sub_i128}
use stellar_tipjar_contracts.Common.Map.{get, set}
use stellar_tipjar_contracts.Soroban.{
  Address, Env, pure, gets, or_raise, raise_if, modify, require_auth, ◌>>=◌, ◌>>◌,
}
use stellar_tipjar_contracts.TipJar.Types.{
  DataKey, Event, pause_flag_tips, latest_data_version, already_initialized, invalid_timelock,
  invalid_amount, fee_overflow,
}
use stellar_tipjar_contracts.TipJar.State.{Call, publish, bump_instance, bump, transfer}
use stellar_tipjar_contracts.TipJar.Internal.{
  ensure_initialized, ensure_token_allowed, fee_for, maybe_migrate_creator_data,
  maybe_migrate_fee_balance, check_not_paused,
}

unfoldable pub init : Env → Address → Address → ℕ → Call (Unit {0})
unfolding ◌>>=◌ ◌>>◌
init env token admin upgrade_timelock_ledgers = do
  raise_if (is_some (← gets (λ s. s.admin))) already_initialized
  raise_if (nat_beq upgrade_timelock_ledgers 0) invalid_timelock
  require_auth env admin
  modify λ s. record s {
    token = some token;
    admin = some admin;
    upgrade_timelock_ledgers = some upgrade_timelock_ledgers;
    data_version = some latest_data_version;
    allowed_tokens = some (token ∷ []);
  }
  bump_instance

-- The part of `tip` that adds to the creator's balance and total.
unfoldable pub credit : Address → Address → ℤ → ℤ → Call (Unit {0})
credit creator token net_amount amount = do
  balance ← gets (λ s. get_or (pos 0) (get (creator, token) s.balance))
  total ← gets (λ s. get_or (pos 0) (get (creator, token) s.total))
  new_balance ← or_raise (checked_add balance net_amount) invalid_amount
  new_total ← or_raise (checked_add total amount) invalid_amount
  modify (λ s. record s { balance = set (creator, token) new_balance s.balance })
  modify (λ s. record s { total = set (creator, token) new_total s.total })
  bump (DataKey.balance creator token)
  bump (DataKey.total creator token)

-- The part of `tip` that accrues the protocol fee.
unfoldable pub accrue_fee : Address → Address → ℤ → ℤ → ℤ → Call (Unit {0})
accrue_fee creator token amount fee net_amount = do
  maybe_migrate_fee_balance token
  fee_balance ← gets (λ s. get_or (pos 0) (get token s.fee_balance_token))
  new_fee_balance ← or_raise (checked_add fee_balance fee) fee_overflow
  modify (λ s. record s { fee_balance_token = set token new_fee_balance s.fee_balance_token })
  bump (DataKey.fee_balance_token token)
  publish (Event.fee_charged creator amount fee net_amount)

unfoldable pub tip : Env → Address → Address → Address → ℤ → Call (Unit {0})
tip env sender creator token amount = do
  require_auth env sender
  check_not_paused env pause_flag_tips
  raise_if (leb_ℤ amount (pos 0)) invalid_amount
  ensure_initialized
  ensure_token_allowed token
  modify (maybe_migrate_creator_data creator token)
  fee_bps ← gets (λ s. get_or 0 s.fee_bps)
  fee ← fee_for amount fee_bps
  let net_amount = sub_i128 amount fee
  transfer env (record { asset = token; sender = sender; recipient = env.this; amount = amount })
  credit creator token net_amount amount
  (if ltb 0 fee_bps then accrue_fee creator token amount fee net_amount else pure tt)
  bump_instance
  publish (Event.tip_event creator token sender amount)

-- The queries migrate too.
unfoldable pub get_total_tips : Address → Address → Call ℤ
unfolding ◌>>=◌ ◌>>◌
get_total_tips creator token = do
  modify (maybe_migrate_creator_data creator token)
  gets (λ s. get_or (pos 0) (get (creator, token) s.total))

unfoldable pub get_balance : Address → Address → Call ℤ
unfolding ◌>>=◌ ◌>>◌
get_balance creator token = do
  modify (maybe_migrate_creator_data creator token)
  gets (λ s. get_or (pos 0) (get (creator, token) s.balance))

unfoldable pub get_tokens : Call (List Address)
unfolding ◌>>=◌ ◌>>◌
get_tokens = do ensure_initialized; gets (λ s. get_or [] s.allowed_tokens)
