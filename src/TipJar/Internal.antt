-- ===== src/TipJar/Internal.antt =====
-- The internal helper methods of contracts/tipjar/src/lib.rs.
use stellar_tipjar_contracts.Common.{
  nat_eq, pair_eq, ℕ, Bool, false, not, ◌&&◌, Option, none, some, [], bit_and, bit_or, ltb, nat_beq,
  is_some, get_or, contains, if◌then◌else◌,
}
use stellar_tipjar_contracts.Common.Int.{ℤ, pos, checked_add, checked_mul, checked_div}
use stellar_tipjar_contracts.Common.Map.{get, set, remove}
use stellar_tipjar_contracts.Soroban.{
  Address, Env, ok, pure, gets, or_raise, raise_if, modify, ◌>>=◌, ◌>>◌,
}
use stellar_tipjar_contracts.TipJar.Types.{
  DataKey, PauseState, bps_denominator, default_guardian_pause_duration_ledgers, pause_flag_tips,
  not_initialized, unauthorized, token_not_allowed, fee_overflow, tips_paused, withdrawals_paused,
}
use stellar_tipjar_contracts.TipJar.State.{State, Call, bump_in, bump}

abbrev pub admin_address : Call Address
admin_address = do or_raise (← gets (λ s. s.admin)) not_initialized

abbrev pub guardian_address : State → Option Address
guardian_address s = s.guardian

abbrev pub require_admin : Address → Call (Unit {0})
require_admin caller = do admin ← admin_address; raise_if (not (nat_beq caller admin)) unauthorized

abbrev pub ensure_initialized : Call (Unit {0})
ensure_initialized = do raise_if (not (is_some (← gets (λ s. s.admin)))) not_initialized

abbrev pub ensure_token_allowed : Address → Call (Unit {0})
ensure_token_allowed token = do
  allowed_tokens ← gets (λ s. get_or [] s.allowed_tokens)
  raise_if (not (contains token allowed_tokens)) token_not_allowed

-- `floor(amount * bps / BPS_DENOMINATOR)` for amounts from 0 on.
unfoldable pub fee_for : ℤ → ℕ → Call ℤ
unfolding ◌>>=◌ ◌>>◌
fee_for amount bps = if nat_beq bps 0 then pure (pos 0) else do
  product ← or_raise (checked_mul amount (pos bps)) fee_overflow
  or_raise (checked_div product bps_denominator) fee_overflow

-- The balance and the total that `maybe_migrate_creator_data` moves, each if it is there.
unfoldable pub migrate_balance : Address → Address → Option ℤ → State → State
migrate_balance creator token none s = s
migrate_balance creator token (some v1_balance) s = record s {
  balance = set (creator, token) v1_balance s.balance;
  log = (bump_in (DataKey.balance creator token) s).log;
  creator_balance = remove creator s.creator_balance;
}

unfoldable pub migrate_total : Address → Address → Option ℤ → State → State
migrate_total creator token none s = s
migrate_total creator token (some v1_total) s = record s {
  total = set (creator, token) v1_total s.total;
  log = (bump_in (DataKey.total creator token) s).log;
  creator_total = remove creator s.creator_total;
}

-- Whether the token is the one that the legacy entries are counted in.
abbrev pub is_legacy_token : Address → Option Address → Bool
is_legacy_token token none = false
is_legacy_token token (some legacy_token) = nat_beq legacy_token token

unfoldable pub maybe_migrate_creator_data : Address → Address → State → State
unfolding migrate_balance migrate_total
maybe_migrate_creator_data creator token s =
    if is_legacy_token token s.token
    then (let t = migrate_balance creator token (get creator s.creator_balance) s in
        migrate_total creator token (get creator t.creator_total) t)
    else s

unfoldable pub maybe_migrate_fee_balance : Address → Call (Unit {0})
unfolding ◌>>=◌ ◌>>◌
maybe_migrate_fee_balance token s = elim s.fee_balance [
  | none ↦ ok (tt, s)
  | some legacy ↦
      if is_legacy_token token s.token
      then (do
        combined ←
            or_raise (checked_add (get_or (pos 0) (get token s.fee_balance_token)) legacy)
              fee_overflow
        modify (λ t. record t { fee_balance_token = set token combined t.fee_balance_token })
        bump (DataKey.fee_balance_token token)
        modify (λ t. record t { fee_balance = none }))
          s
      else ok (tt, s)
]

abbrev pub no_pause : PauseState
no_pause = record { admin_flags = 0; guardian_flags = 0; guardian_expiry = 0; notes = none }

abbrev pub pause_state : State → PauseState
pause_state s = get_or no_pause s.pause

unfoldable pub effective_pause_flags : Env → PauseState → ℕ
effective_pause_flags env state =
    if not (nat_beq state.guardian_flags 0) && ltb env.sequence state.guardian_expiry
    then bit_or state.admin_flags state.guardian_flags
    else state.admin_flags

abbrev pub guardian_pause_duration : State → ℕ
guardian_pause_duration s = get_or default_guardian_pause_duration_ledgers s.guardian_pause_duration

-- Whether a bit of the flag is paused.
unfoldable pub is_paused : Env → ℕ → State → Bool
is_paused env flag s = not (nat_beq (bit_and (effective_pause_flags env (pause_state s)) flag) 0)

unfoldable pub check_not_paused : Env → ℕ → Call (Unit {0})
unfolding ◌>>=◌ ◌>>◌
check_not_paused env flag = do
  paused ← gets (is_paused env flag)
  raise_if paused (if nat_beq flag pause_flag_tips then tips_paused else withdrawals_paused)
