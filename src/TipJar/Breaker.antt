-- ===== src/TipJar/Breaker.antt =====
-- The circuit breaker of contracts/tipjar/src/lib.rs.
use stellar_tipjar_contracts.Common.{
  nat_eq, pair_eq, ℕ, ◌-◌, ◌^◌, Bool, false, not, ◌&&◌, Option, none, some, bit_and, bit_or,
  nat_beq, if◌then◌else◌,
}
use stellar_tipjar_contracts.Common.Int.{add_u32}
use stellar_tipjar_contracts.Soroban.{
  Address, Env, raise, gets, raise_if, modify, require_auth, ◌>>=◌, ◌>>◌,
}
use stellar_tipjar_contracts.TipJar.Types.{
  Event, PauseState, pause_flag_tips, pause_flag_withdrawals, pause_flag_all, unauthorized,
  invalid_duration,
}
use stellar_tipjar_contracts.TipJar.State.{State, Call, publish, bump_instance}
use stellar_tipjar_contracts.TipJar.Internal.{
  admin_address, guardian_address, require_admin, pause_state, effective_pause_flags,
  guardian_pause_duration,
}

unfoldable pub set_guardian : Env → Address → Address → Call (Unit {0})
unfolding ◌>>=◌ ◌>>◌
set_guardian env admin guardian = do
  require_auth env admin
  require_admin admin
  modify (λ s. record s { guardian = some guardian })
  bump_instance
  publish (Event.guardian_updated admin guardian)

unfoldable pub set_guardian_pause_duration : Env → Address → ℕ → Call (Unit {0})
unfolding ◌>>=◌ ◌>>◌
set_guardian_pause_duration env admin ledgers = do
  require_auth env admin
  require_admin admin
  raise_if (nat_beq ledgers 0) invalid_duration
  modify (λ s. record s { guardian_pause_duration = some ledgers })
  bump_instance

-- `!flag` on `u32`
abbrev pub not_u32 : ℕ → ℕ
not_u32 flag = 2 ^ 32 - 1 - flag

-- What a pause by the admin makes of the state.
unfoldable pub admin_pause : ℕ → PauseState → PauseState
admin_pause flag state = record state {
  admin_flags = bit_or state.admin_flags flag;
  guardian_flags = bit_and state.guardian_flags (not_u32 flag);
}

-- What a pause by the guardian makes of it.
unfoldable pub guardian_pause : ℕ → ℕ → PauseState → PauseState
guardian_pause flag expiry state = record state {
  guardian_flags = bit_or state.guardian_flags flag;
  guardian_expiry = expiry;
}

-- What an unpause makes of it.
unfoldable pub admin_unpause : ℕ → PauseState → PauseState
admin_unpause flag state = record state {
  admin_flags = bit_and state.admin_flags (not_u32 flag);
  guardian_flags = bit_and state.guardian_flags (not_u32 flag);
}

-- `guardian == Some(caller)`
abbrev pub is_guardian : Address → Option Address → Bool
is_guardian caller none = false
is_guardian caller (some guardian) = nat_beq guardian caller

unfoldable pub pause_internal : Env → Address → ℕ → Call (Unit {0})
unfolding ◌>>=◌ ◌>>◌
pause_internal env caller flag = do
  require_auth env caller
  admin ← admin_address
  guardian ← gets guardian_address
  state ← gets pause_state
  duration ← gets guardian_pause_duration
  (if nat_beq caller admin
      then modify (λ s. record s { pause = some (admin_pause flag state) })
      else if is_guardian caller guardian
      then modify (λ s. record s {
        pause = some (guardian_pause flag (add_u32 env.sequence duration) state);
      })
      else raise unauthorized)
  bump_instance
  publish (Event.paused caller flag)

unfoldable pub unpause_internal : Env → Address → ℕ → Call (Unit {0})
unfolding ◌>>=◌ ◌>>◌
unpause_internal env caller flag = do
  require_auth env caller
  require_admin caller
  state ← gets pause_state
  modify (λ s. record s { pause = some (admin_unpause flag state) })
  bump_instance
  publish (Event.unpaused caller flag)

unfoldable pub pause_tips : Env → Address → Call (Unit {0})
pause_tips env caller = pause_internal env caller pause_flag_tips

unfoldable pub pause_withdrawals : Env → Address → Call (Unit {0})
pause_withdrawals env caller = pause_internal env caller pause_flag_withdrawals

unfoldable pub pause_all : Env → Address → Call (Unit {0})
pause_all env caller = pause_internal env caller pause_flag_all

unfoldable pub unpause_tips : Env → Address → Call (Unit {0})
unpause_tips env caller = unpause_internal env caller pause_flag_tips

unfoldable pub unpause_withdrawals : Env → Address → Call (Unit {0})
unpause_withdrawals env caller = unpause_internal env caller pause_flag_withdrawals

unfoldable pub unpause_all : Env → Address → Call (Unit {0})
unpause_all env caller = unpause_internal env caller pause_flag_all

unfoldable pub is_feature_paused : Env → ℕ → State → Bool
is_feature_paused env flag s =
    let effective = effective_pause_flags env (pause_state s) in
    not (nat_beq flag 0) && nat_beq (bit_and effective flag) flag

unfoldable pub pause_flags : Env → State → ℕ
pause_flags env s = effective_pause_flags env (pause_state s)

unfoldable pub guardian_pause_expiry_ledger : State → ℕ
guardian_pause_expiry_ledger s = (pause_state s).guardian_expiry

unfoldable pub get_guardian : State → Option Address
get_guardian s = guardian_address s
