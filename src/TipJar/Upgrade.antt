-- ===== src/TipJar/Upgrade.antt =====
-- The timelocked upgrade and the schema migration of contracts/tipjar/src/lib.rs.
use stellar_tipjar_contracts.Common.{
  nat_eq, pair_eq, ℕ, Option, none, some, ◌∷◌, ltb, leb, nat_beq, is_some, get_or, if◌then◌else◌,
}
use stellar_tipjar_contracts.Common.Int.{add_u32}
use stellar_tipjar_contracts.Soroban.{
  Address, Env, Effect, pure, gets, or_raise, raise_if, modify, require_auth, ◌>>=◌, ◌>>◌,
}
use stellar_tipjar_contracts.TipJar.Types.{
  Event, PauseState, latest_data_version, not_initialized, upgrade_already_pending,
  no_pending_upgrade, timelock_not_elapsed,
}
use stellar_tipjar_contracts.TipJar.State.{Call, publish, bump_instance}
use stellar_tipjar_contracts.TipJar.Internal.{require_admin}

-- A WASM hash is a number here: it is only stored and handed on.
unfoldable pub propose_upgrade : Env → Address → ℕ → Call (Unit {0})
unfolding ◌>>=◌ ◌>>◌
propose_upgrade env admin new_wasm_hash = do
  require_auth env admin
  require_admin admin
  raise_if (is_some (← gets (λ s. s.pending_upgrade))) upgrade_already_pending
  timelock ← or_raise (← gets (λ s. s.upgrade_timelock_ledgers)) not_initialized
  let unlock_ledger = add_u32 env.sequence timelock
  modify (λ s. record s { pending_upgrade = some (new_wasm_hash, unlock_ledger) })
  bump_instance
  publish (Event.upgrade_proposed new_wasm_hash unlock_ledger)

unfoldable pub cancel_upgrade : Env → Address → Call (Unit {0})
unfolding ◌>>=◌ ◌>>◌
cancel_upgrade env admin = do
  require_auth env admin
  require_admin admin
  pending ← or_raise (← gets (λ s. s.pending_upgrade)) no_pending_upgrade
  modify (λ s. record s { pending_upgrade = none })
  publish (Event.upgrade_cancelled pending.0)

-- `update_current_contract_wasm` is the host's; the model records the hash.
unfoldable pub execute_upgrade : Env → Call (Unit {0})
unfolding ◌>>=◌ ◌>>◌
execute_upgrade env = do
  pending ← or_raise (← gets (λ s. s.pending_upgrade)) no_pending_upgrade
  raise_if (ltb env.sequence pending.1) timelock_not_elapsed
  modify (λ s. record s { pending_upgrade = none })
  modify (λ s. record s { log = Effect.installed pending.0 ∷ s.log })
  publish (Event.upgrade_executed pending.0)

-- The state of the pause as version 2 has it.
unfoldable pub migrate_pause : Option PauseState → Option PauseState
migrate_pause none = none
migrate_pause (some p) = some (record {
  admin_flags = p.admin_flags;
  guardian_flags = p.guardian_flags;
  guardian_expiry = p.guardian_expiry;
  notes = none;
})

unfoldable pub get_data_version : Call ℕ
get_data_version = gets (λ s. get_or 1 s.data_version)

unfoldable pub migrate : Env → Address → Call (Unit {0})
unfolding get_data_version ◌>>=◌ ◌>>◌
migrate env admin = do
  require_auth env admin
  require_admin admin
  current ← get_data_version
  (if leb latest_data_version current then pure tt else (do
    (if nat_beq current 1
        then modify (λ s. record s { pause = migrate_pause s.pause })
        else pure tt)
    modify (λ s. record s { data_version = some latest_data_version })
    publish (Event.migrated current latest_data_version)))
