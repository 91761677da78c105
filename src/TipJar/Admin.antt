-- ===== src/TipJar/Admin.antt =====
-- The two-step admin transfer of contracts/tipjar/src/lib.rs.
use stellar_tipjar_contracts.Common.{
  nat_eq, pair_eq, not, Option, none, some, ltb, nat_beq, is_some,
}
use stellar_tipjar_contracts.Common.Int.{add_u32}
use stellar_tipjar_contracts.Soroban.{
  Address, Env, gets, or_raise, raise_if, modify, require_auth, ◌>>=◌, ◌>>◌,
}
use stellar_tipjar_contracts.TipJar.Types.{
  Event, admin_transfer_expiry_ledgers, no_pending_admin, admin_transfer_expired,
  admin_transfer_already_pending,
}
use stellar_tipjar_contracts.TipJar.State.{Call, publish, bump_instance}
use stellar_tipjar_contracts.TipJar.Internal.{admin_address, require_admin}

unfoldable pub propose_admin : Env → Address → Address → Call (Unit {0})
unfolding ◌>>=◌ ◌>>◌
propose_admin env admin new_admin = do
  require_auth env admin
  require_admin admin
  raise_if (is_some (← gets (λ s. s.pending_admin))) admin_transfer_already_pending
  let expiry_ledger = add_u32 env.sequence admin_transfer_expiry_ledgers
  modify (λ s. record s { pending_admin = some (new_admin, expiry_ledger) })
  bump_instance
  publish (Event.admin_transfer_proposed admin new_admin expiry_ledger)

unfoldable pub accept_admin : Env → Address → Call (Unit {0})
unfolding ◌>>=◌ ◌>>◌
accept_admin env new_admin = do
  require_auth env new_admin
  pending ← or_raise (← gets (λ s. s.pending_admin)) no_pending_admin
  raise_if (not (nat_beq pending.0 new_admin)) no_pending_admin
  raise_if (ltb pending.1 env.sequence) admin_transfer_expired
  modify (λ s. record s { admin = some new_admin; pending_admin = none })
  bump_instance
  publish (Event.admin_transfer_accepted new_admin)

unfoldable pub cancel_admin_transfer : Env → Address → Call (Unit {0})
unfolding ◌>>=◌ ◌>>◌
cancel_admin_transfer env admin = do
  require_auth env admin
  require_admin admin
  raise_if (not (is_some (← gets (λ s. s.pending_admin)))) no_pending_admin
  modify (λ s. record s { pending_admin = none })
  publish (Event.admin_transfer_cancelled admin)

unfoldable pub get_admin : Call Address
get_admin = admin_address

unfoldable pub get_pending_admin : Call (Option Address)
get_pending_admin = gets λ s. elim s.pending_admin [ none ↦ none | some (addr, _) ↦ some addr ]
