-- ===== src/TipJar/Handover.antt =====
-- The two-step transfers and the timelocked upgrade, from the proposal on.
use stellar_tipjar_contracts.Common.{ℕ, ◌+◌, ◌^◌, ◌≤◌, ◌<◌, ◌≡◌, true, none, some, ◌∷◌, arith}
use stellar_tipjar_contracts.Common.Int.{add_u32-eq}
use stellar_tipjar_contracts.Soroban.{Address, Env, After, Returns, ok, err, panic, ◌>>=◌, ◌>>◌}
use stellar_tipjar_contracts.TipJar.Types.{
  admin_transfer_expiry_ledgers, admin_transfer_expired, timelock_not_elapsed,
}
use stellar_tipjar_contracts.TipJar.State.{State}
use stellar_tipjar_contracts.TipJar.Admin.{propose_admin, accept_admin}
use stellar_tipjar_contracts.TipJar.Upgrade.{propose_upgrade, execute_upgrade, migrate}
use stellar_tipjar_contracts.TipJar.Settings.{installs}

module _ (env later : Env) (s : State) (admin : Address) (is_admin : s.admin ≡ some admin)
    (signed : env.authorized admin ≡ true) where
  -- An admin's proposal, with none pending and where the ledger's number does not overflow, and its
  -- acceptance up to the expiry ledger both return; the proposed address is the admin and none pends.
  pub propose_admin-accept_admin :
      (new_admin : Address)
      → s.pending_admin ≡ none
      → env.sequence + admin_transfer_expiry_ledgers < 2 ^ 32
      → later.authorized new_admin ≡ true
      → later.sequence ≤ env.sequence + admin_transfer_expiry_ledgers
      → Returns
          (λ t. (t.admin ≡ some new_admin) × (t.pending_admin ≡ none))
          ((propose_admin env admin new_admin >> accept_admin later new_admin) s)
  unfolding propose_admin accept_admin ◌>>=◌ ◌>>◌
  propose_admin-accept_admin b idle word signed_later h =
      ground (arith, add_u32-eq env.sequence 34_560 word)

  -- An admin's proposal, with none pending and where the ledger's number does not overflow, that is
  -- accepted after the expiry ledger fails as expired.
  propose_admin-accept_late :
      (new_admin : Address)
      → s.pending_admin ≡ none
      → env.sequence + admin_transfer_expiry_ledgers < 2 ^ 32
      → later.authorized new_admin ≡ true
      → env.sequence + admin_transfer_expiry_ledgers < later.sequence
      → (propose_admin env admin new_admin >> accept_admin later new_admin) s
        ≡ err (panic admin_transfer_expired)
  unfolding propose_admin accept_admin ◌>>=◌ ◌>>◌
  propose_admin-accept_late b idle word signed_later h =
      ground (arith, add_u32-eq env.sequence 34_560 word)

  -- Code that the admin proposes, with none pending and where the ledger's number does not overflow, is
  -- not installed before the end of the timelock: the call fails.
  pub propose_upgrade-execute_early :
      (hash timelock : ℕ)
      → s.pending_upgrade ≡ none
      → s.upgrade_timelock_ledgers ≡ some timelock
      → env.sequence + timelock < 2 ^ 32
      → later.sequence < env.sequence + timelock
      → (propose_upgrade env admin hash >> execute_upgrade later) s
        ≡ err (panic timelock_not_elapsed)
  unfolding propose_upgrade execute_upgrade ◌>>=◌ ◌>>◌
  propose_upgrade-execute_early hash timelock idle lock word h =
      ground (arith, add_u32-eq env.sequence timelock word)

  -- Where the admin proposes code with none pending and the ledger's number does not overflow, and it is
  -- executed from the end of the timelock on, both calls return, and the proposed hash alone is newly
  -- installed and pending no more.
  pub propose_upgrade-execute_upgrade :
      (hash timelock : ℕ)
      → s.pending_upgrade ≡ none
      → s.upgrade_timelock_ledgers ≡ some timelock
      → env.sequence + timelock < 2 ^ 32
      → env.sequence + timelock ≤ later.sequence
      → Returns
          (λ t. (installs t.log ≡ hash ∷ installs s.log) × (t.pending_upgrade ≡ none))
          ((propose_upgrade env admin hash >> execute_upgrade later) s)
  unfolding propose_upgrade execute_upgrade ◌>>=◌ ◌>>◌
  propose_upgrade-execute_upgrade hash timelock idle lock word h =
      ground (arith, add_u32-eq env.sequence timelock word)

module _ (env : Env) (admin : Address) (s : State) where
  -- If a schema migration returns, a second one by the same admin at the same ledger returns and changes
  -- nothing.
  pub migrate-migrate : After (λ t. migrate env admin t ≡ ok (tt, t)) (migrate env admin s)
  unfolding migrate ◌>>=◌ ◌>>◌
  migrate-migrate = ground arith
