-- ===== src/TipJar/Access/Roles.antt =====
-- The other calls that change a setting, by their cause.
use stellar_tipjar_contracts.Common.{ℕ, ◌≡◌, none, some, inl, inr, Option-cases, arith}
use stellar_tipjar_contracts.Soroban.{Address, Env, After, After-map}
use stellar_tipjar_contracts.TipJar.State.{State}
use stellar_tipjar_contracts.TipJar.Tips
use stellar_tipjar_contracts.TipJar.Fees
use stellar_tipjar_contracts.TipJar.Admin
use stellar_tipjar_contracts.TipJar.Upgrade
use stellar_tipjar_contracts.TipJar.Breaker
use stellar_tipjar_contracts.TipJar.Access.{
  admin_proposal, upgrade_proposal, guardian_role, pause_duration, fee_rate, collector_proposal,
  IsSetUp, ByAdmin, IsHandover, IsNewCollector, IsInstall, Change, handover, new_collector, install,
}

module _ (env : Env) (s : State) where
  pub init-IsSetUp : (a b : Address) (n : ℕ) → After (IsSetUp env s) (Tips.init env a b n s)
  unfolding Tips.init
  init-IsSetUp a b n = ground arith

  pub propose_admin-ByAdmin :
      (a b : Address) → After (ByAdmin env s admin_proposal) (Admin.propose_admin env a b s)
  unfolding Admin.propose_admin
  propose_admin-ByAdmin a b = ground arith

  pub cancel_admin_transfer-ByAdmin :
      (a : Address) → After (ByAdmin env s admin_proposal) (Admin.cancel_admin_transfer env a s)
  unfolding Admin.cancel_admin_transfer
  cancel_admin_transfer-ByAdmin a = ground arith

  pub propose_upgrade-ByAdmin :
      (a : Address) (n : ℕ)
      → After (ByAdmin env s upgrade_proposal) (Upgrade.propose_upgrade env a n s)
  unfolding Upgrade.propose_upgrade
  propose_upgrade-ByAdmin a n = ground arith

  pub cancel_upgrade-ByAdmin :
      (a : Address) → After (ByAdmin env s upgrade_proposal) (Upgrade.cancel_upgrade env a s)
  unfolding Upgrade.cancel_upgrade
  cancel_upgrade-ByAdmin a = ground arith

  pub set_guardian-ByAdmin :
      (a b : Address) → After (ByAdmin env s guardian_role) (Breaker.set_guardian env a b s)
  unfolding Breaker.set_guardian
  set_guardian-ByAdmin a b = ground arith

  pub set_guardian_pause_duration-ByAdmin :
      (a : Address) (n : ℕ)
      → After (ByAdmin env s pause_duration) (Breaker.set_guardian_pause_duration env a n s)
  unfolding Breaker.set_guardian_pause_duration
  set_guardian_pause_duration-ByAdmin a n = ground arith

  pub set_fee-ByAdmin :
      (a : Address) (n : ℕ) → After (ByAdmin env s fee_rate) (Fees.set_fee env a n s)
  unfolding Fees.set_fee
  set_fee-ByAdmin a n = ground arith

  pub propose_fee_collector-ByAdmin :
      (a b : Address)
      → After (ByAdmin env s collector_proposal) (Fees.propose_fee_collector env a b s)
  unfolding Fees.propose_fee_collector
  propose_fee_collector-ByAdmin a b = ground arith

  pub cancel_fee_collector_transfer-ByAdmin :
      (a : Address)
      → After (ByAdmin env s collector_proposal) (Fees.cancel_fee_collector_transfer env a s)
  unfolding Fees.cancel_fee_collector_transfer
  cancel_fee_collector_transfer-ByAdmin a = ground arith

  accept_admin-IsHandover :
      (a b : Address) (x : ℕ)
      → s.pending_admin ≡ some (b, x)
      → After (IsHandover env b x s) (Admin.accept_admin env a s)
  unfolding Admin.accept_admin
  accept_admin-IsHandover a b x e = ground arith

  accept_admin-none :
      (a : Address) → s.pending_admin ≡ none → After (Change env s) (Admin.accept_admin env a s)
  unfolding Admin.accept_admin
  accept_admin-none a e = ground arith

  accept_fee_collector-IsNewCollector :
      (a b : Address) (x : ℕ)
      → s.pending_fee_collector ≡ some (b, x)
      → After (IsNewCollector env b x s) (Fees.accept_fee_collector env a s)
  unfolding Fees.accept_fee_collector
  accept_fee_collector-IsNewCollector a b x e = ground arith

  accept_fee_collector-none :
      (a : Address)
      → s.pending_fee_collector ≡ none
      → After (Change env s) (Fees.accept_fee_collector env a s)
  unfolding Fees.accept_fee_collector
  accept_fee_collector-none a e = ground arith

  execute_upgrade-IsInstall :
      (h x : ℕ)
      → s.pending_upgrade ≡ some (h, x)
      → After (IsInstall env h x s) (Upgrade.execute_upgrade env s)
  unfolding Upgrade.execute_upgrade
  execute_upgrade-IsInstall h x e = ground arith

  execute_upgrade-none :
      s.pending_upgrade ≡ none → After (Change env s) (Upgrade.execute_upgrade env s)
  unfolding Upgrade.execute_upgrade
  execute_upgrade-none e = ground arith

  pub accept_admin-Change : (a : Address) → After (Change env s) (Admin.accept_admin env a s)
  accept_admin-Change a = elim (Option-cases s.pending_admin) [
    | inl e ↦ accept_admin-none a e
    | inr ((b, x), e) ↦ After-map _ (λ t k. handover b x e k) (accept_admin-IsHandover a b x e)
  ]

  pub accept_fee_collector-Change :
      (a : Address) → After (Change env s) (Fees.accept_fee_collector env a s)
  accept_fee_collector-Change a = elim (Option-cases s.pending_fee_collector) [
    | inl e ↦ accept_fee_collector-none a e
    | inr ((b, x), e) ↦
        After-map _ (λ t k. new_collector b x e k) (accept_fee_collector-IsNewCollector a b x e)
  ]

  pub execute_upgrade-Change : After (Change env s) (Upgrade.execute_upgrade env s)
  execute_upgrade-Change = elim (Option-cases s.pending_upgrade) [
    | inl e ↦ execute_upgrade-none e
    | inr ((h, x), e) ↦ After-map _ (λ t k. install h x e k) (execute_upgrade-IsInstall h x e)
  ]
