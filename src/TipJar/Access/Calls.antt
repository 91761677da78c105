-- ===== src/TipJar/Access/Calls.antt =====
-- Every entry point, by the cause of what it changes in the settings.
use stellar_tipjar_contracts.Common.{
  Option, none, some, one-IsDistinct, ◌≡◌, ap, ℕ, get_or, List, [], ◌∷◌, arith,
}
use stellar_tipjar_contracts.Common.Int.{ℤ}
use stellar_tipjar_contracts.Soroban.{
  Address, Env, Result, After, ◌>>=◌, ◌>>◌, After-map, After-bind, After-then,
}
use stellar_tipjar_contracts.TipJar.Types.{Error}
use stellar_tipjar_contracts.TipJar.State.{State, Call}
use stellar_tipjar_contracts.TipJar.Tips
use stellar_tipjar_contracts.TipJar.Fees
use stellar_tipjar_contracts.TipJar.Payouts
use stellar_tipjar_contracts.TipJar.Breaker
use stellar_tipjar_contracts.TipJar.Legacy
use stellar_tipjar_contracts.TipJar.Calls.{
  Op, init, tip, get_total_tips, get_balance, withdraw, add_token, remove_token, set_payout_address,
  cancel_payout_address, authorize_operator, revoke_operator, propose_admin, accept_admin,
  cancel_admin_transfer, propose_upgrade, cancel_upgrade, execute_upgrade, migrate, set_guardian,
  set_guardian_pause_duration, set_fee, propose_fee_collector, accept_fee_collector,
  cancel_fee_collector_transfer, withdraw_fees, get_fee_balance, tip_legacy, get_total_tips_legacy,
  withdraw_legacy, discard, invoke, step, step_keeps, run,
}
use stellar_tipjar_contracts.TipJar.Internal.{pause_state}
use stellar_tipjar_contracts.TipJar.Pauses.Bits.{IsFlagged}
use stellar_tipjar_contracts.TipJar.Settings.{
  SameSettings, SameSettings-refl, tip-SameSettings, withdraw-SameSettings,
  withdraw_fees-SameSettings, maybe_migrate_creator_data-SameSettings,
  maybe_migrate_fee_balance-SameSettings,
}
use stellar_tipjar_contracts.TipJar.Access.{
  Setting, allowlist, admin_proposal, upgrade_proposal, guardian_role, pause_duration, pause_words,
  fee_rate, collector_proposal, version_and_pause, IsListed, first_token, by_guardian, handover,
  new_collector, install, ByAdmin, Change, unchanged, set_up, by_admin,
}
use stellar_tipjar_contracts.TipJar.Access.Tokens.{add_token-ByAdmin, remove_token-ByAdmin}
use stellar_tipjar_contracts.TipJar.Access.Pauses.{
  migrate-ByAdmin, unpause_internal-ByAdmin, pause_internal-Change,
}
use stellar_tipjar_contracts.TipJar.Access.Roles.{
  init-IsSetUp, propose_admin-ByAdmin, cancel_admin_transfer-ByAdmin, propose_upgrade-ByAdmin,
  cancel_upgrade-ByAdmin, set_guardian-ByAdmin, set_guardian_pause_duration-ByAdmin,
  set_fee-ByAdmin, propose_fee_collector-ByAdmin, cancel_fee_collector_transfer-ByAdmin,
  accept_admin-Change, accept_fee_collector-Change, execute_upgrade-Change,
}

module _ (env : Env) (s : State) where
  set_payout_address-SameSettings :
      (a b : Address) → After (SameSettings s) (Payouts.set_payout_address env a b s)
  unfolding Payouts.set_payout_address
  set_payout_address-SameSettings a b = ground arith

  cancel_payout_address-SameSettings :
      (a : Address) → After (SameSettings s) (Payouts.cancel_payout_address env a s)
  unfolding Payouts.cancel_payout_address
  cancel_payout_address-SameSettings a = ground arith

  authorize_operator-SameSettings :
      (a b : Address) (z : ℤ) (n : ℕ)
      → After (SameSettings s) (Payouts.authorize_operator env a b z n s)
  unfolding Payouts.authorize_operator
  authorize_operator-SameSettings a b z n = ground arith

  revoke_operator-SameSettings :
      (a b : Address) → After (SameSettings s) (Payouts.revoke_operator env a b s)
  unfolding Payouts.revoke_operator
  revoke_operator-SameSettings a b = ground arith

  query-SameSettings :
      (c d : Address)
      → After (SameSettings s) (Tips.get_total_tips c d s)
        × After (SameSettings s) (Tips.get_balance c d s)
  unfolding Tips.get_total_tips Tips.get_balance
  query-SameSettings c d =
      let m = maybe_migrate_creator_data-SameSettings s s (SameSettings-refl s) c d in
      ground (arith, m)

  get_fee_balance-SameSettings : (d : Address) → After (SameSettings s) (Fees.get_fee_balance d s)
  unfolding Fees.get_fee_balance
  get_fee_balance-SameSettings d =
      After-then _ (SameSettings s) _
        (maybe_migrate_fee_balance-SameSettings s s (SameSettings-refl s) d)
        λ t g. record { holds = g }

  discard-SameSettings :
      {A : Type 0} (m : Call A)
      → After (SameSettings s) (m s)
      → After (SameSettings s) (discard m s)
  unfolding discard
  discard-SameSettings m k = After-bind (SameSettings s) m _ k λ a t g. record { holds = g }

  default-SameSettings :
      {A : Type 0} (f : Address → Call A) (g : Call A) (tokens : List Address)
      → ((d : Address) → After (SameSettings s) (f d s))
      → After (SameSettings s) (g s)
      → After (SameSettings s) (Legacy.on_default_token f g tokens s)
  unfolding Legacy.on_default_token
  default-SameSettings f g [] k l = l
  default-SameSettings f g (d ∷ ds) k l = k d

  legacy-SameSettings :
      {A : Type 0} (f : Address → Call A) (g : Call A)
      → ((d : Address) → After (SameSettings s) (f d s))
      → After (SameSettings s) (g s)
      → After (SameSettings s) ((Tips.get_tokens >>= Legacy.on_default_token f g) s)
  unfolding Tips.get_tokens ◌>>=◌ ◌>>◌
  legacy-SameSettings f g k l = record {
    holds = ground (arith, default-SameSettings f g (get_or [] s.allowed_tokens) k l);
  }

  same :
      {A : Type 0} (r : Result Error (A × State))
      → After (SameSettings s) r
      → After (Change env s) r
  same r k = After-map r (λ t g. unchanged g) k

  approved :
      {A : Type 0} (setting : Setting) (r : Result Error (A × State))
      → After (ByAdmin env s setting) r
      → After (Change env s) r
  approved setting r k = After-map r (λ t g. by_admin setting g) k

same_tokens-IsListed : {s t : State} → t.allowed_tokens ≡ s.allowed_tokens → IsListed s → IsListed t
same_tokens-IsListed e h = record { distinct = rw e h.distinct; bounded = rw e h.bounded }

first-IsListed :
    {t : State} (o : Option Address) → get_or [] t.allowed_tokens ≡ first_token o → IsListed t
first-IsListed none e = record { distinct = rw e tt; bounded = rw e (omega arith) }
first-IsListed (some a) e = record {
  distinct = rw e (one-IsDistinct a);
  bounded = rw e (omega arith);
}

module _ (env : Env) (s : State) where
  -- An invocation that returns leaves the settings and the code as they are, or is one of these, which
  -- change no other entry of the state: the first set-up, signed by its admin; a change of one setting,
  -- which the admin has authorised; a change of the guardian's part of the pause, which the guardian has
  -- authorised; a proposed admin or fee collector that takes over in time, by its own authorisation;
  -- the installation of the pending code after its timelock.
  pub invoke-Change : (op : Op) → After (Change env s) (invoke env op s)
  unfolding invoke Breaker.pause_tips Breaker.pause_withdrawals Breaker.pause_all
      Breaker.unpause_tips Breaker.unpause_withdrawals Breaker.unpause_all Legacy.tip_legacy
      Legacy.get_total_tips_legacy Legacy.withdraw_legacy
  invoke-Change (init a b n) = After-map _ (λ t k. set_up k) (init-IsSetUp env s a b n)
  invoke-Change (tip a b c z) = same env s _ (tip-SameSettings env s a b c z)
  invoke-Change (get_total_tips a b) =
      same env s _ (discard-SameSettings env s _ (query-SameSettings env s a b).0)
  invoke-Change (get_balance a b) =
      same env s _ (discard-SameSettings env s _ (query-SameSettings env s a b).1)
  invoke-Change (withdraw a b c d o) = same env s _ (withdraw-SameSettings env s a b c d o)
  invoke-Change (add_token a b) = approved env s allowlist _ (add_token-ByAdmin env s a b)
  invoke-Change (remove_token a b) = approved env s allowlist _ (remove_token-ByAdmin env s a b)
  invoke-Change (set_payout_address a b) = same env s _ (set_payout_address-SameSettings env s a b)
  invoke-Change (cancel_payout_address a) =
      same env s _ (cancel_payout_address-SameSettings env s a)
  invoke-Change (authorize_operator a b z n) =
      same env s _ (authorize_operator-SameSettings env s a b z n)
  invoke-Change (revoke_operator a b) = same env s _ (revoke_operator-SameSettings env s a b)
  invoke-Change (propose_admin a b) =
      approved env s admin_proposal _ (propose_admin-ByAdmin env s a b)
  invoke-Change (accept_admin a) = accept_admin-Change env s a
  invoke-Change (cancel_admin_transfer a) =
      approved env s admin_proposal _ (cancel_admin_transfer-ByAdmin env s a)
  invoke-Change (propose_upgrade a n) =
      approved env s upgrade_proposal _ (propose_upgrade-ByAdmin env s a n)
  invoke-Change (cancel_upgrade a) =
      approved env s upgrade_proposal _ (cancel_upgrade-ByAdmin env s a)
  invoke-Change execute_upgrade = execute_upgrade-Change env s
  invoke-Change (migrate a) = approved env s version_and_pause _ (migrate-ByAdmin env s a)
  invoke-Change (set_guardian a b) = approved env s guardian_role _ (set_guardian-ByAdmin env s a b)
  invoke-Change (set_guardian_pause_duration a n) =
      approved env s pause_duration _ (set_guardian_pause_duration-ByAdmin env s a n)
  invoke-Change (Op.pause_tips a) = pause_internal-Change env s a 1 (omega arith)
  invoke-Change (Op.pause_withdrawals a) = pause_internal-Change env s a 2 (omega arith)
  invoke-Change (Op.pause_all a) = pause_internal-Change env s a 3 (omega arith)
  invoke-Change (Op.unpause_tips a) =
      approved env s pause_words _ (unpause_internal-ByAdmin env s a 1 (omega arith))
  invoke-Change (Op.unpause_withdrawals a) =
      approved env s pause_words _ (unpause_internal-ByAdmin env s a 2 (omega arith))
  invoke-Change (Op.unpause_all a) =
      approved env s pause_words _ (unpause_internal-ByAdmin env s a 3 (omega arith))
  invoke-Change (set_fee a n) = approved env s fee_rate _ (set_fee-ByAdmin env s a n)
  invoke-Change (propose_fee_collector a b) =
      approved env s collector_proposal _ (propose_fee_collector-ByAdmin env s a b)
  invoke-Change (accept_fee_collector a) = accept_fee_collector-Change env s a
  invoke-Change (cancel_fee_collector_transfer a) =
      approved env s collector_proposal _ (cancel_fee_collector_transfer-ByAdmin env s a)
  invoke-Change (withdraw_fees a b o) = same env s _ (withdraw_fees-SameSettings env s a b o)
  invoke-Change (get_fee_balance a) =
      same env s _ (discard-SameSettings env s _ (get_fee_balance-SameSettings env s a))
  invoke-Change (tip_legacy a b z) =
      same env s _ (
        legacy-SameSettings env s _ _ (λ d. tip-SameSettings env s a b d z) (record { holds = tt }))
  invoke-Change (get_total_tips_legacy a) = same env s _ (
      discard-SameSettings env s _ (
        legacy-SameSettings env s _ _ (λ d. (query-SameSettings env s a d).0)
          (record { holds = SameSettings-refl s })))
  invoke-Change (withdraw_legacy a b c o) = same env s _ (
      legacy-SameSettings env s _ _ (λ d. withdraw-SameSettings env s a b d c o)
        (record { holds = tt }))

  Change-IsFlagged :
      (t : State) → Change env s t → IsFlagged (pause_state s) → IsFlagged (pause_state t)
  Change-IsFlagged t (unchanged k) h = rw k.same_pause h
  Change-IsFlagged t (set_up k) h = rw (ap (λ (u : State). u.pause) k.frame) h
  Change-IsFlagged t (by_admin setting k) h = k.still_flagged h
  Change-IsFlagged t (by_guardian k) h = k.still_flagged h
  Change-IsFlagged t (handover a x e k) h = rw (ap (λ (u : State). u.pause) k.frame) h
  Change-IsFlagged t (new_collector a x e k) h = rw (ap (λ (u : State). u.pause) k.frame) h
  Change-IsFlagged t (install a x e k) h = rw (ap (λ (u : State). u.pause) k.frame) h

  Change-IsListed : (t : State) → Change env s t → IsListed s → IsListed t
  Change-IsListed t (unchanged k) h = same_tokens-IsListed k.same_tokens h
  Change-IsListed t (set_up k) h = first-IsListed (t.token) k.now_listed
  Change-IsListed t (by_admin setting k) h = k.still_listed h
  Change-IsListed t (by_guardian k) h =
      same_tokens-IsListed (ap (λ (u : State). u.allowed_tokens) k.frame) h
  Change-IsListed t (handover a x e k) h =
      same_tokens-IsListed (ap (λ (u : State). u.allowed_tokens) k.frame) h
  Change-IsListed t (new_collector a x e k) h =
      same_tokens-IsListed (ap (λ (u : State). u.allowed_tokens) k.frame) h
  Change-IsListed t (install a x e k) h =
      same_tokens-IsListed (ap (λ (u : State). u.allowed_tokens) k.frame) h

-- Over any sequence of invocations, an allowlist with no token twice and at most fifty tokens stays
-- one.
pub run-IsListed : (cs : List (Env × Op)) (s : State) → IsListed s → IsListed (run cs s)
unfolding run
run-IsListed [] s h = h
run-IsListed ((env, op) ∷ cs) s h = run-IsListed cs (step (env, op) s) (
    step_keeps env op s (After-map _ (λ t k. Change-IsListed env s t k h) (invoke-Change env s op))
      h)

-- Over any sequence of invocations, pause words with no bits but the two stay such words.
pub run-IsFlagged :
    (cs : List (Env × Op)) (s : State)
    → IsFlagged (pause_state s)
    → IsFlagged (pause_state (run cs s))
unfolding run
run-IsFlagged [] s h = h
run-IsFlagged ((env, op) ∷ cs) s h = run-IsFlagged cs (step (env, op) s) (
    step_keeps {P = λ t. IsFlagged (pause_state t)} env op s
      (After-map _ (λ t k. Change-IsFlagged env s t k h) (invoke-Change env s op)) h)
