-- ===== src/TipJar/Solvency/Runs.antt =====
-- Solvency across every entry point, and over sequences of invocations.
use stellar_tipjar_contracts.Common.{
  nat_eq, ℕ, ◌≡◌, sym, subst, ap, ◌∙◌, false, true, some, List, [], ◌∷◌, get_or, is_some, inl, inr,
  Bool-cases, arith,
}
use stellar_tipjar_contracts.Common.Int.{pos, ◌+ℤ◌, ◌≤ℤ◌, int_laws, parts_of_eq, fits_i128}
use stellar_tipjar_contracts.Common.Map.{get, sum, sum-empty}
use stellar_tipjar_contracts.Soroban.{
  Address, Env, After, custody, After-bind, After-then, ◌>>=◌, ◌>>◌,
}
use stellar_tipjar_contracts.TipJar.State.{State, Call}
use stellar_tipjar_contracts.TipJar.Tips
use stellar_tipjar_contracts.TipJar.Fees
use stellar_tipjar_contracts.TipJar.Legacy
use stellar_tipjar_contracts.TipJar.Legacy.{on_default_token}
use stellar_tipjar_contracts.TipJar.Breaker.{
  pause_tips, pause_withdrawals, pause_all, unpause_tips, unpause_withdrawals, unpause_all,
}
use stellar_tipjar_contracts.TipJar.Books.{
  IsSolvent, legacy_owed, legacy_part, legacy_part-zero, every, has_token,
}
use stellar_tipjar_contracts.TipJar.Calls.{
  Op, init, tip, get_total_tips, get_balance, withdraw, add_token, remove_token, set_payout_address,
  cancel_payout_address, authorize_operator, revoke_operator, propose_admin, accept_admin,
  cancel_admin_transfer, propose_upgrade, cancel_upgrade, execute_upgrade, migrate, set_guardian,
  set_guardian_pause_duration, set_fee, propose_fee_collector, accept_fee_collector,
  cancel_fee_collector_transfer, withdraw_fees, get_fee_balance, tip_legacy, get_total_tips_legacy,
  withdraw_legacy, discard, invoke, step, step_keeps, run,
}
use stellar_tipjar_contracts.TipJar.Solvency.Migration.{
  maybe_migrate_creator_data-HasSpare, maybe_migrate_fee_balance-HasSpare,
}
use stellar_tipjar_contracts.TipJar.Solvency.Tips.{tip-IsSolvent}
use stellar_tipjar_contracts.TipJar.Solvency.Withdrawals.{withdraw-IsSolvent}
use stellar_tipjar_contracts.TipJar.Solvency.Debits.{withdraw_fees-IsSolvent}
use stellar_tipjar_contracts.TipJar.Solvency.Settings.{
  add_token-IsSolvent, remove_token-IsSolvent, set_payout_address-IsSolvent,
  cancel_payout_address-IsSolvent, authorize_operator-IsSolvent, revoke_operator-IsSolvent,
  propose_admin-IsSolvent, accept_admin-IsSolvent, cancel_admin_transfer-IsSolvent,
  propose_upgrade-IsSolvent, cancel_upgrade-IsSolvent, execute_upgrade-IsSolvent, migrate-IsSolvent,
  set_guardian-IsSolvent, set_guardian_pause_duration-IsSolvent, pause_internal-IsSolvent,
  unpause_internal-IsSolvent, set_fee-IsSolvent, propose_fee_collector-IsSolvent,
  accept_fee_collector-IsSolvent, cancel_fee_collector_transfer-IsSolvent,
}

-- The amount of a tip is an `i128`.
abbrev pub IsTyped : Op → Type 0
IsTyped (tip sender creator token amount) = fits_i128 amount ≡ true
IsTyped (tip_legacy sender creator amount) = fits_i128 amount ≡ true
IsTyped op = Unit

-- An invocation of the contract at `this`, which does not call itself, and so has authorised nothing.
abbrev pub IsOutside : Address → Env × Op → Type 0
IsOutside this (env, op) = (env.this ≡ this) × (env.authorized env.this ≡ false) × IsTyped op

abbrev pub AllOutside : Address → List (Env × Op) → Type 0
AllOutside this [] = Unit
AllOutside this (c ∷ cs) = IsOutside this c × AllOutside this cs

module _ (token : Address) (env : Env) (s : State) (h : IsSolvent env.this token s) where
  -- Without an admin there are no old entries, so the first token changes nothing that is owed.
  init-IsSolvent :
      (a b : Address) (n : ℕ) → After (IsSolvent env.this token) (Tips.init env a b n s)
  unfolding Tips.init ◌>>=◌ ◌>>◌
  init-IsSolvent a b n = elim (Bool-cases (is_some s.admin)) [
    | inl set_up ↦ ground arith
    | inr unused ↦
        let old : legacy_owed s ≡ pos 0 =
          rw ((h.unused unused).0, (h.unused unused).1, sum-empty every) (omega int_laws) in
        let c : sum (has_token token) s.balance
              +ℤ get_or (pos 0) (get token s.fee_balance_token)
              +ℤ legacy_part token (some a) (legacy_owed s)
              +ℤ pos 0
            ≤ℤ custody token env.this s.log =
          omega (
            int_laws,
            h.covered,
            parts_of_eq (ap (legacy_part token (some a)) old ∙ legacy_part-zero token (some a)),
            parts_of_eq (ap (legacy_part token s.token) old ∙ legacy_part-zero token s.token),
          ) in
        ground (arith, c)
  ]

  discard-IsSolvent :
      {A : Type 0} (m : Call A)
      → After (IsSolvent env.this token) (m s)
      → After (IsSolvent env.this token) (discard m s)
  unfolding discard
  discard-IsSolvent m k = After-bind (IsSolvent env.this token) m _ k λ a t g. record { holds = g }

  query-IsSolvent :
      (c d : Address)
      → After (IsSolvent env.this token) (Tips.get_total_tips c d s)
        × After (IsSolvent env.this token) (Tips.get_balance c d s)
  unfolding Tips.get_total_tips Tips.get_balance
  query-IsSolvent c d =
      let m = maybe_migrate_creator_data-HasSpare env.this token (pos 0) c d s h in
      ground (arith, m)

  get_fee_balance-IsSolvent :
      (d : Address) → After (IsSolvent env.this token) (Fees.get_fee_balance d s)
  unfolding Fees.get_fee_balance
  get_fee_balance-IsSolvent d =
      After-then _ (IsSolvent env.this token) _
        (maybe_migrate_fee_balance-HasSpare env.this token (pos 0) d s h)
        λ t g. record { holds = g }

module _ (token : Address) (env : Env) (s : State) (outside : env.authorized env.this ≡ false)
    (h : IsSolvent env.this token s) where
  legacy-IsSolvent :
      {A : Type 0} (f : Address → Call A) (g : Call A) (tokens : List Address)
      → ((d : Address) → After (IsSolvent env.this token) (f d s))
      → After (IsSolvent env.this token) (g s)
      → After (IsSolvent env.this token) (on_default_token f g tokens s)
  unfolding on_default_token
  legacy-IsSolvent f g [] k l = l
  legacy-IsSolvent f g (d ∷ ds) k l = k d

  get_tokens-IsSolvent :
      {A : Type 0} (f : Address → Call A) (g : Call A)
      → ((d : Address) → After (IsSolvent env.this token) (f d s))
      → After (IsSolvent env.this token) (g s)
      → After (IsSolvent env.this token) ((Tips.get_tokens >>= on_default_token f g) s)
  unfolding Tips.get_tokens ◌>>=◌ ◌>>◌
  get_tokens-IsSolvent f g k l = record {
    holds = ground (arith, legacy-IsSolvent f g (get_or [] s.allowed_tokens) k l);
  }

  -- Every entry point keeps the jar solvent.
  pub invoke-IsSolvent : (op : Op) → IsTyped op → After (IsSolvent env.this token) (invoke env op s)
  unfolding invoke pause_tips pause_withdrawals pause_all unpause_tips unpause_withdrawals
      unpause_all Legacy.tip_legacy Legacy.get_total_tips_legacy Legacy.withdraw_legacy
  invoke-IsSolvent (init a b n) w = init-IsSolvent token env s h a b n
  invoke-IsSolvent (tip a b c z) w = tip-IsSolvent token env a b c z s outside w h
  invoke-IsSolvent (get_total_tips a b) w =
      discard-IsSolvent token env s h _ (query-IsSolvent token env s h a b).0
  invoke-IsSolvent (get_balance a b) w =
      discard-IsSolvent token env s h _ (query-IsSolvent token env s h a b).1
  invoke-IsSolvent (withdraw a b c d o) w = withdraw-IsSolvent token env a b c d o s h
  invoke-IsSolvent (add_token a b) w = add_token-IsSolvent env.this token env s h a b
  invoke-IsSolvent (remove_token a b) w = remove_token-IsSolvent env.this token env s h a b
  invoke-IsSolvent (set_payout_address a b) w =
      set_payout_address-IsSolvent env.this token env s h a b
  invoke-IsSolvent (cancel_payout_address a) w =
      cancel_payout_address-IsSolvent env.this token env s h a
  invoke-IsSolvent (authorize_operator a b z n) w =
      authorize_operator-IsSolvent env.this token env s h a b z n
  invoke-IsSolvent (revoke_operator a b) w = revoke_operator-IsSolvent env.this token env s h a b
  invoke-IsSolvent (propose_admin a b) w = propose_admin-IsSolvent env.this token env s h a b
  invoke-IsSolvent (accept_admin a) w = accept_admin-IsSolvent env.this token env s h a
  invoke-IsSolvent (cancel_admin_transfer a) w =
      cancel_admin_transfer-IsSolvent env.this token env s h a
  invoke-IsSolvent (propose_upgrade a n) w = propose_upgrade-IsSolvent env.this token env s h a n
  invoke-IsSolvent (cancel_upgrade a) w = cancel_upgrade-IsSolvent env.this token env s h a
  invoke-IsSolvent execute_upgrade w = execute_upgrade-IsSolvent env.this token env s h
  invoke-IsSolvent (migrate a) w = migrate-IsSolvent env.this token env s h a
  invoke-IsSolvent (set_guardian a b) w = set_guardian-IsSolvent env.this token env s h a b
  invoke-IsSolvent (set_guardian_pause_duration a n) w =
      set_guardian_pause_duration-IsSolvent env.this token env s h a n
  invoke-IsSolvent (Op.pause_tips a) w = pause_internal-IsSolvent env.this token env s h a 1
  invoke-IsSolvent (Op.pause_withdrawals a) w = pause_internal-IsSolvent env.this token env s h a 2
  invoke-IsSolvent (Op.pause_all a) w = pause_internal-IsSolvent env.this token env s h a 3
  invoke-IsSolvent (Op.unpause_tips a) w = unpause_internal-IsSolvent env.this token env s h a 1
  invoke-IsSolvent (Op.unpause_withdrawals a) w =
      unpause_internal-IsSolvent env.this token env s h a 2
  invoke-IsSolvent (Op.unpause_all a) w = unpause_internal-IsSolvent env.this token env s h a 3
  invoke-IsSolvent (set_fee a n) w = set_fee-IsSolvent env.this token env s h a n
  invoke-IsSolvent (propose_fee_collector a b) w =
      propose_fee_collector-IsSolvent env.this token env s h a b
  invoke-IsSolvent (accept_fee_collector a) w =
      accept_fee_collector-IsSolvent env.this token env s h a
  invoke-IsSolvent (cancel_fee_collector_transfer a) w =
      cancel_fee_collector_transfer-IsSolvent env.this token env s h a
  invoke-IsSolvent (withdraw_fees a b o) w = withdraw_fees-IsSolvent token env a b o s h
  invoke-IsSolvent (get_fee_balance a) w =
      discard-IsSolvent token env s h _ (get_fee_balance-IsSolvent token env s h a)
  invoke-IsSolvent (tip_legacy a b z) w =
      get_tokens-IsSolvent _ _ (λ d. tip-IsSolvent token env a b d z s outside w h)
        (record { holds = tt })
  invoke-IsSolvent (get_total_tips_legacy a) w =
      discard-IsSolvent token env s h _ (
        get_tokens-IsSolvent _ _ (λ d. (query-IsSolvent token env s h a d).0)
          (record { holds = h }))
  invoke-IsSolvent (withdraw_legacy a b c o) w =
      get_tokens-IsSolvent _ _ (λ d. withdraw-IsSolvent token env a b d c o s h)
        (record { holds = tt })

step-IsSolvent :
    (this token : Address) (c : Env × Op) (s : State)
    → IsOutside this c
    → IsSolvent this token s
    → IsSolvent this token (step c s)
step-IsSolvent this token (env, op) s (same, outside, typed) h =
    subst (λ x. IsSolvent x token (step (env, op) s)) same
      (step_keeps env op s (invoke-IsSolvent token env s outside before op typed) before)
  where
    before : IsSolvent env.this token s
    before = subst (λ x. IsSolvent x token s) (sym same) h

-- Over any sequence of invocations, failing ones included, which the contract does not authorise
-- itself and whose tips are words, a jar that is solvent in a token stays solvent in it: it holds at
-- least the balances, the fees and the unmigrated entries.
pub run-IsSolvent :
    (this token : Address) (cs : List (Env × Op)) (s : State)
    → AllOutside this cs
    → IsSolvent this token s
    → IsSolvent this token (run cs s)
unfolding run
run-IsSolvent this token [] s o h = h
run-IsSolvent this token (c ∷ cs) s o h =
    run-IsSolvent this token cs (step c s) o.1 (step-IsSolvent this token c s o.0 h)
