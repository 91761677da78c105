-- ===== src/RiskManagement/Totals.antt =====
-- Sequences of calls of the register: the total that it reports is the sum of the exposures, less what
-- this sum was at the last set-up, which clears the total and keeps the exposures.
use stellar_tipjar_contracts.Common.{
  nat_eq, ℕ, ◌≡◌, refl, ◌∙◌, ap, none, some, List, [], ◌∷◌, get_or, Bool-cases, if◌then◌else◌,
  Option-cases, inl, inr, arith,
}
use stellar_tipjar_contracts.Common.Int.{
  ℤ, pos, ◌-ℤ◌, wrap_i128, add_i128, sub_i128, mul_i128, checked_div, int_laws, parts_of_eq,
}
use stellar_tipjar_contracts.Common.Sums.{total, total-replace_word, total-clear_word, total-insert}
use stellar_tipjar_contracts.Common.Map.{Map, get, set}
use stellar_tipjar_contracts.Soroban.{Address, Env, ok, After, ◌>>=◌, ◌>>◌, step, run, step-cases}
use stellar_tipjar_contracts.RiskManagement.{
  RiskProfile, RiskMetrics, Register, no_metrics, init, raw_score, capped, register_participant,
  update_exposure, enforce_limit, reset_exposure, get_risk_metrics, Call,
}

-- The sum of all exposures.
abbrev pub sum_of : Map Address RiskProfile → ℤ
sum_of m = total (λ p. p.exposure) m

-- The total is the sum less a base.
pub record IsTotalled (base : ℤ) (s : Register) : Type 0 where
  pub total : (get_or no_metrics s.metrics).total_exposure ≡ wrap_i128 (sum_of s.profiles -ℤ base)

module _ (env : Env) (base : ℤ) (s : Register) (h : IsTotalled base s) where
  -- A stored participant's exposure is replaced in the total.
  replaced_in :
      (caller : Address) (p q : RiskProfile)
      → get caller s.profiles ≡ some p
      → add_i128 (sub_i128 (get_or no_metrics s.metrics).total_exposure p.exposure) q.exposure
        ≡ wrap_i128 (sum_of (set caller q s.profiles) -ℤ base)
  replaced_in caller p q e =
      rw h.total (total-replace_word (λ p. p.exposure) caller s.profiles p q e base)

  cleared_in :
      (caller : Address) (p q : RiskProfile)
      → get caller s.profiles ≡ some p
      → q.exposure ≡ pos 0
      → sub_i128 (get_or no_metrics s.metrics).total_exposure p.exposure
        ≡ wrap_i128 (sum_of (set caller q s.profiles) -ℤ base)
  cleared_in caller p q e z =
      rw h.total (total-clear_word (λ p. p.exposure) caller s.profiles p q e base z)

  added_in :
      (caller : Address) (q : RiskProfile)
      → get caller s.profiles ≡ none
      → q.exposure ≡ pos 0
      → (get_or no_metrics s.metrics).total_exposure
        ≡ wrap_i128 (sum_of (set caller q s.profiles) -ℤ base)
  added_in caller q e z =
      let same : sum_of s.profiles ≡ sum_of (set caller q s.profiles) = omega (
        int_laws,
        parts_of_eq (total-insert (λ p. p.exposure) caller s.profiles q e),
        parts_of_eq z,
      ) in
      h.total ∙ ap (λ (x : ℤ). wrap_i128 (x -ℤ base)) same

  register_participant-IsTotalled :
      (caller : Address) (threshold : ℤ)
      → After (IsTotalled base) (register_participant env caller threshold s)
  unfolding register_participant ◌>>=◌ ◌>>◌
  register_participant-IsTotalled caller threshold =
      let q : RiskProfile = record {
        owner = caller;
        exposure = pos 0;
        risk_score = 0;
        alert_threshold = threshold;
      } in
      elim (Option-cases (get caller s.profiles)) [
        | inl e ↦ ground (arith, e, added_in caller q e refl)
        | inr (p, e) ↦ ground (arith, e)
      ]

  update_exposure-IsTotalled :
      (caller : Address) (delta : ℤ) → After (IsTotalled base) (update_exposure env caller delta s)
  unfolding update_exposure raw_score ◌>>=◌ ◌>>◌
  update_exposure-IsTotalled caller delta = elim (Option-cases (get caller s.profiles)) [
    | inl e ↦ ground (arith, e)
    | inr (p, e) ↦
        let to : ℕ → RiskProfile =
          λ score. record p { exposure = add_i128 p.exposure delta; risk_score = score } in
        elim (Option-cases
          (checked_div (mul_i128 (add_i128 p.exposure delta) (pos 100)) p.alert_threshold)) [
            | inl f ↦ ground (arith, e, f, replaced_in caller p (to (capped (pos 100))) e)
            | inr (z, f) ↦ ground (
              arith,
              e,
              f,
              replaced_in caller p (to (capped z)) e,
              replaced_in caller p (to (capped (pos 100))) e,
            )
          ]
  ]

  reset_exposure-IsTotalled :
      (admin owner : Address) → After (IsTotalled base) (reset_exposure env admin owner s)
  unfolding reset_exposure ◌>>=◌ ◌>>◌
  reset_exposure-IsTotalled admin owner = elim (Option-cases (get owner s.profiles)) [
    | inl e ↦ ground (arith, e)
    | inr (p, e) ↦
        ground (arith, e, cleared_in owner p (record p { exposure = pos 0; risk_score = 0 }) e refl)
  ]

-- The calls that change the register, each with its arguments.
pub data RiskCall : Type 0 where
  set_up : Address → RiskCall
  register : Address → ℤ → RiskCall
  update : Address → ℤ → RiskCall
  enforce : Address → RiskCall
  reset : Address → Address → RiskCall

unfoldable pub invoke : Env → RiskCall → Call (Unit {0})
invoke env (set_up admin) = init env admin
invoke env (register caller threshold) = register_participant env caller threshold
invoke env (update caller delta) = update_exposure env caller delta
invoke env (enforce caller) = enforce_limit env caller
invoke env (reset admin owner) = reset_exposure env admin owner

-- The base after a call: a set-up that is signed moves it to the sum of the exposures.
abbrev pub rebased : Env × RiskCall → Register → ℤ → ℤ
rebased (env, set_up admin) s base = if env.authorized admin then sum_of s.profiles else base
rebased (env, register caller threshold) s base = base
rebased (env, update caller delta) s base = base
rebased (env, enforce caller) s base = base
rebased (env, reset admin owner) s base = base

-- The sum of the exposures at the last set-up among the calls, or the given one.
unfoldable pub last_base : List (Env × RiskCall) → Register → ℤ → ℤ
last_base [] s base = base
last_base (c ∷ calls) s base = last_base calls (step invoke c s) (rebased c s base)

module _ (env : Env) (base : ℤ) (s : Register) (h : IsTotalled base s) where
  enforce_limit-IsTotalled :
      (caller : Address) → After (IsTotalled base) (enforce_limit env caller s)
  unfolding enforce_limit ◌>>=◌ ◌>>◌
  enforce_limit-IsTotalled caller = ground (arith, h.total)

  cleared_total : wrap_i128 (sum_of s.profiles -ℤ sum_of s.profiles) ≡ pos 0
  unfolding wrap_i128
  cleared_total =
      let z : sum_of s.profiles -ℤ sum_of s.profiles ≡ pos 0 = omega int_laws in ap wrap_i128 z

  step-set_up :
      (admin : Address)
      → IsTotalled (rebased (env, set_up admin) s base) (step invoke (env, set_up admin) s)
  unfolding step invoke init ◌>>=◌ ◌>>◌
  step-set_up admin = elim (Bool-cases (env.authorized admin)) [
    | inl signed ↦ ground (arith, signed, cleared_total)
    | inr unsigned ↦ ground (arith, unsigned, h.total)
  ]

  kept :
      (c : RiskCall)
      → After (IsTotalled base) (invoke env c s)
      → IsTotalled base (step invoke (env, c) s)
  kept c k = elim (step-cases invoke (IsTotalled base) env c s k) [
    | inl same ↦ rw same h
    | inr now ↦ now
  ]

  step-IsTotalled : (c : RiskCall) → IsTotalled (rebased (env, c) s base) (step invoke (env, c) s)
  unfolding invoke
  step-IsTotalled (set_up admin) = step-set_up admin
  step-IsTotalled (register caller threshold) =
      kept (register caller threshold)
        (register_participant-IsTotalled env base s h caller threshold)
  step-IsTotalled (update caller delta) =
      kept (update caller delta) (update_exposure-IsTotalled env base s h caller delta)
  step-IsTotalled (enforce caller) = kept (enforce caller) (enforce_limit-IsTotalled caller)
  step-IsTotalled (reset admin owner) =
      kept (reset admin owner) (reset_exposure-IsTotalled env base s h admin owner)

run-IsTotalled :
    (calls : List (Env × RiskCall)) (base : ℤ) (s : Register)
    → IsTotalled base s
    → IsTotalled (last_base calls s base) (run invoke calls s)
unfolding run last_base
run-IsTotalled [] base s h = h
run-IsTotalled ((env, c) ∷ calls) base s h =
    run-IsTotalled calls (rebased (env, c) s base) (step invoke (env, c) s)
      (step-IsTotalled env base s h c)

-- If the stored total is the sum of the participants' exposures less a base, as it wraps, then after
-- any sequence of set-ups, registrations, updates, limit checks and resets, of which the failing ones
-- are rolled back, the metrics that are read have as their total the sum of the exposures, less what
-- this sum was at the last set-up that was signed, or less the base if there is none.
pub run-get_risk_metrics :
    (calls : List (Env × RiskCall)) (base : ℤ) (s : Register)
    → IsTotalled base s
    → (m : RiskMetrics) × (get_risk_metrics (run invoke calls s) ≡ ok (m, run invoke calls s))
      × (m.total_exposure
          ≡ wrap_i128 (sum_of (run invoke calls s).profiles -ℤ last_base calls s base))
unfolding get_risk_metrics
run-get_risk_metrics calls base s h = (_, refl, (run-IsTotalled calls base s h).total)
