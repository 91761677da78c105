-- ===== src/RiskManagement/Laws.antt =====
-- What one call on a participant leaves for the next one.
use stellar_tipjar_contracts.Common.{
  nat_eq, ◌≡◌, ◌∙◌, Option-cases, inl, inr, true, some, nat_beq, arith, if◌then◌else◌,
}
use stellar_tipjar_contracts.Common.Int.{ℤ, pos, ◌≤ℤ◌, ltb_ℤ, add_i128, mul_i128, checked_div}
use stellar_tipjar_contracts.Common.Map.{get, set, get-set}
use stellar_tipjar_contracts.Soroban.{Address, Env, After, ok, err, panic, ◌>>=◌, ◌>>◌}
use stellar_tipjar_contracts.RiskManagement.{
  RiskProfile, Register, exposure_limit_exceeded, capped, update_exposure, enforce_limit,
  reset_exposure,
}

module _ (env later : Env) (s : Register) (caller : Address) (p : RiskProfile)
    (stored : get caller s.profiles ≡ some p) where
  kept :
      (delta z : ℤ)
      → get caller (
          set caller
            (record p { exposure = add_i128 p.exposure delta; risk_score = capped z })
            s.profiles)
        ≡ some (record p { exposure = add_i128 p.exposure delta; risk_score = capped z })
  kept delta z =
      let same : nat_beq caller caller ≡ true = ground arith in
      get-set caller caller
        (record p { exposure = add_i128 p.exposure delta; risk_score = capped z }) s.profiles
      ∙ rw same

  -- If a registered participant's update returns, the limit check that the participant signs fails where
  -- the new exposure, as it wraps, is above the threshold, and returns with nothing changed else.
  update_exposure-enforce_limit :
      (delta : ℤ)
      → later.authorized caller ≡ true
      → After
          (λ t. enforce_limit later caller t ≡ (
            if ltb_ℤ p.alert_threshold (add_i128 p.exposure delta)
            then err (panic exposure_limit_exceeded)
            else ok (tt, t)))
          (update_exposure env caller delta s)
  unfolding update_exposure enforce_limit ◌>>=◌ ◌>>◌
  update_exposure-enforce_limit delta signed =
      elim (Option-cases
        (checked_div (mul_i128 (add_i128 p.exposure delta) (pos 100)) p.alert_threshold)) [
          | inl e ↦ ground (arith, e, kept delta (pos 100))
          | inr (z, e) ↦ ground (arith, e, kept delta (pos 100), kept delta z)
        ]

  -- If the reset of a registered participant with a threshold from 0 on returns, the limit check that the
  -- participant signs returns with nothing changed.
  pub reset_exposure-enforce_limit :
      (admin : Address)
      → later.authorized caller ≡ true
      → pos 0 ≤ℤ p.alert_threshold
      → After (λ t. enforce_limit later caller t ≡ ok (tt, t)) (reset_exposure env admin caller s)
  unfolding reset_exposure enforce_limit ◌>>=◌ ◌>>◌
  reset_exposure-enforce_limit admin signed n =
      ground
        (arith, get-set caller caller (record p { exposure = pos 0; risk_score = 0 }) s.profiles)
