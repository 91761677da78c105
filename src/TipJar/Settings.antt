-- ===== src/TipJar/Settings.antt =====
-- The settings of the jar across the calls that move tokens.
use stellar_tipjar_contracts.Common.{
  ℕ, ltb, ◌≡◌, Bool, true, false, Option, none, some, List, [], ◌∷◌, inl, inr, Bool-cases,
  Option-cases, if◌then◌else◌, arith,
}
use stellar_tipjar_contracts.Common.Int.{ℤ, sub_i128}
use stellar_tipjar_contracts.Soroban.{
  Address, Env, Effect, After, pure, ◌>>=◌, ◌>>◌, After-then, After-bind, After-gets,
  After-or_raise, After-modify, After-raise_if, After-auth,
}
use stellar_tipjar_contracts.TipJar.Types.{DataKey, Event}
use stellar_tipjar_contracts.TipJar.State.{State, bump}
use stellar_tipjar_contracts.TipJar.Internal.{
  fee_for, is_legacy_token, migrate_balance, migrate_total, maybe_migrate_creator_data,
  maybe_migrate_fee_balance,
}
use stellar_tipjar_contracts.TipJar.Tips.{credit, accrue_fee, tip}
use stellar_tipjar_contracts.TipJar.Withdrawals.{
  lower_allowance, use_operator, apply_payout_change, withdraw,
}
use stellar_tipjar_contracts.TipJar.Fees.{withdraw_fees}
use stellar_tipjar_contracts.TipJar.Guards.{
  After-not_paused, After-initialized, After-token_allowed, After-transfer,
}

-- The hashes that have been installed, newest first.
abbrev pub installs : List (Effect DataKey Event) → List ℕ
installs [] = []
installs (Effect.installed h ∷ l) = h ∷ installs l
installs (Effect.published e ∷ l) = installs l
installs (Effect.transferred x ∷ l) = installs l
installs (Effect.extended_instance a b ∷ l) = installs l
installs (Effect.extended k a b ∷ l) = installs l

pub record SameSettings (s t : State) : Type 0 where
  pub same_token : t.token ≡ s.token
  pub same_version : t.data_version ≡ s.data_version
  pub same_tokens : t.allowed_tokens ≡ s.allowed_tokens
  pub same_admin : t.admin ≡ s.admin
  pub same_pending_admin : t.pending_admin ≡ s.pending_admin
  pub same_timelock : t.upgrade_timelock_ledgers ≡ s.upgrade_timelock_ledgers
  pub same_upgrade : t.pending_upgrade ≡ s.pending_upgrade
  pub same_guardian : t.guardian ≡ s.guardian
  pub same_pause : t.pause ≡ s.pause
  pub same_duration : t.guardian_pause_duration ≡ s.guardian_pause_duration
  pub same_rate : t.fee_bps ≡ s.fee_bps
  pub same_collector : t.fee_collector ≡ s.fee_collector
  pub same_pending_collector : t.pending_fee_collector ≡ s.pending_fee_collector
  pub same_installs : installs t.log ≡ installs s.log

pub SameSettings-refl : (s : State) → SameSettings s s
SameSettings-refl s = ground arith

module _ (s t : State) (h : SameSettings s t) where
  migrate_balance-SameSettings :
      (c a : Address) (o : Option ℤ) → SameSettings s (migrate_balance c a o t)
  unfolding migrate_balance
  migrate_balance-SameSettings c a none = h
  migrate_balance-SameSettings c a (some v) = ground arith

  migrate_total-SameSettings :
      (c a : Address) (o : Option ℤ) → SameSettings s (migrate_total c a o t)
  unfolding migrate_total
  migrate_total-SameSettings c a none = h
  migrate_total-SameSettings c a (some v) = ground arith

  credit-SameSettings : (c a : Address) (n z : ℤ) → After (SameSettings s) (credit c a n z t)
  unfolding credit
  credit-SameSettings c a n z = After-gets _ _ (
      After-gets _ _
        (After-or_raise _ _ _ λ b e. After-or_raise _ _ _ λ d f. unfold ◌>>=◌ ◌>>◌ in ground arith))

  pub maybe_migrate_fee_balance-SameSettings :
      (a : Address) → After (SameSettings s) (maybe_migrate_fee_balance a t)
  unfolding maybe_migrate_fee_balance
  maybe_migrate_fee_balance-SameSettings a = elim (Option-cases t.fee_balance) [
    | inl e ↦ ground arith
    | inr (legacy, e) ↦ elim (Bool-cases (is_legacy_token a t.token)) [
      | inr other ↦ ground arith
      | inl l ↦ ground arith
    ]
  ]

  lower_allowance-SameSettings :
      (c a : Address) (z : ℤ) (x : ℕ) → SameSettings s (lower_allowance c a z x t)
  unfolding lower_allowance
  lower_allowance-SameSettings c a z x = ground arith

  apply_payout_change-SameSettings :
      (env : Env) (c : Address) (o : Option (Address × ℕ))
      → SameSettings s (apply_payout_change env c o t)
  unfolding apply_payout_change
  apply_payout_change-SameSettings env c none = h
  apply_payout_change-SameSettings env c (some (p, l)) = ground arith

  bump_if-SameSettings :
      (c : Bool) (k : DataKey) → After (SameSettings s) ((if c then bump k else pure tt) t)
  bump_if-SameSettings c k = ground arith

module _ (s t : State) (h : SameSettings s t) where
  pub maybe_migrate_creator_data-SameSettings :
      (c a : Address) → SameSettings s (maybe_migrate_creator_data c a t)
  unfolding maybe_migrate_creator_data
  maybe_migrate_creator_data-SameSettings c a = elim (Bool-cases (is_legacy_token a t.token)) [
    | inl l ↦ rw l (migrate_total-SameSettings s _ (migrate_balance-SameSettings s t h c a _) c a _)
    | inr other ↦ rw other h
  ]

  fee_step-SameSettings :
      (bps : ℕ) (c a : Address) (z f n : ℤ)
      → After (SameSettings s) ((if ltb 0 bps then accrue_fee c a z f n else pure tt) t)
  unfolding accrue_fee
  fee_step-SameSettings bps c a z f n = elim (Bool-cases (ltb 0 bps)) [
    | inl charged ↦ rw charged (
        After-then _ (SameSettings s) _ (maybe_migrate_fee_balance-SameSettings s t h a)
          λ u g. After-gets _ _ (After-or_raise _ _ _ λ v e. unfold ◌>>=◌ ◌>>◌ in ground arith))
    | inr free ↦ rw free (record { holds = h })
  ]

  use_operator-SameSettings :
      (env : Env) (c a : Address) (z : ℤ) (o : Option (ℤ × ℕ))
      → After (SameSettings s) (use_operator env c a z o t)
  unfolding use_operator ◌>>=◌ ◌>>◌
  use_operator-SameSettings env c a z none = record { holds = tt }
  use_operator-SameSettings env c a z (some (y, x)) =
      ground (arith, lower_allowance-SameSettings s t h c a (sub_i128 y z) x)

  check_operator-SameSettings :
      (env : Env) (b : Bool) (c a : Address) (z : ℤ) (o : Option (ℤ × ℕ))
      → After (SameSettings s) ((if b then use_operator env c a z o else pure tt) t)
  check_operator-SameSettings env true c a z o = use_operator-SameSettings env c a z o
  check_operator-SameSettings env false c a z o = record { holds = h }

  fee_for-SameSettings : (z : ℤ) (bps : ℕ) → After (SameSettings s) (fee_for z bps t)
  unfolding fee_for
  fee_for-SameSettings z bps = ground (arith, h)

module _ (env : Env) (s : State) where
  pub tip-SameSettings : (a b c : Address) (z : ℤ) → After (SameSettings s) (tip env a b c z s)
  unfolding tip
  tip-SameSettings a b c z = After-auth _ env a λ auth. After-not_paused _ env _ λ r.
      After-raise_if _ _ _ λ p. After-initialized _ λ l. After-token_allowed _ c λ k.
        let m : SameSettings s (maybe_migrate_creator_data b c s) =
          maybe_migrate_creator_data-SameSettings s s (SameSettings-refl s) b c in
        After-modify _ _ (
          After-gets _ _ (
            After-bind (SameSettings s) _ _ (fee_for-SameSettings s _ m z _) λ fee t g.
              After-transfer _ env _ λ x.
                After-then _ (SameSettings s) _ (credit-SameSettings s _ (ground arith) b c _ z)
                  λ u i.
                    After-then _ (SameSettings s) _ (fee_step-SameSettings s u i _ b c z fee _)
                      λ v j. unfold ◌>>=◌ ◌>>◌ in ground arith))

  pub withdraw_fees-SameSettings :
      (a b : Address) (o : Option ℤ) → After (SameSettings s) (withdraw_fees env a b o s)
  unfolding withdraw_fees
  withdraw_fees-SameSettings a b o = After-auth _ env a λ auth. After-gets _ _ (
      After-or_raise _ _ _ λ collector e. After-raise_if _ _ _ λ is_collector.
        After-then _ (SameSettings s) _
          (maybe_migrate_fee_balance-SameSettings s s (SameSettings-refl s) b)
          λ t m. After-gets _ _ (
            After-raise_if _ _ _ λ some_left.
              After-raise_if _ _ _
                λ tests. After-transfer _ env _ λ accepted. unfold ◌>>=◌ ◌>>◌ in ground arith))

  pub withdraw-SameSettings :
      (a b c d : Address) (o : Option ℤ) → After (SameSettings s) (withdraw env a b c d o s)
  unfolding withdraw
  withdraw-SameSettings a b c d o = After-auth _ env a λ auth. After-not_paused _ env _ λ r.
      After-initialized _ λ l.
        let m : SameSettings s (maybe_migrate_creator_data b c s) =
          maybe_migrate_creator_data-SameSettings s s (SameSettings-refl s) b c in
        After-modify _ _ (
          After-gets _ _ (
            After-raise_if _ _ _ λ some_left. After-raise_if _ _ _ λ tests. After-gets _ _ (
              After-then _ (SameSettings s) _ (check_operator-SameSettings s _ m env _ b a _ _)
                λ t g. After-gets _ _ (
                  After-modify _ _ (
                    After-gets _ _ (
                      After-then _ (SameSettings s) _
                        (bump_if-SameSettings s _ (apply_payout_change-SameSettings s t g env b _) _
                          _)
                        λ u i. After-raise_if _ _ _ λ target.
                          After-transfer _ env _ λ accepted. unfold ◌>>=◌ ◌>>◌ in ground arith))))))
