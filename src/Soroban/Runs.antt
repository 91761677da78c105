-- ===== src/Soroban/Runs.antt =====
-- Sequences of invocations of a contract, of which the host rolls back the failing ones.
use stellar_tipjar_contracts.Common.{◌≡◌, refl, List, [], ◌∷◌, ◌⊎◌, inl, inr}
use stellar_tipjar_contracts.Soroban.Host.{Env}
use stellar_tipjar_contracts.Soroban.Monad.{Result, ok, err, M}
use stellar_tipjar_contracts.Soroban.Rules.{After}

module _ {S E C : Type 0} (invoke : Env → C → M S E (Unit {0})) where
  unfoldable pub step : Env × C → S → S
  step (env, c) s = elim (invoke env c s) [ ok (a, t) ↦ t | err e ↦ s ]

  unfoldable pub run : List (Env × C) → S → S
  run [] s = s
  run (c ∷ calls) s = run calls (step c s)

  -- An invocation leaves the state, or what holds when it returns.
  pub step-cases {ℓ} :
      (P : S → Type ℓ) (env : Env) (c : C) (s : S)
      → After P (invoke env c s)
      → (step (env, c) s ≡ s) ⊎ P (step (env, c) s)
  unfolding step
  step-cases P env c s h = go (invoke env c s) h
    where
      go :
          (r : Result E (Unit {0} × S))
          → After P r
          → (elim r as (λ x. S) [ ok (a, t) ↦ t | err e ↦ s ] ≡ s)
            ⊎ P (elim r [ ok (a, t) ↦ t | err e ↦ s ])
      go (ok (a, t)) k = inr k.holds
      go (err e) k = inl refl

  -- What every invocation keeps, a sequence of them keeps.
  pub run-keeps {ℓ} :
      (P : S → Type ℓ)
      → ((env : Env) (c : C) (s : S) → P s → After P (invoke env c s))
      → (calls : List (Env × C)) (s : S) → P s
      → P (run calls s)
  unfolding run
  run-keeps P keep [] s h = h
  run-keeps P keep ((env, c) ∷ calls) s h =
      run-keeps P keep calls (step (env, c) s)
        (elim (step-cases P env c s (keep env c s h)) [ inl same ↦ rw same h | inr k ↦ k ])
