-- ===== src/TipJar/Guards.antt =====
-- The guards of contracts/tipjar/src/lib.rs as rules: each changes nothing, and what it has tested
-- holds in the rest of the call.
use stellar_tipjar_contracts.Common.{
  ℕ, ◌≡◌, true, false, [], some, is_some, get_or, contains, arith,
}
use stellar_tipjar_contracts.Soroban.{Address, Env, Transfer, After, ◌>>=◌, ◌>>◌}
use stellar_tipjar_contracts.TipJar.Types.{DataKey}
use stellar_tipjar_contracts.TipJar.State.{State, Call, transfer, transfer_in, bump, bump_in}
use stellar_tipjar_contracts.TipJar.Internal.{
  is_paused, check_not_paused, ensure_initialized, ensure_token_allowed, require_admin,
}

module _ {ℓ} {B : Type 0} {Q : State → Type ℓ} {s : State} (k : Call B) where
  pub After-not_paused :
      (env : Env) (flag : ℕ)
      → (is_paused env flag s ≡ false → After Q (k s))
      → After Q ((check_not_paused env flag >> k) s)
  unfolding check_not_paused ◌>>◌
  After-not_paused env flag h = record { holds = ground (arith, h) }

  pub After-initialized :
      (is_some s.admin ≡ true → After Q (k s)) → After Q ((ensure_initialized >> k) s)
  unfolding ◌>>=◌ ◌>>◌
  After-initialized h = record { holds = ground (arith, h) }

  pub After-token_allowed :
      (token : Address)
      → (contains token (get_or [] s.allowed_tokens) ≡ true → After Q (k s))
      → After Q ((ensure_token_allowed token >> k) s)
  unfolding ◌>>=◌ ◌>>◌
  After-token_allowed token h = record { holds = ground (arith, h) }

  pub After-admin :
      (caller : Address)
      → (s.admin ≡ some caller → After Q (k s))
      → After Q ((require_admin caller >> k) s)
  unfolding ◌>>=◌ ◌>>◌
  After-admin caller h = record { holds = ground (arith, h) }

  pub After-transfer :
      (env : Env) (x : Transfer)
      → (env.accepts x ≡ true → After Q (k (transfer_in x s)))
      → After Q ((transfer env x >> k) s)
  unfolding ◌>>=◌ ◌>>◌
  After-transfer env x h = record { holds = ground (arith, h) }

  pub After-bump : (key : DataKey) → After Q (k (bump_in key s)) → After Q ((bump key >> k) s)
  unfolding ◌>>=◌ ◌>>◌
  After-bump key h = record { holds = h.holds }
