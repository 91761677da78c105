-- ===== src/TipJar/Legacy.antt =====
-- The single-token calls of contracts/tipjar/src/lib.rs, on the first token of the allowlist.
use stellar_tipjar_contracts.Common.{nat_eq, pair_eq, Option, List, [], ◌∷◌}
use stellar_tipjar_contracts.Common.Int.{ℤ, pos}
use stellar_tipjar_contracts.Soroban.{Address, Env, pure, raise, ◌>>=◌}
use stellar_tipjar_contracts.TipJar.Types.{not_initialized}
use stellar_tipjar_contracts.TipJar.State.{Call}
use stellar_tipjar_contracts.TipJar.Tips.{tip, get_total_tips, get_tokens}
use stellar_tipjar_contracts.TipJar.Withdrawals.{withdraw}

-- Runs a call on the first token, or the other call if there is none.
unfoldable pub on_default_token : {A : Type 0} → (Address → Call A) → Call A → List Address → Call A
on_default_token f g [] = g
on_default_token f g (default_token ∷ _) = f default_token

unfoldable pub tip_legacy : Env → Address → Address → ℤ → Call (Unit {0})
tip_legacy env sender creator amount = do
  tokens ← get_tokens
  on_default_token (λ token. tip env sender creator token amount) (raise not_initialized) tokens

unfoldable pub get_total_tips_legacy : Address → Call ℤ
get_total_tips_legacy creator = do
  tokens ← get_tokens
  on_default_token (get_total_tips creator) (pure (pos 0)) tokens

unfoldable pub withdraw_legacy : Env → Address → Address → Address → Option ℤ → Call (Unit {0})
withdraw_legacy env caller creator to amount = do
  tokens ← get_tokens
  on_default_token (λ token. withdraw env caller creator token to amount) (raise not_initialized)
      tokens
