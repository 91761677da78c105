-- ===== src/TipJar/Tokens.antt =====
-- The token allowlist of contracts/tipjar/src/lib.rs.
use stellar_tipjar_contracts.Common.{
  nat_eq, pair_eq, not, some, [], ◌∷◌, ◌++◌, leb, get_or, contains, without, length,
}
use stellar_tipjar_contracts.Soroban.{
  Address, Env, gets, raise_if, modify, require_auth, ◌>>=◌, ◌>>◌,
}
use stellar_tipjar_contracts.TipJar.Types.{
  max_allowed_tokens, token_not_allowed, token_already_exists, max_tokens_reached,
}
use stellar_tipjar_contracts.TipJar.State.{Call, bump_instance}
use stellar_tipjar_contracts.TipJar.Internal.{require_admin}

unfoldable pub add_token : Env → Address → Address → Call (Unit {0})
unfolding ◌>>=◌ ◌>>◌
add_token env admin token = do
  require_auth env admin
  require_admin admin
  allowed_tokens ← gets (λ s. get_or [] s.allowed_tokens)
  raise_if (leb max_allowed_tokens (length allowed_tokens)) max_tokens_reached
  raise_if (contains token allowed_tokens) token_already_exists
  modify (λ s. record s { allowed_tokens = some (allowed_tokens ++ token ∷ []) })
  bump_instance

-- The loop keeps the other tokens, and notes whether it has met this one.
unfoldable pub remove_token : Env → Address → Address → Call (Unit {0})
unfolding ◌>>=◌ ◌>>◌
remove_token env admin token = do
  require_auth env admin
  require_admin admin
  allowed_tokens ← gets (λ s. get_or [] s.allowed_tokens)
  raise_if (not (contains token allowed_tokens)) token_not_allowed
  modify (λ s. record s { allowed_tokens = some (without token allowed_tokens) })
  bump_instance
