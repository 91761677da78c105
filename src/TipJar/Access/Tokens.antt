-- ===== src/TipJar/Access/Tokens.antt =====
-- The allowlist calls, by their cause.
use stellar_tipjar_contracts.Common.{
  ◌++◌, ◌<◌, ◌≤◌, leb, length, length-append, length-without-le, contains, without,
  append-IsDistinct, without-IsDistinct, get_or, List, [], ◌∷◌, ◌≡◌, true, false, some, ap, arith,
}
use stellar_tipjar_contracts.Soroban.{Address, Env, After, After-map}
use stellar_tipjar_contracts.TipJar.Types.{max_allowed_tokens}
use stellar_tipjar_contracts.TipJar.Internal.{pause_state}
use stellar_tipjar_contracts.TipJar.Pauses.Bits.{IsFlagged}
use stellar_tipjar_contracts.TipJar.State.{State}
use stellar_tipjar_contracts.TipJar.Tokens
use stellar_tipjar_contracts.TipJar.Settings.{installs}
use stellar_tipjar_contracts.TipJar.Access.{approves, allowlist, written, ByAdmin}

module _ (env : Env) (s : State) where
  abbrev tokens : List Address
  tokens = get_or [] s.allowed_tokens

  add_bounded :
      (b : Address)
      → leb max_allowed_tokens (length tokens) ≡ false
      → length (tokens ++ b ∷ []) ≤ max_allowed_tokens
  add_bounded b room =
      let l : length tokens < max_allowed_tokens = ground arith in
      omega (arith, l, length-append tokens (b ∷ []))

  same_pause-IsFlagged :
      (t : State) → t.pause ≡ s.pause → IsFlagged (pause_state s) → IsFlagged (pause_state t)
  same_pause-IsFlagged t e h = rw e h

  add_token-tokens :
      (a b : Address)
      → After
          (λ t.
            (approves env s.admin ≡ true)
            × (t ≡ written allowlist s t)
            × (installs t.log ≡ installs s.log)
            × (t.allowed_tokens ≡ some (tokens ++ b ∷ []))
            × (leb max_allowed_tokens (length tokens) ≡ false)
            × (contains b tokens ≡ false))
          (Tokens.add_token env a b s)
  unfolding Tokens.add_token
  add_token-tokens a b = ground arith

  pub add_token-ByAdmin :
      (a b : Address) → After (ByAdmin env s allowlist) (Tokens.add_token env a b s)
  add_token-ByAdmin a b =
      After-map _
        (λ t (v, e, i, now, room, new). record {
          approved = v;
          frame = e;
          same_installs = i;
          still_flagged = same_pause-IsFlagged t (ap (λ (u : State). u.pause) e);
          still_listed = λ h. record {
            distinct = rw now (append-IsDistinct b tokens h.distinct new);
            bounded = rw now (add_bounded b room);
          };
        })
        (add_token-tokens a b)

  remove_token-tokens :
      (a b : Address)
      → After
          (λ t.
            (approves env s.admin ≡ true)
            × (t ≡ written allowlist s t)
            × (installs t.log ≡ installs s.log)
            × (t.allowed_tokens ≡ some (without b tokens)))
          (Tokens.remove_token env a b s)
  unfolding Tokens.remove_token
  remove_token-tokens a b = ground arith

  pub remove_token-ByAdmin :
      (a b : Address) → After (ByAdmin env s allowlist) (Tokens.remove_token env a b s)
  remove_token-ByAdmin a b =
      After-map _
        (λ t (v, e, i, now). record {
          approved = v;
          frame = e;
          same_installs = i;
          still_flagged = same_pause-IsFlagged t (ap (λ (u : State). u.pause) e);
          still_listed = λ h. record {
            distinct = rw now (without-IsDistinct b tokens h.distinct);
            bounded = rw now (omega (arith, h.bounded, length-without-le b tokens));
          };
        })
        (remove_token-tokens a b)
