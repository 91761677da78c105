-- ===== src/TipJar/Pauses/Calls.antt =====
-- What `pause_internal` and `unpause_internal` make of the features' state, and what a pause stops.
use stellar_tipjar_contracts.Common.{
  ℕ, ◌<◌, ◌≡◌, ◌∙◌, sym, ap, Bool, false, not, ◌&&◌, ◌||◌, some, ltb, nat_beq, arith,
}
use stellar_tipjar_contracts.Common.Int.{add_u32}
use stellar_tipjar_contracts.Soroban.{Address, Env, After, After-map}
use stellar_tipjar_contracts.TipJar.Types.{PauseState}
use stellar_tipjar_contracts.TipJar.State.{State}
use stellar_tipjar_contracts.TipJar.Internal.{pause_state, is_paused, guardian_pause_duration}
use stellar_tipjar_contracts.TipJar.Breaker.{
  admin_pause, guardian_pause, admin_unpause, pause_internal, unpause_internal,
}
use stellar_tipjar_contracts.TipJar.Pauses.Bits.{
  has, has-bit_or, has-bit_and, words-lt, IsFlagged, has-effective_pause_flags,
}

-- What a pause state blocks at a ledger.
abbrev pub blocks : Env → ℕ → PauseState → Bool
blocks env f p =
    has f p.admin_flags || (ltb env.sequence p.guardian_expiry && has f p.guardian_flags)

module _ (later : Env) (f flag : ℕ) (l : f < 3) (n : flag < 4) (p : PauseState)
    (h : IsFlagged p) where
  admin_pause-blocks : blocks later f (admin_pause flag p) ≡ (has f flag || blocks later f p)
  unfolding admin_pause
  admin_pause-blocks = ground (
    arith,
    has-bit_or f p.admin_flags flag l h.admin_word n,
    has-bit_and f p.guardian_flags flag l h.guardian_word n,
  )

  guardian_pause-blocks :
      (expiry : ℕ)
      → blocks later f (guardian_pause flag expiry p) ≡ (
          has f p.admin_flags
          || (ltb later.sequence expiry && (has f p.guardian_flags || has f flag)))
  unfolding guardian_pause
  guardian_pause-blocks expiry =
      ground (arith, has-bit_or f p.guardian_flags flag l h.guardian_word n)

  admin_unpause-blocks :
      blocks later f (admin_unpause flag p) ≡ (blocks later f p && not (has f flag))
  unfolding admin_unpause
  admin_unpause-blocks = ground (
    arith,
    has-bit_and f p.admin_flags flag l h.admin_word n,
    has-bit_and f p.guardian_flags flag l h.guardian_word n,
  )

module _ (flag : ℕ) (n : flag < 4) (p : PauseState) (h : IsFlagged p) where
  pub admin_pause-IsFlagged : IsFlagged (admin_pause flag p)
  unfolding admin_pause
  admin_pause-IsFlagged = ground (
    arith,
    words-lt p.admin_flags flag h.admin_word n,
    words-lt p.guardian_flags flag h.guardian_word n,
  )

  pub guardian_pause-IsFlagged : (expiry : ℕ) → IsFlagged (guardian_pause flag expiry p)
  unfolding guardian_pause
  guardian_pause-IsFlagged expiry =
      ground (arith, words-lt p.guardian_flags flag h.guardian_word n, h.admin_word)

  pub admin_unpause-IsFlagged : IsFlagged (admin_unpause flag p)
  unfolding admin_unpause
  admin_unpause-IsFlagged = ground (
    arith,
    words-lt p.admin_flags flag h.admin_word n,
    words-lt p.guardian_flags flag h.guardian_word n,
  )

pub is_paused-blocks :
    (env : Env) (f : ℕ) (s : State)
    → f < 3
    → IsFlagged (pause_state s)
    → is_paused env f s ≡ blocks env f (pause_state s)
unfolding is_paused
is_paused-blocks env f s l h = has-effective_pause_flags env f (pause_state s) l h

module _ (env later : Env) (caller : Address) (f flag : ℕ) (s : State) (l : f < 3) (n : flag < 4)
    (h : IsFlagged (pause_state s)) where
  to_blocks :
      (t : State) (p : PauseState)
      → t.pause ≡ some p
      → IsFlagged p
      → is_paused later f t ≡ blocks later f p
  to_blocks t p e k =
      let eq : pause_state t ≡ p = ground (arith, e) in
      is_paused-blocks later f t l (rw eq k) ∙ ap (blocks later f) eq

  pause_internal-pause :
      s.admin ≡ some caller
      → After
          (λ t. t.pause ≡ some (admin_pause flag (pause_state s)))
          (pause_internal env caller flag s)
  unfolding pause_internal
  pause_internal-pause e = ground arith

  pause_internal-guardian :
      nat_beq caller (elim s.admin [ some a ↦ a | _ ↦ caller ]) ≡ false
      → After
          (λ t.
            (t.pause
              ≡ some (
                  guardian_pause flag
                    (add_u32 env.sequence (guardian_pause_duration s))
                    (pause_state s)))
            × (s.guardian ≡ some caller))
          (pause_internal env caller flag s)
  unfolding pause_internal
  pause_internal-guardian e = ground arith

  unpause_internal-pause :
      After
        (λ t. t.pause ≡ some (admin_unpause flag (pause_state s)))
        (unpause_internal env caller flag s)
  unfolding unpause_internal
  unpause_internal-pause = ground arith

  -- If the admin's pause of `flag` returns, a feature is paused at any later ledger just where the flag
  -- has its bit or it was paused there before; for pause words with no bits but the two.
  pub pause_internal-is_paused :
      s.admin ≡ some caller
      → After
          (λ t. is_paused later f t ≡ (has f flag || is_paused later f s))
          (pause_internal env caller flag s)
  pause_internal-is_paused e =
      After-map _
        (λ t k.
          to_blocks t _ k (admin_pause-IsFlagged flag n (pause_state s) h)
          ∙ admin_pause-blocks later f flag l n (pause_state s) h
          ∙ ap (λ b. has f flag || b) (sym (is_paused-blocks later f s l h)))
        (pause_internal-pause e)

  -- If an unpause of `flag` returns, a feature is paused at any later ledger just where it was paused
  -- there before and the flag has not its bit; for pause words with no bits but the two.
  pub unpause_internal-is_paused :
      After
        (λ t. is_paused later f t ≡ (is_paused later f s && not (has f flag)))
        (unpause_internal env caller flag s)
  unpause_internal-is_paused =
      After-map _
        (λ t k.
          to_blocks t _ k (admin_unpause-IsFlagged flag n (pause_state s) h)
          ∙ admin_unpause-blocks later f flag l n (pause_state s) h
          ∙ ap (λ b. b && not (has f flag)) (sym (is_paused-blocks later f s l h)))
        unpause_internal-pause

  -- If the pause of `flag` by another caller than the admin returns, a feature is paused at any later
  -- ledger just where the admin's word has its bit, or the ledger is before the new expiry and the
  -- guardian's old word or the flag has it; for pause words with no bits but the two.
  pub pause_internal-is_paused_until :
      (admin : Address)
      → s.admin ≡ some admin
      → nat_beq caller admin ≡ false
      → After
          (λ t. is_paused later f t ≡ (
            has f (pause_state s).admin_flags
            || (ltb later.sequence (add_u32 env.sequence (guardian_pause_duration s))
                && (has f (pause_state s).guardian_flags || has f flag))))
          (pause_internal env caller flag s)
  pause_internal-is_paused_until admin e other =
      After-map _
        (λ t k.
          to_blocks t _ k.0 (guardian_pause-IsFlagged flag n (pause_state s) h _)
          ∙ guardian_pause-blocks later f flag l n (pause_state s) h _)
        (pause_internal-guardian (rw e other))
