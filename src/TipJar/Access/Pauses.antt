-- ===== src/TipJar/Access/Pauses.antt =====
-- The calls that change the pause words, by their cause.
use stellar_tipjar_contracts.Common.{
  ◌<◌, ℕ, ◌≡◌, true, false, some, ap, ◌∙◌, nat_beq, inl, inr, Bool-cases, Option-cases, arith,
}
use stellar_tipjar_contracts.Common.Int.{add_u32}
use stellar_tipjar_contracts.Soroban.{Address, Env, After, After-map}
use stellar_tipjar_contracts.TipJar.Types.{PauseState}
use stellar_tipjar_contracts.TipJar.Internal.{pause_state, guardian_pause_duration}
use stellar_tipjar_contracts.TipJar.Pauses.Bits.{IsFlagged}
use stellar_tipjar_contracts.TipJar.Pauses.Calls.{
  admin_pause-IsFlagged, admin_unpause-IsFlagged, guardian_pause-IsFlagged,
}
use stellar_tipjar_contracts.TipJar.State.{State}
use stellar_tipjar_contracts.TipJar.Upgrade
use stellar_tipjar_contracts.TipJar.Breaker
use stellar_tipjar_contracts.TipJar.Settings.{installs}
use stellar_tipjar_contracts.TipJar.Access.{
  Setting, pause_words, version_and_pause, written, approves, ByAdmin, ByGuardian, Change, by_admin,
  by_guardian,
}

module _ (env : Env) (s : State) where
  -- What the admin's pause calls leave: the pause words, and the rest as it was.
  record IsAdminPause (setting : Setting) (admin_word guardian_word : ℕ) (t : State) : Type 0 where
    approved : approves env s.admin ≡ true
    frame : t ≡ written setting s t
    same_installs : installs t.log ≡ installs s.log
    same_tokens : t.allowed_tokens ≡ s.allowed_tokens
    now_admin_word : (pause_state t).admin_flags ≡ admin_word
    now_guardian_word : (pause_state t).guardian_flags ≡ guardian_word

  paused-ByAdmin :
      {setting : Setting} {a g : ℕ} (t : State)
      → IsAdminPause setting a g t
      → (IsFlagged (pause_state s) → (a < 4) × (g < 4))
      → ByAdmin env s setting t
  paused-ByAdmin t k words = record {
    approved = k.approved;
    frame = k.frame;
    same_installs = k.same_installs;
    still_listed = λ h. record {
      distinct = rw k.same_tokens h.distinct;
      bounded = rw k.same_tokens h.bounded;
    };
    still_flagged = λ h.
        let (x, y) = words h in
        record {
          admin_word = omega (arith, x, k.now_admin_word);
          guardian_word = omega (arith, y, k.now_guardian_word);
        };
  }

  migrate-words :
      (a : Address)
      → After
          (IsAdminPause version_and_pause
            ((pause_state s).admin_flags)
            ((pause_state s).guardian_flags))
          (Upgrade.migrate env a s)
  unfolding Upgrade.migrate Upgrade.migrate_pause
  migrate-words a = ground arith

  pub migrate-ByAdmin :
      (a : Address) → After (ByAdmin env s version_and_pause) (Upgrade.migrate env a s)
  migrate-ByAdmin a =
      After-map _ (λ t k. paused-ByAdmin t k (λ h. (h.admin_word, h.guardian_word)))
        (migrate-words a)

  unpause_internal-words :
      (a : Address) (n : ℕ)
      → let p : PauseState = Breaker.admin_unpause n (pause_state s) in
        After
          (IsAdminPause pause_words p.admin_flags p.guardian_flags)
          (Breaker.unpause_internal env a n s)
  unfolding Breaker.unpause_internal
  unpause_internal-words a n = ground arith

  pub unpause_internal-ByAdmin :
      (a : Address) (n : ℕ)
      → n < 4
      → After (ByAdmin env s pause_words) (Breaker.unpause_internal env a n s)
  unpause_internal-ByAdmin a n l =
      After-map _
        (λ t k. paused-ByAdmin t k (λ h.
          let k : IsFlagged (Breaker.admin_unpause n (pause_state s)) =
            admin_unpause-IsFlagged n l (pause_state s) h in
          (k.admin_word, k.guardian_word)))
        (unpause_internal-words a n)

  pause_internal-words :
      (a x : Address) (n : ℕ)
      → s.admin ≡ some x
      → nat_beq a x ≡ true
      → let p : PauseState = Breaker.admin_pause n (pause_state s) in
        After
          (IsAdminPause pause_words p.admin_flags p.guardian_flags)
          (Breaker.pause_internal env a n s)
  unfolding Breaker.pause_internal
  pause_internal-words a x n e h = ground arith

  pause_internal-guardian_words :
      (a x : Address) (n : ℕ)
      → s.admin ≡ some x
      → nat_beq a x ≡ false
      → approves env s.admin ≡ true
      → let p : PauseState =
          Breaker.guardian_pause n
            (add_u32 env.sequence (guardian_pause_duration s))
            (pause_state s) in
        After
          (IsAdminPause pause_words p.admin_flags p.guardian_flags)
          (Breaker.pause_internal env a n s)
  unfolding Breaker.pause_internal
  pause_internal-guardian_words a x n e h k = ground arith

  pause_internal-ByAdmin :
      (a : Address) (n : ℕ)
      → n < 4
      → approves env s.admin ≡ true
      → After (ByAdmin env s pause_words) (Breaker.pause_internal env a n s)
  pause_internal-ByAdmin a n l h = elim (Option-cases s.admin) [
    | inl e ↦ absurd (ground arith)
    | inr (x, e) ↦ elim (Bool-cases (nat_beq a x)) [
      | inl self ↦
          After-map _
            (λ t k. paused-ByAdmin t k (λ h.
              let k = admin_pause-IsFlagged n l (pause_state s) h in
              (k.admin_word, k.guardian_word)))
            (pause_internal-words a x n e self)
      | inr other ↦
          After-map _
            (λ t k. paused-ByAdmin t k (λ h.
              let k =
                guardian_pause-IsFlagged n l (pause_state s) h
                  (add_u32 env.sequence (guardian_pause_duration s)) in
              (k.admin_word, k.guardian_word)))
            (pause_internal-guardian_words a x n e other h)
    ]
  ]

  -- The same for a pause that the guardian alone has authorised.
  record IsGuardianPause (p : PauseState) (t : State) : Type 0 where
    approved : approves env s.guardian ≡ true
    frame : t ≡ written pause_words s t
    same_installs : installs t.log ≡ installs s.log
    now_pause : t.pause ≡ some p
    now_admin_flags : p.admin_flags ≡ (pause_state s).admin_flags

  pause_internal-IsGuardianPause :
      (a : Address) (n : ℕ)
      → approves env s.admin ≡ false
      → After
          (IsGuardianPause (
            Breaker.guardian_pause n
              (add_u32 env.sequence (guardian_pause_duration s))
              (pause_state s)))
          (Breaker.pause_internal env a n s)
  unfolding Breaker.pause_internal Breaker.guardian_pause
  pause_internal-IsGuardianPause a n h = ground arith

  pause_internal-ByGuardian :
      (a : Address) (n : ℕ)
      → n < 4
      → approves env s.admin ≡ false
      → After (ByGuardian env s) (Breaker.pause_internal env a n s)
  pause_internal-ByGuardian a n l h =
      After-map _
        (λ t k.
          let e : pause_state t
              ≡ Breaker.guardian_pause n (add_u32 env.sequence (guardian_pause_duration s))
                  (pause_state s) =
            ground (arith, k.now_pause) in
          record {
            approved = k.approved;
            frame = k.frame;
            still_flagged = λ f. rw e (
                guardian_pause-IsFlagged n l (pause_state s) f
                  (add_u32 env.sequence (guardian_pause_duration s)));
            same_admin_flags = ap (λ (p : PauseState). p.admin_flags) e ∙ k.now_admin_flags;
            same_installs = k.same_installs;
          })
        (pause_internal-IsGuardianPause a n h)

  pub pause_internal-Change :
      (a : Address) (n : ℕ) → n < 4 → After (Change env s) (Breaker.pause_internal env a n s)
  pause_internal-Change a n l = elim (Bool-cases (approves env s.admin)) [
    | inl h ↦ After-map _ (λ t k. by_admin pause_words k) (pause_internal-ByAdmin a n l h)
    | inr h ↦ After-map _ (λ t k. by_guardian k) (pause_internal-ByGuardian a n l h)
  ]
