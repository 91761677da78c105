-- ===== src/TipJar/Pauses/Gates.antt =====
-- What the pauses do to the calls that they gate, and what a guardian's second pause does.
use stellar_tipjar_contracts.Common.{
  ℕ, ◌+◌, ◌≤◌, ◌<◌, ◌^◌, ◌≡◌, ◌∙◌, true, false, Option, some, nat_beq, if◌then◌else◌, arith,
}
use stellar_tipjar_contracts.Common.Int.{ℤ, add_u32-eq}
use stellar_tipjar_contracts.Soroban.{
  Address, Env, After, After-map, After-both, require_auth, err, panic, ◌>>=◌, ◌>>◌,
}
use stellar_tipjar_contracts.TipJar.Types.{tips_paused, withdrawals_paused}
use stellar_tipjar_contracts.TipJar.State.{State, Call}
use stellar_tipjar_contracts.TipJar.Internal.{
  pause_state, is_paused, check_not_paused, guardian_pause_duration,
}
use stellar_tipjar_contracts.TipJar.Tips.{tip}
use stellar_tipjar_contracts.TipJar.Withdrawals.{withdraw}
use stellar_tipjar_contracts.TipJar.Breaker.{pause_all, pause_tips}
use stellar_tipjar_contracts.TipJar.Pauses.Bits.{has, IsFlagged}
use stellar_tipjar_contracts.TipJar.Pauses.Calls.{
  is_paused-blocks, pause_internal-is_paused, pause_internal-is_paused_until,
}

module _ {B : Type 0} (env : Env) (k : Call B) (t : State) where
  signed_then : (who : Address) → env.authorized who ≡ true → (require_auth env who >> k) t ≡ k t
  unfolding ◌>>=◌ ◌>>◌
  signed_then who h = ground arith

  paused_then :
      (flag : ℕ)
      → is_paused env flag t ≡ true
      → (check_not_paused env flag >> k) t
        ≡ err (panic (if nat_beq flag 1 then tips_paused else withdrawals_paused))
  unfolding check_not_paused ◌>>=◌ ◌>>◌
  paused_then flag h = ground arith

module _ (later : Env) (who creator token to : Address) (amount : ℤ) (o : Option ℤ) (t : State)
    (signed : later.authorized who ≡ true) where
  tip-tips_paused :
      is_paused later 1 t ≡ true → tip later who creator token amount t ≡ err (panic tips_paused)
  unfolding tip
  tip-tips_paused h = signed_then later _ t who signed ∙ paused_then later _ t 1 h

  withdraw-withdrawals_paused :
      is_paused later 2 t ≡ true
      → withdraw later who creator token to o t ≡ err (panic withdrawals_paused)
  unfolding withdraw
  withdraw-withdrawals_paused h = signed_then later _ t who signed ∙ paused_then later _ t 2 h

-- If the admin's pause of everything returns, a tip and a withdrawal that their caller signs fail at
-- every ledger, as paused; for pause words with no bits but the two.
pub pause_all-refuses :
    (env later : Env) (admin who creator token to : Address) (amount : ℤ) (o : Option ℤ) (s : State)
    → IsFlagged (pause_state s)
    → s.admin ≡ some admin
    → later.authorized who ≡ true
    → After
        (λ t.
          (tip later who creator token amount t ≡ err (panic tips_paused))
          × (withdraw later who creator token to o t ≡ err (panic withdrawals_paused)))
        (pause_all env admin s)
unfolding pause_all
pause_all-refuses env later admin who creator token to amount o s h e signed =
    After-map _
      (λ t (k, l). (
        tip-tips_paused later who creator token to amount o t signed k,
        withdraw-withdrawals_paused later who creator token to amount o t signed l,
      ))
      (After-both _ (pause_internal-is_paused env later admin 1 3 s (omega arith) (omega arith) h e)
        (pause_internal-is_paused env later admin 2 3 s (omega arith) (omega arith) h e))

-- Where the guardian's pause of withdrawals has lapsed, withdrawals are not paused, but if the
-- guardian's pause of tips then returns, they are paused at that ledger; the guardian is not the
-- admin, the admin has not paused withdrawals, the pause lasts some ledgers and does not overflow.
pause_tips-revives :
    (env : Env) (guardian admin : Address) (s : State)
    → IsFlagged (pause_state s)
    → s.admin ≡ some admin
    → nat_beq guardian admin ≡ false
    → has 2 (pause_state s).admin_flags ≡ false
    → has 2 (pause_state s).guardian_flags ≡ true
    → (pause_state s).guardian_expiry ≤ env.sequence
    → 0 < guardian_pause_duration s
    → env.sequence + guardian_pause_duration s < 2 ^ 32
    → (is_paused env 2 s ≡ false)
      × After (λ t. is_paused env 2 t ≡ true) (pause_tips env guardian s)
unfolding pause_tips
pause_tips-revives env guardian admin s h e other free set past some_time word = (
  is_paused-blocks env 2 s (omega arith) h ∙ ground (arith, free, past),
  After-map _
      (λ t k.
        k ∙ ground (arith, free, set, add_u32-eq env.sequence (guardian_pause_duration s) word))
      (pause_internal-is_paused_until env env guardian 2 1 s (omega arith) (omega arith) h admin e
        other),
)
