-- ===== src/TipJar/Pauses/Tests.antt =====
-- Pauses at concrete inputs: the admin is 1, the guardian 9, and everyone has signed.
use stellar_tipjar_contracts.Common.{
  ℕ, ◌≡◌, refl, true, not, none, some, List, [], ◌∷◌, ltb, ◌||◌, ◌&&◌, arith,
}
use stellar_tipjar_contracts.Common.Int.{pos, add_u32}
use stellar_tipjar_contracts.Soroban.{Env, After, err, panic}
use stellar_tipjar_contracts.TipJar.Types.{tips_paused, withdrawals_paused}
use stellar_tipjar_contracts.TipJar.State.{State, deployed}
use stellar_tipjar_contracts.TipJar.Internal.{pause_state, is_paused, guardian_pause_duration}
use stellar_tipjar_contracts.TipJar.Tips.{tip}
use stellar_tipjar_contracts.TipJar.Withdrawals.{withdraw}
use stellar_tipjar_contracts.TipJar.Breaker.{pause_internal, unpause_internal, pause_all}
use stellar_tipjar_contracts.TipJar.Calls.{Op, init, set_guardian, run}
use stellar_tipjar_contracts.TipJar.Calls
use stellar_tipjar_contracts.TipJar.Pauses.Bits.{has, IsFlagged}
use stellar_tipjar_contracts.TipJar.Pauses.Calls.{
  pause_internal-is_paused, unpause_internal-is_paused, pause_internal-is_paused_until,
}
use stellar_tipjar_contracts.TipJar.Pauses.Gates.{pause_all-refuses}
use stellar_tipjar_contracts.TipJar.Access.Calls.{run-IsFlagged}

abbrev at_ledger : ℕ → Env
at_ledger n = record {
  sequence = n;
  timestamp = 0;
  authorized = λ who. true;
  this = 0;
  accepts = λ t. true;
}

abbrev guarded : State
guarded = record deployed {
  token = some 5;
  allowed_tokens = some (5 ∷ []);
  admin = some 1;
  guardian = some 9;
  pause = some (record { admin_flags = 0; guardian_flags = 2; guardian_expiry = 50; notes = none });
}

guarded-IsFlagged : IsFlagged (pause_state guarded)
guarded-IsFlagged = record { admin_word = omega arith; guardian_word = omega arith }

abbrev calls : List (Env × Op)
calls =
    (at_ledger 1, init 5 1 100)
    ∷ (at_ledger 2, set_guardian 1 9)
    ∷ (at_ledger 3, Calls.pause_tips 9)
    ∷ (at_ledger 4, Calls.pause_all 1)
    ∷ (at_ledger 5, Calls.unpause_tips 1)
    ∷ []

run-IsFlagged_example : IsFlagged (pause_state (run calls guarded))
run-IsFlagged_example = run-IsFlagged calls guarded guarded-IsFlagged

pause_internal-is_paused_example :
    After
      (λ t. is_paused (at_ledger 60) 2 t ≡ (has 2 3 || is_paused (at_ledger 60) 2 guarded))
      (pause_internal (at_ledger 9) 1 3 guarded)
pause_internal-is_paused_example =
    pause_internal-is_paused (at_ledger 9) (at_ledger 60) 1 2 3 guarded (omega arith) (omega arith)
      guarded-IsFlagged refl

unpause_internal-is_paused_example :
    After
      (λ t. is_paused (at_ledger 10) 2 t ≡ (is_paused (at_ledger 10) 2 guarded && not (has 2 2)))
      (unpause_internal (at_ledger 9) 1 2 guarded)
unpause_internal-is_paused_example =
    unpause_internal-is_paused (at_ledger 9) (at_ledger 10) 1 2 2 guarded (omega arith)
      (omega arith) guarded-IsFlagged

pause_internal-is_paused_until_example :
    After
      (λ t. is_paused (at_ledger 60) 1 t ≡ (
        has 1 (pause_state guarded).admin_flags
        || (ltb 60 (add_u32 9 (guardian_pause_duration guarded))
            && (has 1 (pause_state guarded).guardian_flags || has 1 1))))
      (pause_internal (at_ledger 9) 9 1 guarded)
pause_internal-is_paused_until_example =
    pause_internal-is_paused_until (at_ledger 9) (at_ledger 60) 9 1 1 guarded (omega arith)
      (omega arith) guarded-IsFlagged 1 refl refl

pause_all-refuses_example :
    After
      (λ t.
        (tip (at_ledger 60) 2 3 5 (pos 1000) t ≡ err (panic tips_paused))
        × (withdraw (at_ledger 60) 2 3 5 3 none t ≡ err (panic withdrawals_paused)))
      (pause_all (at_ledger 9) 1 guarded)
pause_all-refuses_example =
    pause_all-refuses (at_ledger 9) (at_ledger 60) 1 2 3 5 3 (pos 1000) none guarded
      guarded-IsFlagged refl refl
