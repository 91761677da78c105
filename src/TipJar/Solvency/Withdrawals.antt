-- ===== src/TipJar/Solvency/Withdrawals.antt =====
-- Solvency across `withdraw`.
use stellar_tipjar_contracts.Common.{
  nat_eq, pair_eq, ℕ, ◌≡◌, Bool, not, sym, refl, ap, Option, none, some, get_or, nat_beq, arith,
  if◌then◌else◌,
}
use stellar_tipjar_contracts.Common.Int.{ℤ, pos, ◌-ℤ◌, int_laws, sub_i128}
use stellar_tipjar_contracts.Common.Map.{Map, get}
use stellar_tipjar_contracts.Soroban.{
  Address, Env, After, ◌>>=◌, ◌>>◌, pure, After-gets, After-then, After-modify, After-raise_if,
  After-auth,
}
use stellar_tipjar_contracts.TipJar.State.{State, bump}
use stellar_tipjar_contracts.TipJar.Types.{DataKey}
use stellar_tipjar_contracts.TipJar.Internal.{maybe_migrate_creator_data}
use stellar_tipjar_contracts.TipJar.Withdrawals.{
  lower_allowance, use_operator, apply_payout_change, withdraw,
}
use stellar_tipjar_contracts.TipJar.Guards.{After-not_paused, After-initialized, After-transfer}
use stellar_tipjar_contracts.TipJar.Books.{HasSpare-weaken, IsSolvent, counted}
use stellar_tipjar_contracts.TipJar.Solvency.Migration.{maybe_migrate_creator_data-HasSpare}
use stellar_tipjar_contracts.TipJar.Solvency.Debits.{payment-HasSpare, debit-HasSpare, amount_tests}

-- The steps of `withdraw` that touch no balance.
module _ (this token : Address) (env : Env) (b : Map (Address × Address) ℤ) where
  -- Solvent, with these balances.
  abbrev IsSteady : State → Type 0
  IsSteady t = IsSolvent this token t × (t.balance ≡ b)

  lower_allowance-IsSteady :
      (creator caller : Address) (left : ℤ) (expiry : ℕ) (t : State)
      → IsSteady t
      → IsSteady (lower_allowance creator caller left expiry t)
  unfolding lower_allowance
  lower_allowance-IsSteady creator caller left expiry t h = ground arith

  use_operator-IsSteady :
      (creator caller : Address) (amount : ℤ) (o : Option (ℤ × ℕ)) (t : State)
      → IsSteady t
      → After IsSteady (use_operator env creator caller amount o t)
  unfolding use_operator ◌>>=◌ ◌>>◌
  use_operator-IsSteady creator caller amount none t h = record { holds = tt }
  use_operator-IsSteady creator caller amount (some (a, x)) t h =
      ground (arith, lower_allowance-IsSteady creator caller (sub_i128 a amount) x t h)

  check_operator-IsSteady :
      (creator caller : Address) (amount : ℤ) (o : Option (ℤ × ℕ)) (t : State)
      → IsSteady t
      → After IsSteady (
          (if not (nat_beq caller creator)
              then use_operator env creator caller amount o
              else pure tt)
            t)
  check_operator-IsSteady creator caller amount o t h =
      ground (arith, use_operator-IsSteady creator caller amount o t h)

  apply_payout_change-IsSteady :
      (creator : Address) (o : Option (Address × ℕ)) (t : State)
      → IsSteady t
      → IsSteady (apply_payout_change env creator o t)
  unfolding apply_payout_change
  apply_payout_change-IsSteady creator none t h = h
  apply_payout_change-IsSteady creator (some (p, l)) t h = ground arith

  bump_if-IsSteady :
      (c : Bool) (k : DataKey) (t : State)
      → IsSteady t
      → After IsSteady ((if c then bump k else pure tt) t)
  bump_if-IsSteady c k t h = ground arith

module _ (token : Address) (env : Env) (caller creator asset to : Address) (amount : Option ℤ)
    (s : State) (h : IsSolvent env.this token s) where
  -- A withdrawal keeps the jar solvent.
  pub withdraw-IsSolvent :
      After (IsSolvent env.this token) (withdraw env caller creator asset to amount s)
  unfolding withdraw
  withdraw-IsSolvent = After-auth _ env caller λ auth. After-not_paused _ env _ λ running.
      After-initialized _ λ live. After-modify _ _ (
        After-gets _ _ (
          let m = maybe_migrate_creator_data-HasSpare env.this token (pos 0) creator asset s h in
          let b : Map (Address × Address) ℤ =
            (maybe_migrate_creator_data creator asset s).balance in
          let now : ℤ = get_or (pos 0) (get (creator, asset) b) in
          let paid : ℤ = get_or now amount in
          After-raise_if _ _ _ λ some_left. After-raise_if _ _ _ λ tests.
            let (n, w) = amount_tests paid now tests in
            After-gets _ _ (
              After-then _ (IsSteady env.this token env b) _
                (check_operator-IsSteady env.this token env b creator caller paid _ _ (m, refl))
                λ t1 h1. After-gets _ _ (
                  After-modify _ _ (
                    After-gets _ _ (
                      After-then _ (IsSteady env.this token env b) _
                        (bump_if-IsSteady env.this token env b _ _ _
                          (apply_payout_change-IsSteady env.this token env b creator _ t1 h1))
                        λ t2 h2.
                          let payee : Address = get_or creator (
                            get creator
                              (apply_payout_change env creator
                                (get creator t1.pending_payout_change) t1).payout_address) in
                          After-raise_if _ _ _ λ target. After-transfer _ env _ λ accepted.
                            After-modify _ _ (
                              let d =
                                debit-HasSpare env.this token asset
                                  (pos 0 -ℤ counted token asset paid) paid _
                                  (payment-HasSpare env.this token asset payee paid t2 n h2.0) n
                                  creator now
                                  (ap
                                    (λ (x : Map (Address × Address) ℤ).
                                      get_or (pos 0) (get (creator, asset) x))
                                    (sym h2.1))
                                  w in
                              let z =
                                HasSpare-weaken env.this token _ (pos 0) _ (omega int_laws) d in
                              unfold ◌>>=◌ ◌>>◌ in ground (arith, z))))))))
