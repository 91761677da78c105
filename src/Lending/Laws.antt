-- ===== src/Lending/Laws.antt =====
-- What a loan leaves for its liquidation, and what a repayment moves.
use stellar_tipjar_contracts.Common.{
  nat_eq, pair_eq, ℕ, ◌*◌, ◌<◌, ◌^◌, ◌≡◌, refl, true, false, some, nat_beq, get_or, List, ◌∷◌,
  Bool-cases, inl, inr, subst, sym, ap, ◌∙◌, arith, if◌then◌else◌,
}
use stellar_tipjar_contracts.Common.Int.{
  ℤ, pos, ◌≤ℤ◌, ◌<ℤ◌, ◌+ℤ◌, ◌-ℤ◌, add_u64, add_i128, sub_i128, mul_i128, quot, ltb_ℤ, int_laws,
}
use stellar_tipjar_contracts.Common.Words.{mul_i128-pos}
use stellar_tipjar_contracts.Common.Map.{get, get-set}
use stellar_tipjar_contracts.Soroban.{
  Address, Env, Effect, Failure, Result, After, After-map, custody, moved, ok, err, panic, ◌>>=◌,
  ◌>>◌,
}
use stellar_tipjar_contracts.Lending.{
  PoolId, Pool, Loan, active, Lendings, LendingFailure, cannot_liquidate, is_liquidatable, elapsed,
  calculate_rate, calculate_interest,
}
use stellar_tipjar_contracts.Lending.Loans.{borrow, repay, liquidate}

module _ (env later : Env) (pool_id : PoolId) (borrower : Address) (n : ℕ) (collateral : ℤ)
    (s : Lendings) where
  abbrev new_id : ℕ
  new_id = add_u64 (get_or 0 s.loan_counter) 1

  abbrev new_loan : Loan
  new_loan = record {
    id = new_id;
    pool_id = pool_id;
    borrower = borrower;
    amount = pos n;
    collateral = collateral;
    interest_accrued = pos 0;
    borrow_timestamp = env.timestamp;
    status = active;
  }

  safe :
      n * 150 < 2 ^ 127
      → ltb_ℤ collateral (quot (mul_i128 (pos n) (pos 150)) (pos 100)) ≡ false
      → is_liquidatable (pos n) collateral ≡ false
  unfolding is_liquidatable quot
  safe word h = ground (arith, h, mul_i128-pos n 150 word, mul_i128-pos n 110 (omega (arith, word)))

  -- If a loan of a number whose product with 150 fits the word is made, liquidating it at once, at any
  -- time of the ledger, fails: it cannot be liquidated.
  pub borrow-liquidate :
      n * 150 < 2 ^ 127
      → After
          (λ t.
            liquidate later (add_u64 (get_or 0 s.loan_counter) 1) t ≡ err (panic cannot_liquidate))
          (borrow env pool_id borrower (pos n) collateral s)
  unfolding borrow liquidate ◌>>=◌ ◌>>◌
  borrow-liquidate word = ground (arith, safe word, get-set new_id new_id new_loan s.loans)

rate-keeps : (a b : ℤ) (s : Lendings) → After (λ t. t ≡ s) (calculate_rate a b s)
unfolding calculate_rate ◌>>=◌ ◌>>◌
rate-keeps a b s = ground arith

more_is : (e : ℤ) → ltb_ℤ (pos 0) e ≡ true → pos 0 <ℤ e
more_is e h = ground arith

module _ (env : Env) (loan_id : ℕ) (amount : ℤ) (s : Lendings) (loan : Loan) (pool : Pool)
    (stored : get loan_id s.loans ≡ some loan) (lends : get loan.pool_id s.pools ≡ some pool)
    (other : nat_beq loan.borrower env.this ≡ false) where
  abbrev paid_out : ℤ → Effect Unit Unit
  paid_out a =
      Effect.transferred
        (record { asset = pool.token; sender = env.this; recipient = loan.borrower; amount = a })

  abbrev paid_log : ℤ → List (Effect Unit Unit)
  paid_log e =
      if ltb_ℤ (pos 0) e
      then paid_out e ∷ paid_out loan.collateral ∷ s.log
      else paid_out loan.collateral ∷ s.log

  -- What is paid out beyond the collateral, at an interest rate.
  abbrev excess : ℕ → ℤ
  excess rate = sub_i128 amount (
      add_i128 loan.amount
        (calculate_interest loan.amount rate (elapsed env.timestamp loan.borrow_timestamp)))

  repay-log :
      (rate : ℕ)
      → calculate_rate pool.total_borrowed pool.total_liquidity s ≡ ok (rate, s)
      → After (λ t. t.log ≡ paid_log (excess rate)) (repay env loan_id amount s)
  unfolding repay ◌>>=◌ ◌>>◌
  repay-log rate e = ground arith

  repay-fails :
      {P : Lendings → Type 0} (e : Failure LendingFailure)
      → calculate_rate pool.total_borrowed pool.total_liquidity s ≡ err e
      → After P (repay env loan_id amount s)
  unfolding repay ◌>>=◌ ◌>>◌
  repay-fails e failed = ground arith

  moved_out :
      (a : ℤ)
      → moved pool.token env.this
          (record { asset = pool.token; sender = env.this; recipient = loan.borrower; amount = a })
        ≡ pos 0 -ℤ a
  moved_out a =
      let here : nat_beq env.this env.this ≡ true = ground arith in
      let same : nat_beq pool.token pool.token ≡ true = ground arith in rw (same, here, other) refl

  paid_log-custody :
      (e : ℤ)
      → custody pool.token env.this (paid_log e) +ℤ loan.collateral
        ≤ℤ custody pool.token env.this s.log
  paid_log-custody e = elim (Bool-cases (ltb_ℤ (pos 0) e)) [
    | inl more ↦
        rw (more, moved_out e, moved_out loan.collateral) (omega (int_laws, more_is e more))
    | inr exact ↦ rw (exact, moved_out loan.collateral) (omega int_laws)
  ]

  -- If the repayment of a stored loan returns, whose pool is stored and whose borrower is not the contract,
  -- the contract's holdings of the token have fallen by the collateral or more.
  repay-custody :
      After
        (λ t.
          custody pool.token env.this t.log +ℤ loan.collateral ≤ℤ custody pool.token env.this s.log)
        (repay env loan_id amount s)
  repay-custody = go _ refl (rate-keeps pool.total_borrowed pool.total_liquidity s)
    where
      go :
          (r : Result LendingFailure (ℕ × Lendings))
          → calculate_rate pool.total_borrowed pool.total_liquidity s ≡ r
          → After (λ t. t ≡ s) r
          → After
              (λ t.
                custody pool.token env.this t.log +ℤ loan.collateral
                ≤ℤ custody pool.token env.this s.log)
              (repay env loan_id amount s)
      go (err e) failed k = repay-fails e failed
      go (ok (rate, u)) done k =
          After-map _
            (λ t l.
              subst
                (λ (x : List (Effect Unit Unit)).
                  custody pool.token env.this x +ℤ loan.collateral
                  ≤ℤ custody pool.token env.this s.log)
                (sym l) (paid_log-custody (excess rate)))
            (repay-log rate (done ∙ ap (λ v. ok (rate, v)) k.holds))
