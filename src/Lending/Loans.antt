-- ===== src/Lending/Loans.antt =====
-- Borrowing, repaying and liquidating: contracts/tipjar-legacy/src/lending/loan.rs.
use stellar_tipjar_contracts.Common.{
  nat_eq, ℕ, Bool, true, false, not, ◌||◌, some, List, [], ◌∷◌, ◌++◌, get_or, if◌then◌else◌,
}
use stellar_tipjar_contracts.Common.Int.{
  ℤ, pos, leb_ℤ, ltb_ℤ, add_u64, add_i128, mul_i128, sub_i128, quot,
}
use stellar_tipjar_contracts.Common.Map.{get, set}
use stellar_tipjar_contracts.Soroban.{
  Address, Env, pure, gets, or_raise, raise_if, modify, ◌>>=◌, ◌>>◌,
}
use stellar_tipjar_contracts.Lending.{
  PoolId, LoanStatus, active, repaid, liquidated, Pool, Loan, Call, invalid_amount,
  insufficient_balance, insufficient_collateral, loan_not_active, cannot_liquidate, transfer,
  elapsed, calculate_rate, calculate_interest, is_liquidatable, get_pool,
}

abbrev pub collateral_ratio : ℤ
collateral_ratio = pos 150

abbrev pub liquidation_bonus : ℤ
liquidation_bonus = pos 110

abbrev pub is_active : LoanStatus → Bool
is_active active = true
is_active repaid = false
is_active liquidated = false

abbrev pub get_loan : ℕ → Call Loan
get_loan loan_id s = or_raise (get loan_id s.loans) invalid_amount s

unfoldable pub borrow : Env → PoolId → Address → ℤ → ℤ → Call ℕ
unfolding ◌>>=◌ ◌>>◌
borrow env pool_id borrower amount collateral = do
  raise_if (leb_ℤ amount (pos 0) || leb_ℤ collateral (pos 0)) invalid_amount
  pool ← get_pool pool_id
  raise_if (ltb_ℤ collateral (quot (mul_i128 amount collateral_ratio) (pos 100)))
      insufficient_collateral
  raise_if (ltb_ℤ pool.total_liquidity amount) insufficient_balance
  loan_counter ← gets (λ s. get_or 0 s.loan_counter)
  let loan_id : ℕ = add_u64 loan_counter 1
  transfer env
      (record { asset = pool.token; sender = borrower; recipient = env.this; amount = collateral })
  transfer env
      (record { asset = pool.token; sender = env.this; recipient = borrower; amount = amount })
  let loan : Loan = record {
    id = loan_id;
    pool_id = pool_id;
    borrower = borrower;
    amount = amount;
    collateral = collateral;
    interest_accrued = pos 0;
    borrow_timestamp = env.timestamp;
    status = active;
  }
  modify (λ s. record s { loans = set loan_id loan s.loans })
  modify (λ s. record s { loan_counter = some loan_id })
  borrower_loans ← gets (λ s. get_or [] (get borrower s.borrower_loans))
  modify (λ s. record s {
    borrower_loans = set borrower (borrower_loans ++ loan_id ∷ []) s.borrower_loans;
  })
  let new_pool : Pool = record pool {
    total_liquidity = sub_i128 pool.total_liquidity amount;
    total_borrowed = add_i128 pool.total_borrowed amount;
  }
  modify (λ s. record s { pools = set pool_id new_pool s.pools })
  pure loan_id

unfoldable pub repay : Env → ℕ → ℤ → Call (Unit {0})
unfolding ◌>>=◌ ◌>>◌
repay env loan_id amount = do
  raise_if (leb_ℤ amount (pos 0)) invalid_amount
  loan ← get_loan loan_id
  raise_if (not (is_active loan.status)) loan_not_active
  pool ← get_pool loan.pool_id
  current_rate ← calculate_rate pool.total_borrowed pool.total_liquidity
  let interest_accrued : ℤ =
      calculate_interest loan.amount current_rate (elapsed env.timestamp loan.borrow_timestamp)
  let total_owed : ℤ = add_i128 loan.amount interest_accrued
  raise_if (ltb_ℤ amount total_owed) insufficient_balance
  transfer env (record {
    asset = pool.token;
    sender = env.this;
    recipient = loan.borrower;
    amount = loan.collateral;
  })
  let overpayment : ℤ = sub_i128 amount total_owed
  (if ltb_ℤ (pos 0) overpayment
      then transfer env (record {
        asset = pool.token;
        sender = env.this;
        recipient = loan.borrower;
        amount = overpayment;
      })
      else pure tt)
  let new_loan : Loan = record loan { status = repaid; interest_accrued = interest_accrued }
  let new_pool : Pool = record pool {
    total_borrowed = sub_i128 pool.total_borrowed loan.amount;
    total_liquidity = add_i128 pool.total_liquidity amount;
    accumulated_interest = add_i128 pool.accumulated_interest interest_accrued;
  }
  modify (λ s. record s { loans = set loan_id new_loan s.loans })
  modify (λ s. record s { pools = set loan.pool_id new_pool s.pools })

unfoldable pub liquidate : Env → ℕ → Call (Unit {0})
unfolding ◌>>=◌ ◌>>◌
liquidate env loan_id = do
  loan ← get_loan loan_id
  raise_if (not (is_active loan.status)) loan_not_active
  raise_if (not (is_liquidatable loan.amount loan.collateral)) cannot_liquidate
  pool ← get_pool loan.pool_id
  let threshold : ℤ = quot (mul_i128 loan.amount liquidation_bonus) (pos 100)
  (if ltb_ℤ threshold loan.collateral
      then transfer env (record {
        asset = pool.token;
        sender = env.this;
        recipient = loan.borrower;
        amount = sub_i128 loan.collateral threshold;
      })
      else pure tt)
  let new_pool : Pool = record pool {
    total_borrowed = sub_i128 pool.total_borrowed loan.amount;
    total_liquidity = add_i128 pool.total_liquidity threshold;
  }
  modify (λ s. record s { loans = set loan_id (record loan { status = liquidated }) s.loans })
  modify (λ s. record s { pools = set loan.pool_id new_pool s.pools })

unfoldable pub get_borrower_loans : Address → Call (List ℕ)
get_borrower_loans borrower = gets (λ s. get_or [] (get borrower s.borrower_loans))
