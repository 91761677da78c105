-- ===== src/Lending/Tests.antt =====
-- Runs of lending: pool 1 lends token 5, and every transfer goes through.
use stellar_tipjar_contracts.Common.{nat_eq, ◌≡◌, refl, true, some, [], ◌∷◌, arith}
use stellar_tipjar_contracts.Common.Int.{pos, add_u64}
use stellar_tipjar_contracts.Common.Map.{get}
use stellar_tipjar_contracts.Soroban.{Env, After, err, panic}
use stellar_tipjar_contracts.Lending.{Pool, Loan, Lendings, active, cannot_liquidate}
use stellar_tipjar_contracts.Lending.Loans.{borrow, liquidate}
use stellar_tipjar_contracts.Lending.Laws.{borrow-liquidate}

abbrev env : Env
env = record {
  sequence = 1;
  timestamp = 9;
  authorized = λ who. true;
  this = 0;
  accepts = λ t. true;
}

abbrev pool : Pool
pool = record {
  id = 1;
  token = 5;
  total_liquidity = pos 900;
  total_borrowed = pos 100;
  accumulated_interest = pos 0;
}

abbrev loan : Loan
loan = record {
  id = 1;
  pool_id = 1;
  borrower = 3;
  amount = pos 100;
  collateral = pos 150;
  interest_accrued = pos 0;
  borrow_timestamp = 9;
  status = active;
}

abbrev lendings : Lendings
lendings = record {
  pool_counter = some 1;
  pools = (1, pool) ∷ [];
  deposits = [];
  loans = (1, loan) ∷ [];
  loan_counter = some 1;
  borrower_loans = (3, 1 ∷ []) ∷ [];
  log = [];
}

loan_stored : get 1 lendings.loans ≡ some loan
unfolding get
loan_stored = refl

pool_stored : get 1 lendings.pools ≡ some pool
unfolding get
pool_stored = refl

borrow-liquidate_example :
    After
      (λ t. liquidate env 2 t ≡ err (panic cannot_liquidate))
      (borrow env 1 4 (pos 200) (pos 300) lendings)
unfolding add_u64
borrow-liquidate_example = borrow-liquidate env env 1 4 200 (pos 300) lendings (omega arith)
