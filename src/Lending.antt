-- ===== src/Lending.antt =====
-- Lending pools, contracts/tipjar-legacy/src/lending: mod.rs, interest.rs and pool.rs.
pub mod Loans
pub mod Laws
mod Tests
use stellar_tipjar_contracts.Common.{
  nat_eq, pair_eq, ℕ, ◌+◌, ◌-◌, ◌%◌, ◌^◌, Bool, true, false, ◌&&◌, Option, none, some, List, ◌∷◌,
  get_or, if◌then◌else◌,
}
use stellar_tipjar_contracts.Common.Int.{
  ℤ, pos, negsuc, leb_ℤ, ltb_ℤ, eqb_ℤ, add_u32, add_u64, add_i128, mul_i128, sub_i128, quot,
  checked_div,
}
use stellar_tipjar_contracts.Common.Map.{Map, get, set, remove}
use stellar_tipjar_contracts.Soroban.{
  Address, Effect, Env, M, Transfer, transfer_failed, ok, err, pure, gets, or_raise, or_trap,
  raise_if, modify, ◌>>=◌, ◌>>◌,
}

abbrev pub PoolId : Type 0
PoolId = ℕ

pub data LoanStatus : Type 0 where
  active repaid liquidated : LoanStatus

pub record Pool : Type 0 where
  pub id : PoolId
  pub token : Address
  pub total_liquidity : ℤ
  pub total_borrowed : ℤ
  pub accumulated_interest : ℤ

pub record Deposit : Type 0 where
  pub lender : Address
  pub pool_id : PoolId
  pub amount : ℤ
  pub interest_accrued : ℤ
  pub deposit_timestamp : ℕ

pub record Loan : Type 0 where
  pub id : ℕ
  pub pool_id : PoolId
  pub borrower : Address
  pub amount : ℤ
  pub collateral : ℤ
  pub interest_accrued : ℤ
  pub borrow_timestamp : ℕ
  pub status : LoanStatus

-- The errors of `TipJarError` that these calls return. A returned error ends the invocation, as a
-- panic does, and none is returned after a change.
pub data LendingFailure : Type 0 where
  invalid_amount insufficient_balance insufficient_collateral : LendingFailure
  nothing_to_withdraw loan_not_active cannot_liquidate : LendingFailure

-- One field for each variant of `LendingKey`, and the log.
pub record Lendings : Type 0 where
  pub pool_counter : Option ℕ
  pub pools : Map PoolId Pool
  pub deposits : Map (Address × PoolId) Deposit
  pub loans : Map ℕ Loan
  pub loan_counter : Option ℕ
  pub borrower_loans : Map Address (List ℕ)
  pub log : List (Effect Unit Unit)

abbrev pub Call : Type 0 → Type 0
Call A = M Lendings LendingFailure A

abbrev pub transfer : Env → Transfer → Call (Unit {0})
transfer env t s = elim (env.accepts t) [
  | true ↦ ok (tt, record s { log = Effect.transferred t ∷ s.log })
  | false ↦ err transfer_failed
]

-- `PRECISION` of interest.rs
abbrev pub interest_precision : ℤ
interest_precision = pos 1_000_000_000_000_000_000

-- `as u32`: the low bits of the two's complement.
unfoldable pub as_u32 : ℤ → ℕ
as_u32 (pos n) = n % 2 ^ 32
as_u32 (negsuc n) = 2 ^ 32 - 1 - n % 2 ^ 32

-- `-` on `u64`, which wraps.
unfoldable pub elapsed : ℕ → ℕ → ℕ
elapsed now since = (now + (2 ^ 64 - since)) % 2 ^ 64

unfoldable pub calculate_rate : ℤ → ℤ → Call ℕ
unfolding ◌>>=◌ ◌>>◌
calculate_rate total_borrowed total_liquidity =
    if eqb_ℤ total_borrowed (pos 0) && eqb_ℤ total_liquidity (pos 0) then pure 5_000 else do
      utilization ← or_trap (
          checked_div (mul_i128 total_borrowed interest_precision)
            (add_i128 total_borrowed total_liquidity))
      let variable_rate : ℤ = quot (mul_i128 utilization (pos 45_000)) interest_precision
      pure (add_u32 5_000 (as_u32 variable_rate))

unfoldable pub calculate_interest : ℤ → ℕ → ℕ → ℤ
calculate_interest principal rate seconds =
    let interest : ℤ =
      quot (mul_i128 (mul_i128 principal (pos rate)) (pos seconds)) (pos 315_360_000_000) in
    if ltb_ℤ interest (pos 0) then pos 0 else interest

unfoldable pub is_liquidatable : ℤ → ℤ → Bool
is_liquidatable loan_amount collateral =
    ltb_ℤ collateral (quot (mul_i128 loan_amount (pos 110)) (pos 100))

unfoldable pub create_pool : Address → Call PoolId
unfolding ◌>>=◌ ◌>>◌
create_pool token = do
  counter ← gets (λ s. get_or 0 s.pool_counter)
  let pool_id : PoolId = add_u64 counter 1
  let pool : Pool = record {
    id = pool_id;
    token = token;
    total_liquidity = pos 0;
    total_borrowed = pos 0;
    accumulated_interest = pos 0;
  }
  modify (λ s. record s { pools = set pool_id pool s.pools })
  modify (λ s. record s { pool_counter = some pool_id })
  pure pool_id

abbrev pub get_pool : PoolId → Call Pool
get_pool pool_id s = or_raise (get pool_id s.pools) invalid_amount s

unfoldable pub set_pool : Pool → Lendings → Lendings
set_pool pool s = record s { pools = set pool.id pool s.pools }

unfoldable pub get_or_create_deposit : Env → Address → PoolId → Lendings → Deposit
get_or_create_deposit env lender pool_id s =
    let fresh : Deposit = record {
      lender = lender;
      pool_id = pool_id;
      amount = pos 0;
      interest_accrued = pos 0;
      deposit_timestamp = env.timestamp;
    } in
    get_or fresh (get (lender, pool_id) s.deposits)

abbrev pub get_deposit : Address → PoolId → Call Deposit
get_deposit lender pool_id s = or_raise (get (lender, pool_id) s.deposits) nothing_to_withdraw s

unfoldable pub deposit : Env → PoolId → Address → ℤ → Call (Unit {0})
unfolding ◌>>=◌ ◌>>◌
deposit env pool_id lender amount = do
  raise_if (leb_ℤ amount (pos 0)) invalid_amount
  pool ← get_pool pool_id
  entry ← gets (get_or_create_deposit env lender pool_id)
  transfer env
      (record { asset = pool.token; sender = lender; recipient = env.this; amount = amount })
  let new_entry : Deposit = record entry {
    amount = add_i128 entry.amount amount;
    deposit_timestamp = env.timestamp;
  }
  modify (set_pool (record pool { total_liquidity = add_i128 pool.total_liquidity amount }))
  modify (λ s. record s { deposits = set (lender, pool_id) new_entry s.deposits })

-- The entry that a withdrawal leaves: none where nothing is left.
unfoldable pub store_rest : Env → Address → PoolId → Deposit → Lendings → Lendings
store_rest env lender pool_id entry s =
    if eqb_ℤ entry.amount (pos 0)
    then record s { deposits = remove (lender, pool_id) s.deposits }
    else record s {
      deposits =
          set (lender, pool_id) (record entry { deposit_timestamp = env.timestamp }) s.deposits;
    }

unfoldable pub withdraw : Env → PoolId → Address → ℤ → Call (Unit {0})
unfolding ◌>>=◌ ◌>>◌
withdraw env pool_id lender amount = do
  raise_if (leb_ℤ amount (pos 0)) invalid_amount
  pool ← get_pool pool_id
  entry ← get_deposit lender pool_id
  raise_if (ltb_ℤ entry.amount amount) insufficient_balance
  current_rate ← calculate_rate pool.total_borrowed pool.total_liquidity
  let interest_accrued : ℤ =
      calculate_interest entry.amount current_rate (elapsed env.timestamp entry.deposit_timestamp)
  let total_to_withdraw : ℤ = add_i128 amount interest_accrued
  raise_if (ltb_ℤ pool.total_liquidity total_to_withdraw) insufficient_balance
  transfer env (record {
    asset = pool.token;
    sender = env.this;
    recipient = lender;
    amount = total_to_withdraw;
  })
  let new_entry : Deposit = record entry {
    amount = sub_i128 entry.amount amount;
    interest_accrued = add_i128 entry.interest_accrued interest_accrued;
  }
  modify (store_rest env lender pool_id new_entry)
  modify
      (set_pool (record pool { total_liquidity = sub_i128 pool.total_liquidity total_to_withdraw }))
