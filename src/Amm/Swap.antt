-- ===== src/Amm/Swap.antt =====
-- Swaps and their quotes: contracts/tipjar-legacy/src/amm/swap.rs.
pub mod Quotes
pub mod Steps
pub mod Product
pub mod Payment
use stellar_tipjar_contracts.Common.{
  nat_eq, ℕ, Bool, true, false, ◌||◌, Option, none, some, nat_beq, if◌then◌else◌,
}
use stellar_tipjar_contracts.Common.Int.{
  ℤ, pos, leb_ℤ, ltb_ℤ, eqb_ℤ, add_i128, mul_i128, sub_i128, checked_div,
}
use stellar_tipjar_contracts.Soroban.{
  Address, Env, ok, pure, raise, gets, or_trap, raise_if, modify, require_auth, ◌>>=◌, ◌>>◌,
}
use stellar_tipjar_contracts.Amm.{
  LiquidityPool, SwapResult, Pools, Call, invalid_amount, amm_insufficient_liquidity,
  amm_slippage_exceeded, amm_token_not_in_pool, transfer, save_pool, pool_of, accrue_fee,
}
use stellar_tipjar_contracts.Amm.Math.{
  calculate_output, calculate_input_for_output, fee_on, shortfall_bps, price_impact_bps,
}

-- Which token comes in, as the code's chains of `if` decide it.
pub record Side : Type 0 where
  pub reserve_in : ℤ
  pub reserve_out : ℤ
  pub is_a_in : Bool

unfoldable pub side_of : LiquidityPool → Address → Call Side
side_of pool token_in =
    if nat_beq token_in pool.token_a
    then pure (record { reserve_in = pool.reserve_a; reserve_out = pool.reserve_b; is_a_in = true })
    else if nat_beq token_in pool.token_b
    then pure
        (record { reserve_in = pool.reserve_b; reserve_out = pool.reserve_a; is_a_in = false })
    else raise amm_token_not_in_pool

-- The pool after a swap, its fee accrued in token A.
unfoldable pub swapped : LiquidityPool → Bool → ℤ → ℤ → ℤ → Call LiquidityPool
unfolding ◌>>=◌ ◌>>◌
swapped pool is_a_in amount_in amount_out fee_amount =
    if is_a_in
    then pure (
        accrue_fee
          (record pool {
            reserve_a = add_i128 pool.reserve_a amount_in;
            reserve_b = sub_i128 pool.reserve_b amount_out;
          })
          fee_amount)
    else (let moved_pool : LiquidityPool = record pool {
      reserve_b = add_i128 pool.reserve_b amount_in;
      reserve_a = sub_i128 pool.reserve_a amount_out;
    } in
        do
          fee_a_equiv ←
              (if ltb_ℤ (pos 0) moved_pool.reserve_b
                then or_trap
                    (checked_div (mul_i128 fee_amount moved_pool.reserve_a) moved_pool.reserve_b)
                else pure (pos 0))
          pure (accrue_fee moved_pool fee_a_equiv))

unfoldable pub swap : Env → ℕ → Address → Address → ℤ → ℤ → Call SwapResult
unfolding ◌>>=◌ ◌>>◌
swap env pool_id sender token_in amount_in min_amount_out = do
  require_auth env sender
  raise_if (leb_ℤ amount_in (pos 0)) invalid_amount
  pool ← pool_of pool_id
  raise_if (eqb_ℤ pool.reserve_a (pos 0) || eqb_ℤ pool.reserve_b (pos 0)) amm_insufficient_liquidity
  side ← side_of pool token_in
  let fee_amount : ℤ = fee_on amount_in pool.fee_bps
  let amount_in_after_fee : ℤ = sub_i128 amount_in fee_amount
  amount_out ← calculate_output amount_in_after_fee side.reserve_in side.reserve_out
  raise_if (leb_ℤ amount_out (pos 0)) amm_insufficient_liquidity
  raise_if (ltb_ℤ amount_out min_amount_out) amm_slippage_exceeded
  price_impact ← shortfall_bps amount_in amount_out side.reserve_in side.reserve_out
  transfer env
      (record { asset = token_in; sender = sender; recipient = env.this; amount = amount_in })
  new_pool ← swapped pool side.is_a_in amount_in amount_out fee_amount
  modify (save_pool new_pool)
  transfer env (record {
    asset = if side.is_a_in then pool.token_b else pool.token_a;
    sender = env.this;
    recipient = sender;
    amount = amount_out;
  })
  pure (record {
    amount_out = amount_out;
    fee_amount = fee_amount;
    new_reserve_a = new_pool.reserve_a;
    new_reserve_b = new_pool.reserve_b;
    price_impact_bps = price_impact;
  })

unfoldable pub get_amount_out : ℕ → Address → ℤ → Call ℤ
unfolding ◌>>=◌ ◌>>◌
get_amount_out pool_id token_in amount_in = do
  pool ← pool_of pool_id
  side ← side_of pool token_in
  calculate_output (sub_i128 amount_in (fee_on amount_in pool.fee_bps)) side.reserve_in
      side.reserve_out

unfoldable pub get_amount_in : ℕ → Address → ℤ → Call ℤ
unfolding ◌>>=◌ ◌>>◌
get_amount_in pool_id token_in amount_out = do
  pool ← pool_of pool_id
  side ← side_of pool token_in
  calculate_input_for_output amount_out side.reserve_in side.reserve_out pool.fee_bps
