-- ===== src/Amm/Pool.antt =====
-- Creating pools, adding and removing liquidity, claiming rewards:
-- contracts/tipjar-legacy/src/amm/pool.rs.
pub mod Shares
pub mod Deposits
use stellar_tipjar_contracts.Common.{
  nat_eq, ℕ, Bool, true, false, ◌||◌, Option, none, some, nat_beq, get_or, is_some, ltb,
  if◌then◌else◌,
}
use stellar_tipjar_contracts.Common.Int.{
  ℤ, pos, leb_ℤ, ltb_ℤ, eqb_ℤ, add_i128, mul_i128, sub_i128, checked_div,
}
use stellar_tipjar_contracts.Soroban.{
  Address, Env, ok, pure, raise, gets, or_trap, raise_if, modify, require_auth, ◌>>=◌, ◌>>◌,
}
use stellar_tipjar_contracts.Amm.{
  LiquidityPool, AddLiquidityResult, RemoveLiquidityResult, Pools, Call, default_fee_bps,
  max_fee_bps, min_initial_liquidity, invalid_amount, amm_fee_too_high, amm_identical_tokens,
  amm_insufficient_liquidity, amm_insufficient_shares, amm_pool_exists, amm_slippage_exceeded,
  transfer, save_pool, pool_of, next_pool_id, get_pool_id_by_tokens, register_pool_tokens,
  get_lp_shares, set_lp_shares, set_provider_debt, pending_rewards, settle_rewards,
}
use stellar_tipjar_contracts.Amm.Math.{isqrt}

unfoldable pub create_pool : Env → Address → Address → Address → ℤ → ℤ → Option ℕ → Call (ℕ × ℤ)
unfolding ◌>>=◌ ◌>>◌
create_pool env creator token_a token_b amount_a amount_b fee_bps = do
  require_auth env creator
  raise_if (nat_beq token_a token_b) amm_identical_tokens
  raise_if (ltb_ℤ amount_a min_initial_liquidity || ltb_ℤ amount_b min_initial_liquidity)
      amm_insufficient_liquidity
  let effective_fee : ℕ = get_or default_fee_bps fee_bps
  raise_if (ltb max_fee_bps effective_fee) amm_fee_too_high
  existing ← gets (get_pool_id_by_tokens token_a token_b)
  raise_if (is_some existing) amm_pool_exists
  pool_id ← next_pool_id
  shares ← or_trap (isqrt (mul_i128 amount_a amount_b))
  raise_if (leb_ℤ shares (pos 0)) amm_insufficient_liquidity
  transfer env
      (record { asset = token_a; sender = creator; recipient = env.this; amount = amount_a })
  transfer env
      (record { asset = token_b; sender = creator; recipient = env.this; amount = amount_b })
  let pool : LiquidityPool = record {
    pool_id = pool_id;
    token_a = token_a;
    token_b = token_b;
    reserve_a = amount_a;
    reserve_b = amount_b;
    total_shares = shares;
    fee_bps = effective_fee;
    fee_per_share_accum = pos 0;
    total_fees_collected = pos 0;
  }
  modify (save_pool pool)
  modify (register_pool_tokens pool_id token_a token_b)
  modify (set_lp_shares pool_id creator shares)
  modify (set_provider_debt pool_id creator (pos 0))
  pure (pool_id, shares)

-- The amounts that `add_liquidity` deposits to keep the pool's ratio.
unfoldable pub optimal_amounts : LiquidityPool → ℤ → ℤ → ℤ → ℤ → Call (ℤ × ℤ)
unfolding ◌>>=◌ ◌>>◌
optimal_amounts pool amount_a_desired amount_b_desired amount_a_min amount_b_min =
    if eqb_ℤ pool.total_shares (pos 0) then pure (amount_a_desired, amount_b_desired) else do
      optimal_b ← or_trap (checked_div (mul_i128 amount_a_desired pool.reserve_b) pool.reserve_a)
      (if leb_ℤ optimal_b amount_b_desired
          then (raise_if (ltb_ℤ optimal_b amount_b_min) amm_slippage_exceeded
              >> pure (amount_a_desired, optimal_b))
          else do
            optimal_a ←
                or_trap (checked_div (mul_i128 amount_b_desired pool.reserve_a) pool.reserve_b)
            raise_if (ltb_ℤ optimal_a amount_a_min) amm_slippage_exceeded
            pure (optimal_a, amount_b_desired))

-- The shares that `add_liquidity` mints for a deposit.
unfoldable pub minted_shares : LiquidityPool → ℤ → ℤ → Call ℤ
unfolding ◌>>=◌ ◌>>◌
minted_shares pool amount_a amount_b =
    if eqb_ℤ pool.total_shares (pos 0) then or_trap (isqrt (mul_i128 amount_a amount_b)) else do
      s_a ← or_trap (checked_div (mul_i128 amount_a pool.total_shares) pool.reserve_a)
      s_b ← or_trap (checked_div (mul_i128 amount_b pool.total_shares) pool.reserve_b)
      pure (if leb_ℤ s_a s_b then s_a else s_b)

unfoldable pub add_liquidity : Env → ℕ → Address → ℤ → ℤ → ℤ → ℤ → Call AddLiquidityResult
unfolding ◌>>=◌ ◌>>◌
add_liquidity env pool_id provider amount_a_desired amount_b_desired amount_a_min amount_b_min = do
  require_auth env provider
  raise_if (leb_ℤ amount_a_desired (pos 0) || leb_ℤ amount_b_desired (pos 0)) invalid_amount
  unused ← settle_rewards pool_id provider
  pool ← pool_of pool_id
  amounts ← optimal_amounts pool amount_a_desired amount_b_desired amount_a_min amount_b_min
  raise_if (ltb_ℤ amounts.0 amount_a_min || ltb_ℤ amounts.1 amount_b_min) amm_slippage_exceeded
  shares ← minted_shares pool amounts.0 amounts.1
  raise_if (leb_ℤ shares (pos 0)) amm_insufficient_liquidity
  transfer env
      (record { asset = pool.token_a; sender = provider; recipient = env.this; amount = amounts.0 })
  transfer env
      (record { asset = pool.token_b; sender = provider; recipient = env.this; amount = amounts.1 })
  modify (
      save_pool (record pool {
        reserve_a = add_i128 pool.reserve_a amounts.0;
        reserve_b = add_i128 pool.reserve_b amounts.1;
        total_shares = add_i128 pool.total_shares shares;
      }))
  current_shares ← gets (get_lp_shares pool_id provider)
  modify (set_lp_shares pool_id provider (add_i128 current_shares shares))
  modify (set_provider_debt pool_id provider pool.fee_per_share_accum)
  pure (record { shares_minted = shares; amount_a = amounts.0; amount_b = amounts.1 })

unfoldable pub remove_liquidity : Env → ℕ → Address → ℤ → ℤ → ℤ → Call RemoveLiquidityResult
unfolding ◌>>=◌ ◌>>◌
remove_liquidity env pool_id provider shares amount_a_min amount_b_min = do
  require_auth env provider
  raise_if (leb_ℤ shares (pos 0)) invalid_amount
  user_shares ← gets (get_lp_shares pool_id provider)
  raise_if (ltb_ℤ user_shares shares) amm_insufficient_shares
  rewards ← settle_rewards pool_id provider
  pool ← pool_of pool_id
  amount_a ← or_trap (checked_div (mul_i128 shares pool.reserve_a) pool.total_shares)
  amount_b ← or_trap (checked_div (mul_i128 shares pool.reserve_b) pool.total_shares)
  raise_if (ltb_ℤ amount_a amount_a_min || ltb_ℤ amount_b amount_b_min) amm_slippage_exceeded
  raise_if (leb_ℤ amount_a (pos 0) || leb_ℤ amount_b (pos 0)) amm_insufficient_liquidity
  modify (
      save_pool (record pool {
        reserve_a = sub_i128 pool.reserve_a amount_a;
        reserve_b = sub_i128 pool.reserve_b amount_b;
        total_shares = sub_i128 pool.total_shares shares;
      }))
  modify (set_lp_shares pool_id provider (sub_i128 user_shares shares))
  transfer env
      (record { asset = pool.token_a; sender = env.this; recipient = provider; amount = amount_a })
  transfer env
      (record { asset = pool.token_b; sender = env.this; recipient = provider; amount = amount_b })
  (if ltb_ℤ (pos 0) rewards
      then transfer env (record {
        asset = pool.token_a;
        sender = env.this;
        recipient = provider;
        amount = rewards;
      })
      else pure tt)
  pure (record { amount_a = amount_a; amount_b = amount_b; rewards_claimed = rewards })

unfoldable pub claim_rewards : Env → ℕ → Address → Call ℤ
unfolding ◌>>=◌ ◌>>◌
claim_rewards env pool_id provider = do
  require_auth env provider
  pool ← pool_of pool_id
  rewards ← settle_rewards pool_id provider
  (if eqb_ℤ rewards (pos 0) then pure (pos 0) else do
    transfer env
        (record { asset = pool.token_a; sender = env.this; recipient = provider; amount = rewards })
    pure rewards)

unfoldable pub get_provider_shares : ℕ → Address → Call ℤ
get_provider_shares pool_id provider = gets (get_lp_shares pool_id provider)

unfoldable pub get_pending_rewards : ℕ → Address → Call ℤ
get_pending_rewards pool_id provider = gets (pending_rewards pool_id provider)

unfoldable pub get_reserves : ℕ → Call (ℤ × ℤ)
unfolding ◌>>=◌ ◌>>◌
get_reserves pool_id = do pool ← pool_of pool_id; pure (pool.reserve_a, pool.reserve_b)

unfoldable pub set_pool_fee : ℕ → ℕ → Call (Unit {0})
unfolding ◌>>=◌ ◌>>◌
set_pool_fee pool_id fee_bps = do
  pool ← pool_of pool_id
  raise_if (ltb max_fee_bps fee_bps) amm_fee_too_high
  modify (save_pool (record pool { fee_bps = fee_bps }))
