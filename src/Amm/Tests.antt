-- ===== src/Amm/Tests.antt =====
-- Runs of the market maker: pool 1 trades token 5 for token 6, and everyone has signed.
use stellar_tipjar_contracts.Common.{
  nat_eq, pair_eq, ℕ, ◌-◌, ◌^◌, ◌≤◌, ◌≡◌, refl, true, some, [], ◌∷◌, arith,
}
use stellar_tipjar_contracts.Common.Int.{
  pos, negsuc, ◌-ℤ◌, ◌+ℤ◌, ◌*ℤ◌, sub_i128, add_i128, mul_i128, wrap_i128, quot, checked_div,
  fits_i128, i128_max,
}
use stellar_tipjar_contracts.Common.Map.{get, set}
use stellar_tipjar_contracts.Soroban.{Env, After, Effect, ok, custody, ◌>>=◌, ◌>>◌}
use stellar_tipjar_contracts.Amm.{
  LiquidityPool, Pools, SwapResult, get_pool, save_pool, settle_rewards, set_provider_debt,
  accrue_fee, get_lp_shares, get_provider_debt,
}
use stellar_tipjar_contracts.Amm.Math.{
  isqrt, newton, calculate_output, calculate_input_for_output, fee_on, shortfall_bps,
}
use stellar_tipjar_contracts.Amm.Sqrt.{IsRoot, isqrt-IsRoot}
use stellar_tipjar_contracts.Amm.Pool.{add_liquidity, remove_liquidity, claim_rewards}
use stellar_tipjar_contracts.Amm.Pool.Shares.{IsFunded, KeepsWorth, remove_liquidity-KeepsWorth}
use stellar_tipjar_contracts.Amm.Pool.Deposits.{add_liquidity-KeepsWorth}
use stellar_tipjar_contracts.Amm.Swap.{side_of, swapped, swap}
use stellar_tipjar_contracts.Amm.Swap.Quotes.{exact_in, calculate_input_for_output-buys}
use stellar_tipjar_contracts.Amm.Swap.Product.{IsLive, KeepsProduct, swap-KeepsProduct}

abbrev env : Env
env = record {
  sequence = 1;
  timestamp = 0;
  authorized = λ who. true;
  this = 0;
  accepts = λ t. true;
}

abbrev pool : LiquidityPool
pool = record {
  pool_id = 1;
  token_a = 5;
  token_b = 6;
  reserve_a = pos 10_000;
  reserve_b = pos 40_000;
  total_shares = pos 20_000;
  fee_bps = 100;
  fee_per_share_accum = pos 0;
  total_fees_collected = pos 0;
}

-- Address 2 holds every share.
abbrev pools : Pools
pools = record {
  amm_pool = (1, pool) ∷ [];
  amm_pool_counter = some 1;
  amm_pool_by_tokens = ((5, 6), 1) ∷ [];
  amm_lp_shares = ((1, 2), pos 20_000) ∷ [];
  amm_provider_debt = ((1, 2), pos 0) ∷ [];
  log = [];
}

stored : get 1 pools.amm_pool ≡ some pool
unfolding get
stored = refl

live : IsLive 1 pools pool 10_000 40_000
live = record {
  stored = stored;
  same_id = refl;
  is_a = refl;
  is_b = refl;
  some_a = omega arith;
  some_b = omega arith;
  rate = omega arith;
}

funded : IsFunded 1 pools pool 10_000 40_000 20_000
funded = record { stored = stored; same_id = refl; is_a = refl; is_b = refl; is_total = refl }

-- The root of a million, and of the largest number of the word, whose successor has wrapped round.
roots :
    (isqrt (pos 1_000_000) ≡ some (pos 1_000))
    × (isqrt (pos (2 ^ 127 - 1)) ≡ some (negsuc (2 ^ 126 - 1)))
unfolding isqrt newton quot checked_div fits_i128 i128_max add_i128 ◌+ℤ◌ wrap_i128
roots = (refl, refl)

isqrt-IsRoot_example : (r : ℕ) × (isqrt (pos 1_000) ≡ some (pos r)) × IsRoot 1_000 r
isqrt-IsRoot_example = isqrt-IsRoot 1_000 (omega arith)

calculate_input_for_output-buys_example :
    (calculate_input_for_output (pos 3_000) (pos 10_000) (pos 40_000) 100 pools
      ≡ ok (pos (exact_in 3_000 10_000 40_000 100), pools))
    × ((bought : ℕ) × (calculate_output
            (sub_i128
              (pos (exact_in 3_000 10_000 40_000 100))
              (fee_on (pos (exact_in 3_000 10_000 40_000 100)) 100))
            (pos 10_000)
            (pos 40_000)
            pools
          ≡ ok (pos bought, pools))
        × (3_000 ≤ bought))
calculate_input_for_output-buys_example =
    calculate_input_for_output-buys 3_000 10_000 40_000 100 (omega arith) (omega arith)
      (omega arith) pools (omega arith) (omega arith) (omega arith) (omega arith)

swap-KeepsProduct_example :
    After (KeepsProduct 1 pool 10_000 40_000) (swap env 1 3 5 (pos 1_000) (pos 3_000) pools)
swap-KeepsProduct_example =
    swap-KeepsProduct env 1 3 1_000 (pos 3_000) pools pool 10_000 40_000 live (omega arith)
      (omega arith) (omega arith) 5

add_liquidity-KeepsWorth_example :
    After
      (KeepsWorth 1 10_000 40_000 20_000)
      (add_liquidity env 1 3 (pos 100) (pos 500) (pos 0) (pos 0) pools)
add_liquidity-KeepsWorth_example =
    add_liquidity-KeepsWorth 1 pools pool 10_000 40_000 20_000 funded (omega arith) (omega arith)
      (omega arith) (omega arith) (omega arith) (omega arith) env 3 100 500 (pos 0) (pos 0)
      (omega arith) (omega arith)

remove_liquidity-KeepsWorth_example :
    After
      (KeepsWorth 1 10_000 40_000 20_000)
      (remove_liquidity env 1 2 (pos 333) (pos 0) (pos 0) pools)
remove_liquidity-KeepsWorth_example =
    remove_liquidity-KeepsWorth env 1 2 333 (pos 0) (pos 0) pools pool 10_000 40_000 20_000 funded
      (omega arith) (omega arith) (omega arith) (omega arith) (omega arith)

abbrev after_swap : LiquidityPool
after_swap = record pool {
  reserve_a = pos 11_000;
  reserve_b = pos 36_397;
  fee_per_share_accum = pos 500;
  total_fees_collected = pos 10;
}

abbrev result : SwapResult
result = record {
  amount_out = pos 3_603;
  fee_amount = pos 10;
  new_reserve_a = pos 11_000;
  new_reserve_b = pos 36_397;
  price_impact_bps = pos 992;
}

abbrev swapped_pools : Pools
swapped_pools = record pools {
  amm_pool = (1, after_swap) ∷ [];
  log =
      Effect.transferred (record { asset = 6; sender = 0; recipient = 3; amount = pos 3_603 })
      ∷ Effect.transferred (record { asset = 5; sender = 3; recipient = 0; amount = pos 1_000 })
      ∷ [];
}

swap_runs : swap env 1 3 5 (pos 1_000) (pos 3_000) pools ≡ ok (result, swapped_pools)
unfolding swap side_of swapped calculate_output shortfall_bps fee_on get_pool save_pool accrue_fee
    get set checked_div quot fits_i128 i128_max add_i128 sub_i128 mul_i128 ◌+ℤ◌ ◌-ℤ◌ ◌*ℤ◌ wrap_i128
    ◌>>=◌ ◌>>◌
swap_runs = refl

-- The whole input is in the reserves, and its fee is paid out as a reward besides: the contract has
-- 990 more of token 5, the reserve 1000 more.
reward_paid_twice :
    (get 1 swapped_pools.amm_pool ≡ some after_swap)
    × After
        (λ t. (get 1 t.amm_pool ≡ some after_swap) × (custody 5 0 t.log ≡ pos 990))
        (claim_rewards env 1 2 swapped_pools)
unfolding claim_rewards settle_rewards set_provider_debt get_pool get_lp_shares get_provider_debt
    get set quot sub_i128 mul_i128 ◌+ℤ◌ ◌-ℤ◌ ◌*ℤ◌ wrap_i128 ◌>>=◌ ◌>>◌
reward_paid_twice = (refl, record { holds = (refl, refl) })
