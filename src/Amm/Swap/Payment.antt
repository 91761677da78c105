-- ===== src/Amm/Swap/Payment.antt =====
-- What a swap that returns has paid.
use stellar_tipjar_contracts.Common.{ℕ, ◌≡◌, arith}
use stellar_tipjar_contracts.Common.Int.{ℤ, pos, ◌≤ℤ◌, ◌<ℤ◌}
use stellar_tipjar_contracts.Soroban.{Address, Env, ok, ◌>>=◌, ◌>>◌}
use stellar_tipjar_contracts.Amm.{SwapResult, Pools, get_pool}
use stellar_tipjar_contracts.Amm.Math.{calculate_output, shortfall_bps}
use stellar_tipjar_contracts.Amm.Swap.{side_of, swapped, swap, get_amount_out}

module _ (env : Env) (pool_id : ℕ) (sender token_in : Address) (amount_in min_amount_out : ℤ)
    (s t : Pools) (r : SwapResult) where
  -- If a swap returns, its output is what `get_amount_out` returns for the same input and state, no less
  -- than the minimum, and positive.
  swap-get_amount_out :
      swap env pool_id sender token_in amount_in min_amount_out s ≡ ok (r, t)
      → (get_amount_out pool_id token_in amount_in s ≡ ok (r.amount_out, s))
        × (min_amount_out ≤ℤ r.amount_out)
        × (pos 0 <ℤ r.amount_out)
  unfolding swap get_amount_out side_of swapped calculate_output shortfall_bps get_pool ◌>>=◌ ◌>>◌
  swap-get_amount_out h = ground arith
