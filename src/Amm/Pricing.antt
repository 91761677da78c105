-- ===== src/Amm/Pricing.antt =====
-- The views of a pool: contracts/tipjar-legacy/src/amm/pricing.rs.
use stellar_tipjar_contracts.Common.{ℕ, if◌then◌else◌}
use stellar_tipjar_contracts.Common.Int.{ℤ, pos, eqb_ℤ, mul_i128, checked_div}
use stellar_tipjar_contracts.Soroban.{Address, pure, or_trap, ◌>>=◌, ◌>>◌}
use stellar_tipjar_contracts.Amm.{Call, pool_of}
use stellar_tipjar_contracts.Amm.Math.{price_impact_bps}
use stellar_tipjar_contracts.Amm.Swap.{side_of}

unfoldable pub spot_price : ℕ → Address → Call ℤ
unfolding ◌>>=◌ ◌>>◌
spot_price pool_id token_in = do
  pool ← pool_of pool_id
  side ← side_of pool token_in
  (if eqb_ℤ side.reserve_in (pos 0)
      then pure (pos 0)
      else or_trap (checked_div (mul_i128 side.reserve_out (pos 1_000_000)) side.reserve_in))

unfoldable pub get_price_impact : ℕ → Address → ℤ → Call ℤ
unfolding ◌>>=◌ ◌>>◌
get_price_impact pool_id token_in amount_in = do
  pool ← pool_of pool_id
  side ← side_of pool token_in
  price_impact_bps amount_in side.reserve_in side.reserve_out pool.fee_bps

unfoldable pub get_invariant : ℕ → Call ℤ
unfolding ◌>>=◌ ◌>>◌
get_invariant pool_id = do pool ← pool_of pool_id; pure (mul_i128 pool.reserve_a pool.reserve_b)

unfoldable pub get_tvl : ℕ → Call (ℤ × ℤ)
unfolding ◌>>=◌ ◌>>◌
get_tvl pool_id = do pool ← pool_of pool_id; pure (pool.reserve_a, pool.reserve_b)

unfoldable pub share_value : ℕ → Call (ℤ × ℤ)
unfolding ◌>>=◌ ◌>>◌
share_value pool_id = do
  pool ← pool_of pool_id
  (if eqb_ℤ pool.total_shares (pos 0) then pure (pos 0, pos 0) else do
    a ← or_trap (checked_div (mul_i128 pool.reserve_a (pos 1_000_000)) pool.total_shares)
    b ← or_trap (checked_div (mul_i128 pool.reserve_b (pos 1_000_000)) pool.total_shares)
    pure (a, b))

unfoldable pub total_fees_collected : ℕ → Call ℤ
unfolding ◌>>=◌ ◌>>◌
total_fees_collected pool_id = do pool ← pool_of pool_id; pure pool.total_fees_collected
