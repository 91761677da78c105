-- ===== src/Amm.antt =====
-- The constant-product market maker, contracts/tipjar-legacy/src/amm/mod.rs: its pools, its storage
-- and the fee rewards.
pub mod Math
pub mod Sqrt
pub mod Pool
pub mod Swap
pub mod Pricing
mod Tests
use stellar_tipjar_contracts.Common.{
  nat_eq, pair_eq, ℕ, ◌+◌, ◌<◌, Bool, true, false, ◌&&◌, Option, none, some, List, [], ◌∷◌, get_or,
  if◌then◌else◌,
}
use stellar_tipjar_contracts.Common.Int.{
  ℤ, pos, leb_ℤ, ltb_ℤ, add_u64, add_i128, mul_i128, sub_i128, quot, eqb_ℤ,
}
use stellar_tipjar_contracts.Common.Map.{Map, get, set}
use stellar_tipjar_contracts.Soroban.{
  Address, Effect, Env, M, Transfer, transfer_failed, ok, err, pure, gets, or_raise, modify, ◌>>=◌,
  ◌>>◌,
}

abbrev pub default_fee_bps : ℕ
default_fee_bps = 30

abbrev pub max_fee_bps : ℕ
max_fee_bps = 1_000

abbrev pub min_initial_liquidity : ℤ
min_initial_liquidity = pos 1_000

abbrev pub precision : ℤ
precision = pos 1_000_000

pub record LiquidityPool : Type 0 where
  pub pool_id : ℕ
  pub token_a : Address
  pub token_b : Address
  pub reserve_a : ℤ
  pub reserve_b : ℤ
  pub total_shares : ℤ
  pub fee_bps : ℕ
  pub fee_per_share_accum : ℤ
  pub total_fees_collected : ℤ

pub record SwapResult : Type 0 where
  pub amount_out : ℤ
  pub fee_amount : ℤ
  pub new_reserve_a : ℤ
  pub new_reserve_b : ℤ
  pub price_impact_bps : ℤ

pub record AddLiquidityResult : Type 0 where
  pub shares_minted : ℤ
  pub amount_a : ℤ
  pub amount_b : ℤ

pub record RemoveLiquidityResult : Type 0 where
  pub amount_a : ℤ
  pub amount_b : ℤ
  pub rewards_claimed : ℤ

-- The errors of `TipJarError` that these calls raise.
pub data AmmError : Type 0 where
  invalid_amount amm_fee_too_high amm_identical_tokens amm_insufficient_liquidity : AmmError
  amm_insufficient_shares amm_pool_exists amm_pool_not_found amm_slippage_exceeded : AmmError
  amm_token_not_in_pool : AmmError

-- One field for each key of the storage layout that the code uses, and the log. The module publishes
-- no event.
pub record Pools : Type 0 where
  pub amm_pool : Map ℕ LiquidityPool
  pub amm_pool_counter : Option ℕ
  pub amm_pool_by_tokens : Map (Address × Address) ℕ
  pub amm_lp_shares : Map (ℕ × Address) ℤ
  pub amm_provider_debt : Map (ℕ × Address) ℤ
  pub log : List (Effect Unit Unit)

abbrev pub Call : Type 0 → Type 0
Call A = M Pools AmmError A

abbrev pub transfer : Env → Transfer → Call (Unit {0})
transfer env t s = elim (env.accepts t) [
  | true ↦ ok (tt, record s { log = Effect.transferred t ∷ s.log })
  | false ↦ err transfer_failed
]

unfoldable pub get_pool : ℕ → Pools → Option LiquidityPool
get_pool pool_id s = get pool_id s.amm_pool

unfoldable pub save_pool : LiquidityPool → Pools → Pools
save_pool pool s = record s { amm_pool = set pool.pool_id pool s.amm_pool }

-- `get_pool(..).unwrap_or_else(|| panic_with_error!(env, AmmPoolNotFound))`
abbrev pub pool_of : ℕ → Call LiquidityPool
pool_of pool_id s = or_raise (get_pool pool_id s) amm_pool_not_found s

unfoldable pub next_pool_id : Call ℕ
unfolding ◌>>=◌ ◌>>◌
next_pool_id = do
  id ← gets (λ s. add_u64 (get_or 0 s.amm_pool_counter) 1)
  modify (λ s. record s { amm_pool_counter = some id })
  pure id

unfoldable pub get_pool_id_by_tokens : Address → Address → Pools → Option ℕ
get_pool_id_by_tokens token_a token_b s = elim (get (token_a, token_b) s.amm_pool_by_tokens) [
  | some id ↦ some id
  | none ↦ get (token_b, token_a) s.amm_pool_by_tokens
]

unfoldable pub register_pool_tokens : ℕ → Address → Address → Pools → Pools
register_pool_tokens pool_id token_a token_b s = record s {
  amm_pool_by_tokens = set (token_a, token_b) pool_id s.amm_pool_by_tokens;
}

unfoldable pub get_lp_shares : ℕ → Address → Pools → ℤ
get_lp_shares pool_id provider s = get_or (pos 0) (get (pool_id, provider) s.amm_lp_shares)

unfoldable pub set_lp_shares : ℕ → Address → ℤ → Pools → Pools
set_lp_shares pool_id provider shares s = record s {
  amm_lp_shares = set (pool_id, provider) shares s.amm_lp_shares;
}

unfoldable pub get_provider_debt : ℕ → Address → Pools → ℤ
get_provider_debt pool_id provider s = get_or (pos 0) (get (pool_id, provider) s.amm_provider_debt)

unfoldable pub set_provider_debt : ℕ → Address → ℤ → Pools → Pools
set_provider_debt pool_id provider debt s = record s {
  amm_provider_debt = set (pool_id, provider) debt s.amm_provider_debt;
}

-- A division by a positive constant cannot trap.
unfoldable pub pending_rewards : ℕ → Address → Pools → ℤ
unfolding get_pool
pending_rewards pool_id provider s = elim (get_pool pool_id s) [
  | none ↦ pos 0
  | some pool ↦
      let shares : ℤ = get_lp_shares pool_id provider s in
      if eqb_ℤ shares (pos 0)
      then pos 0
      else (let delta : ℤ =
            sub_i128 pool.fee_per_share_accum (get_provider_debt pool_id provider s) in
          if leb_ℤ delta (pos 0) then pos 0 else quot (mul_i128 shares delta) precision)
]

unfoldable pub settle_rewards : ℕ → Address → Call ℤ
settle_rewards pool_id provider s = elim (get_pool pool_id s) [
  | none ↦ ok (pos 0, s)
  | some pool ↦
      let shares : ℤ = get_lp_shares pool_id provider s in
      let debt : ℤ = get_provider_debt pool_id provider s in
      let delta : ℤ = sub_i128 pool.fee_per_share_accum debt in
      let reward : ℤ =
        if ltb_ℤ (pos 0) shares && ltb_ℤ (pos 0) delta
        then quot (mul_i128 shares delta) precision
        else pos 0 in
      ok (reward, set_provider_debt pool_id provider pool.fee_per_share_accum s)
]

-- The divisor is positive where the code divides.
unfoldable pub accrue_fee : LiquidityPool → ℤ → LiquidityPool
accrue_fee pool fee_amount =
    if ltb_ℤ (pos 0) pool.total_shares && ltb_ℤ (pos 0) fee_amount
    then record pool {
      fee_per_share_accum =
          add_i128 pool.fee_per_share_accum
            (quot (mul_i128 fee_amount precision) pool.total_shares);
      total_fees_collected = add_i128 pool.total_fees_collected fee_amount;
    }
    else pool
