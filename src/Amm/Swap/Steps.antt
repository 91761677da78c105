-- ===== src/Amm/Swap/Steps.antt =====
-- The steps of a swap: the output, the fee, and the pool that it stores.
use native.Mathlib.Nat.{div-mul-le_self, div-lt_iff_lt-mul, mul-le-mul_right}
use stellar_tipjar_contracts.Common.{
  nat_eq, ℕ, ◌+◌, ◌-◌, ◌*◌, ◌≤◌, ◌<◌, ◌≡◌, some, ◌∷◌, arith, subst, sym,
}
use stellar_tipjar_contracts.Common.Int.{ℤ, sub_i128}
use stellar_tipjar_contracts.Common.Map.{get, get-set}
use stellar_tipjar_contracts.Soroban.{Address, Env, After, Effect, ok, ◌>>=◌, ◌>>◌}
use stellar_tipjar_contracts.Amm.{LiquidityPool, Pools, get_pool, save_pool, accrue_fee}
use stellar_tipjar_contracts.Amm.Math.{calculate_output, fee_on, shortfall_bps}
use stellar_tipjar_contracts.Amm.Swap.{Side, side_of, swapped, swap}
use stellar_tipjar_contracts.Amm.Swap.Quotes.{exact_out}

-- The output leaves the reserve some, and the product does not fall, by the definition of division.
pub out-lt : (y rin rout : ℕ) → 0 < rin → 0 < rout → exact_out y rin rout < rout
out-lt y rin rout h k =
    let m : y * rout < rout * (rin + y) = omega (arith, mul-le-mul_right rout h) in
    (div-lt_iff_lt-mul {x = y * rout} (omega (arith, h))).1 m

keeps_product :
    (rin rest o y : ℕ) → o * (rin + y) ≤ y * (rest + o) → rin * (rest + o) ≤ (rin + y) * rest
keeps_product rin rest o y h = omega (arith, h)

pub out-keeps :
    (x y rin rout : ℕ)
    → 0 < rin
    → 0 < rout
    → y ≤ x
    → rin * rout ≤ (rin + x) * (rout - exact_out y rin rout)
out-keeps x y rin rout h k l =
    let o = exact_out y rin rout in
    let e : rout - o + o ≡ rout = omega (arith, out-lt y rin rout h k) in
    let m : o * (rin + y) ≤ y * (rout - o + o) =
      subst (λ r. o * (rin + y) ≤ y * r) (sym e) (div-mul-le_self (y * rout) (rin + y)) in
    let n : rin * rout ≤ (rin + y) * (rout - o) =
      subst (λ r. rin * r ≤ (rin + y) * (rout - o)) e (keeps_product rin (rout - o) o y m) in
    omega (arith, n, mul-le-mul_right (rout - o) l)

module _ (env : Env) (pool_id : ℕ) (sender token_in : Address)
    (amount_in min_amount_out amount_out : ℤ) (s : Pools) (p q : LiquidityPool) (side : Side)
    (stored : get pool_id s.amm_pool ≡ some p) (same_id : q.pool_id ≡ pool_id)
    (chosen : side_of p token_in s ≡ ok (side, s))
    (quoted : calculate_output
        (sub_i128 amount_in (fee_on amount_in p.fee_bps))
        side.reserve_in
        side.reserve_out
        s
      ≡ ok (amount_out, s))
    (moved : (u : Pools)
      → swapped p side.is_a_in amount_in amount_out (fee_on amount_in p.fee_bps) u
        ≡ ok (q, u)) where
  pub swap-stored :
      After
        (λ t. get pool_id t.amm_pool ≡ some q)
        (swap env pool_id sender token_in amount_in min_amount_out s)
  unfolding swap shortfall_bps get_pool save_pool ◌>>=◌ ◌>>◌
  swap-stored =
      let paid : Pools = record s {
        log =
            Effect.transferred (record {
              asset = token_in;
              sender = sender;
              recipient = env.this;
              amount = amount_in;
            })
            ∷ s.log;
      } in
      ground (arith, moved paid, get-set pool_id pool_id q s.amm_pool)

pub accrue_fee-same :
    (p : LiquidityPool) (fee : ℤ)
    → ((accrue_fee p fee).pool_id ≡ p.pool_id)
      × ((accrue_fee p fee).reserve_a ≡ p.reserve_a)
      × ((accrue_fee p fee).reserve_b ≡ p.reserve_b)
      × ((accrue_fee p fee).total_shares ≡ p.total_shares)
      × ((accrue_fee p fee).fee_bps ≡ p.fee_bps)
unfolding accrue_fee
accrue_fee-same p fee = ground arith
