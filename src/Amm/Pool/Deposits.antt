-- ===== src/Amm/Pool/Deposits.antt =====
-- Adding liquidity, and what a share is worth.
use native.Mathlib.Nat.{div-le_self, div-le_of_le-mul, div-mul-le_self, mul-le-mul_right}
use stellar_tipjar_contracts.Common.{
  nat_eq, pair_eq, ℕ, ◌+◌, ◌*◌, ◌/◌, ◌^◌, ◌≤◌, ◌<◌, ◌≡◌, ◌∙◌, ap, true, false, some, leb,
  Bool-cases, inl, inr, arith, if◌then◌else◌,
}
use stellar_tipjar_contracts.Common.Int.{ℤ, pos, eqb_ℤ, leb_ℤ, add_i128, mul_i128, checked_div}
use stellar_tipjar_contracts.Common.Map.{get, get-set}
use stellar_tipjar_contracts.Common.Words.{add_i128-pos}
use stellar_tipjar_contracts.Soroban.{Address, Env, After, After-map, ok, ◌>>=◌, ◌>>◌}
use stellar_tipjar_contracts.Amm.{
  LiquidityPool, Pools, get_pool, save_pool, settle_rewards, set_lp_shares, set_provider_debt,
}
use stellar_tipjar_contracts.Amm.Pool.{optimal_amounts, minted_shares, add_liquidity}
use stellar_tipjar_contracts.Amm.Pool.Shares.{IsFunded, KeepsWorth, part-eq, product-lt}

abbrev grown : LiquidityPool → ℤ → ℤ → ℤ → LiquidityPool
grown p a b m = record p {
  reserve_a = add_i128 p.reserve_a a;
  reserve_b = add_i128 p.reserve_b b;
  total_shares = add_i128 p.total_shares m;
}

module _ (env : Env) (pool_id : ℕ) (provider : Address) (ad bd a_min b_min oa ob m : ℤ) (s : Pools)
    (p : LiquidityPool) (stored : get pool_id s.amm_pool ≡ some p) (same_id : p.pool_id ≡ pool_id)
    (some_total : eqb_ℤ p.total_shares (pos 0) ≡ false)
    (best_b : checked_div (mul_i128 ad p.reserve_b) p.reserve_a ≡ some ob) where
  add_liquidity-all_a :
      leb_ℤ ob bd ≡ true
      → ((u : Pools) → minted_shares p ad ob u ≡ ok (m, u))
      → After
          (λ t. get pool_id t.amm_pool ≡ some (grown p ad ob m))
          (add_liquidity env pool_id provider ad bd a_min b_min s)
  unfolding add_liquidity optimal_amounts settle_rewards get_pool save_pool set_lp_shares
      set_provider_debt ◌>>=◌ ◌>>◌
  add_liquidity-all_a fits minted = ground (
    arith,
    minted (set_provider_debt pool_id provider p.fee_per_share_accum s),
    get-set pool_id pool_id (grown p ad ob m) s.amm_pool,
  )

  add_liquidity-all_b :
      checked_div (mul_i128 bd p.reserve_a) p.reserve_b ≡ some oa
      → leb_ℤ ob bd ≡ false
      → ((u : Pools) → minted_shares p oa bd u ≡ ok (m, u))
      → After
          (λ t. get pool_id t.amm_pool ≡ some (grown p oa bd m))
          (add_liquidity env pool_id provider ad bd a_min b_min s)
  unfolding add_liquidity optimal_amounts settle_rewards get_pool save_pool set_lp_shares
      set_provider_debt ◌>>=◌ ◌>>◌
  add_liquidity-all_b best_a over minted = ground (
    arith,
    minted (set_provider_debt pool_id provider p.fee_per_share_accum s),
    get-set pool_id pool_id (grown p oa bd m) s.amm_pool,
  )

-- The smaller of the two ratios.
abbrev minted : ℕ → ℕ → ℕ → ℕ → ℕ → ℕ
minted x y ra rb total =
    if leb (x * total / ra) (y * total / rb) then x * total / ra else y * total / rb

minted-le :
    (x y ra rb total : ℕ)
    → (minted x y ra rb total ≤ x * total / ra) × (minted x y ra rb total ≤ y * total / rb)
minted-le x y ra rb total = ground arith

-- A deposit that mints no more than its part leaves every share its worth.
worth_grows :
    (reserve x total m : ℕ)
    → m ≤ x * total / reserve
    → reserve * (total + m) ≤ (reserve + x) * total
worth_grows reserve x total m h =
    omega (arith, mul-le-mul_right reserve h, div-mul-le_self (x * total) reserve)

module _ (pool_id : ℕ) (s : Pools) (p : LiquidityPool) (ra rb total : ℕ)
    (funded : IsFunded pool_id s p ra rb total) (some_a : 0 < ra) (some_b : 0 < rb)
    (some_total : 0 < total) (word_a : ra < 2 ^ 62) (word_b : rb < 2 ^ 62)
    (word : total < 2 ^ 62) where
  ratio-eq :
      (x : ℕ) (r q : ℤ) (over under : ℕ)
      → x < 2 ^ 62
      → over < 2 ^ 62
      → 0 < under
      → r ≡ pos over
      → q ≡ pos under
      → checked_div (mul_i128 (pos x) r) q ≡ some (pos (x * over / under))
  ratio-eq x r q over under h k l e f = rw (e, f) (part-eq x over under l h k)

  minted_shares-eq :
      (x y : ℕ) (u : Pools)
      → x < 2 ^ 62
      → y < 2 ^ 62
      → minted_shares p (pos x) (pos y) u ≡ ok (pos (minted x y ra rb total), u)
  unfolding minted_shares ◌>>=◌ ◌>>◌
  minted_shares-eq x y u h k = ground (
    arith,
    funded.is_total,
    ratio-eq x p.total_shares p.reserve_a total ra h word some_a funded.is_total funded.is_a,
    ratio-eq y p.total_shares p.reserve_b total rb k word some_b funded.is_total funded.is_b,
  )

  grown-KeepsWorth :
      (x y : ℕ) (t : Pools)
      → x < 2 ^ 62
      → y < 2 ^ 62
      → get pool_id t.amm_pool ≡ some (grown p (pos x) (pos y) (pos (minted x y ra rb total)))
      → KeepsWorth pool_id ra rb total t
  grown-KeepsWorth x y t h k stored =
      let m = minted x y ra rb total in
      let (le_a, le_b) = minted-le x y ra rb total in
      let small : m < 2 ^ 126 =
        omega (arith, le_a, div-le_self (x * total) ra, product-lt x total h word) in
      (
        _,
        ra + x,
        rb + y,
        total + m,
        record {
          stored = stored;
          same_id = funded.same_id;
          is_a =
              ap (λ z. add_i128 z (pos x)) funded.is_a
              ∙ add_i128-pos ra x (omega (arith, word_a, h));
          is_b =
              ap (λ z. add_i128 z (pos y)) funded.is_b
              ∙ add_i128-pos rb y (omega (arith, word_b, k));
          is_total =
              ap (λ z. add_i128 z (pos m)) funded.is_total
              ∙ add_i128-pos total m (omega (arith, word, small));
        },
        worth_grows ra x total m le_a,
        worth_grows rb y total m le_b,
      )

  -- Where the deposit of all of b is taken, it asks for no more of a than was offered.
  best_a-le : (ad bd : ℕ) → bd < ad * rb / ra → bd * ra / rb ≤ ad
  best_a-le ad bd h =
      div-le_of_le-mul rb (omega (arith, mul-le-mul_right ra h, div-mul-le_self (ad * rb) ra))

  -- If a deposit into a stored pool returns, where the amounts, the reserves and the shares are below
  -- 2 ^ 62 and the pool's are positive, the reserves per share have not fallen for either token.
  pub add_liquidity-KeepsWorth :
      (env : Env) (provider : Address) (ad bd : ℕ) (a_min b_min : ℤ)
      → ad < 2 ^ 62
      → bd < 2 ^ 62
      → After
          (KeepsWorth pool_id ra rb total)
          (add_liquidity env pool_id provider (pos ad) (pos bd) a_min b_min s)
  add_liquidity-KeepsWorth env provider ad bd a_min b_min h k =
      let ob = ad * rb / ra in
      let oa = bd * ra / rb in
      let best_b =
        ratio-eq ad p.reserve_b p.reserve_a rb ra h word_b some_a funded.is_b funded.is_a in
      let best_a =
        ratio-eq bd p.reserve_a p.reserve_b ra rb k word_a some_b funded.is_a funded.is_b in
      let some_shares : eqb_ℤ p.total_shares (pos 0) ≡ false = ground (arith, funded.is_total) in
      elim (Bool-cases (leb ob bd)) [
        | inl fits ↦
            let small : ob < 2 ^ 62 = ground (arith, fits, k) in
            After-map _ (λ t. grown-KeepsWorth ad ob t h small)
              (add_liquidity-all_a env pool_id provider (pos ad) (pos bd) a_min b_min (pos oa)
                (pos ob) (pos (minted ad ob ra rb total)) s p funded.stored funded.same_id
                some_shares best_b (ground (arith, fits)) (λ u. minted_shares-eq ad ob u h small))
        | inr over ↦
            let small : oa < 2 ^ 62 = omega (arith, best_a-le ad bd (ground (arith, over)), h) in
            After-map _ (λ t. grown-KeepsWorth oa bd t small k)
              (add_liquidity-all_b env pool_id provider (pos ad) (pos bd) a_min b_min (pos oa)
                (pos ob) (pos (minted oa bd ra rb total)) s p funded.stored funded.same_id
                some_shares best_b best_a (ground (arith, over))
                (λ u. minted_shares-eq oa bd u small k))
      ]
