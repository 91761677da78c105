-- ===== src/Amm/Pool/Shares.antt =====
-- Adding and removing liquidity, and what a share is worth.
use native.Mathlib.Nat.{div-le_of_le-mul, div-mul-le_self, mul-le-mul_right}
use stellar_tipjar_contracts.Common.{
  nat_eq, pair_eq, ℕ, ◌+◌, ◌-◌, ◌*◌, ◌/◌, ◌^◌, ◌≤◌, ◌<◌, ◌≡◌, ◌∙◌, ap, some, arith, subst, sym,
}
use stellar_tipjar_contracts.Common.Int.{ℤ, pos, sub_i128, mul_i128, checked_div}
use stellar_tipjar_contracts.Common.Map.{get, get-set}
use stellar_tipjar_contracts.Common.Words.{sub_i128-pos, mul_i128-pos, checked_div-pos}
use stellar_tipjar_contracts.Soroban.{Address, Env, After, After-map, ◌>>=◌, ◌>>◌}
use stellar_tipjar_contracts.Amm.{
  LiquidityPool, Pools, get_pool, save_pool, settle_rewards, set_lp_shares, set_provider_debt,
}
use stellar_tipjar_contracts.Amm.Pool.{remove_liquidity}

-- A stored pool, its reserves and its shares as numbers.
pub record IsFunded (pool_id : ℕ) (s : Pools) (p : LiquidityPool) (ra rb total : ℕ) : Type 0 where
  pub stored : get pool_id s.amm_pool ≡ some p
  pub same_id : p.pool_id ≡ pool_id
  pub is_a : p.reserve_a ≡ pos ra
  pub is_b : p.reserve_b ≡ pos rb
  pub is_total : p.total_shares ≡ pos total

-- The reserves behind one share have not fallen: ra / total ≤ ra' / total', and likewise for b.
abbrev pub KeepsWorth : ℕ → ℕ → ℕ → ℕ → Pools → Type 0
KeepsWorth pool_id ra rb total t =
    (q : LiquidityPool) × (ra' : ℕ) × (rb' : ℕ) × (total' : ℕ) × IsFunded pool_id t q ra' rb' total'
    × (ra * total' ≤ ra' * total)
    × (rb * total' ≤ rb' * total)

worth_rest : (r a m h : ℕ) → a * (m + h) ≤ h * (r + a) → (r + a) * m ≤ r * (m + h)
worth_rest r a m h k = omega (arith, k)

part-le : (h reserve total : ℕ) → h ≤ total → h * reserve / total ≤ reserve
part-le h reserve total k = div-le_of_le-mul total (mul-le-mul_right reserve k)

-- What is paid for `h` shares leaves every other share its worth.
part-keeps :
    (h reserve total : ℕ)
    → h ≤ total
    → reserve * (total - h) ≤ (reserve - h * reserve / total) * total
part-keeps h reserve total k =
    let a = h * reserve / total in
    let e : reserve - a + a ≡ reserve = omega (arith, part-le h reserve total k) in
    let f : total - h + h ≡ total = omega (arith, k) in
    let m : a * (total - h + h) ≤ h * (reserve - a + a) =
      subst (λ x. a * x ≤ h * (reserve - a + a)) (sym f)
        (subst (λ x. a * total ≤ h * x) (sym e) (div-mul-le_self (h * reserve) total)) in
    subst (λ x. reserve * (total - h) ≤ (reserve - a) * x) f
      (subst (λ x. x * (total - h) ≤ (reserve - a) * (total - h + h)) e
        (worth_rest (reserve - a) a (total - h) h m))

pub product-lt : (a b : ℕ) → a < 2 ^ 62 → b < 2 ^ 62 → a * b < 2 ^ 124
product-lt a b h k =
    let bound : a * b ≤ 2 ^ 62 * b = mul-le-mul_right b (omega (arith, h)) in
    omega (arith, bound, k)

-- A part of a reserve, as the code computes it.
pub part-eq :
    (h reserve total : ℕ)
    → 0 < total
    → h < 2 ^ 62
    → reserve < 2 ^ 62
    → checked_div (mul_i128 (pos h) (pos reserve)) (pos total) ≡ some (pos (h * reserve / total))
part-eq h reserve total k l m =
    let small = product-lt h reserve l m in
    rw (mul_i128-pos h reserve (omega (arith, small)))
      (checked_div-pos (h * reserve) total k (omega (arith, small)))

module _ (env : Env) (pool_id : ℕ) (provider : Address) (shares a_min b_min a b : ℤ) (s : Pools)
    (p : LiquidityPool) (stored : get pool_id s.amm_pool ≡ some p) (same_id : p.pool_id ≡ pool_id)
    (part_a : checked_div (mul_i128 shares p.reserve_a) p.total_shares ≡ some a)
    (part_b : checked_div (mul_i128 shares p.reserve_b) p.total_shares ≡ some b) where
  remove_liquidity-stored :
      After
        (λ t.
          get pool_id t.amm_pool
          ≡ some (record p {
            reserve_a = sub_i128 p.reserve_a a;
            reserve_b = sub_i128 p.reserve_b b;
            total_shares = sub_i128 p.total_shares shares;
          }))
        (remove_liquidity env pool_id provider shares a_min b_min s)
  unfolding remove_liquidity settle_rewards get_pool save_pool set_lp_shares set_provider_debt ◌>>=◌
      ◌>>◌
  remove_liquidity-stored =
      let q : LiquidityPool = record p {
        reserve_a = sub_i128 p.reserve_a a;
        reserve_b = sub_i128 p.reserve_b b;
        total_shares = sub_i128 p.total_shares shares;
      } in
      ground (arith, get-set pool_id pool_id q s.amm_pool)

module _ (env : Env) (pool_id : ℕ) (provider : Address) (h : ℕ) (a_min b_min : ℤ) (s : Pools)
    (p : LiquidityPool) (ra rb total : ℕ) (funded : IsFunded pool_id s p ra rb total)
    (within : h ≤ total) (some_total : 0 < total) (word_a : ra < 2 ^ 62) (word_b : rb < 2 ^ 62)
    (word : total < 2 ^ 62) where
  part_of :
      (r : ℤ) (reserve : ℕ)
      → r ≡ pos reserve
      → reserve < 2 ^ 62
      → checked_div (mul_i128 (pos h) r) p.total_shares ≡ some (pos (h * reserve / total))
  part_of r reserve e k =
      rw (e, funded.is_total) (part-eq h reserve total some_total (omega (arith, within, word)) k)

  -- If a removal of no more than all shares returns, where reserves and shares are below 2 ^ 62, the
  -- reserves per share have not fallen for either token.
  pub remove_liquidity-KeepsWorth :
      After
        (KeepsWorth pool_id ra rb total)
        (remove_liquidity env pool_id provider (pos h) a_min b_min s)
  remove_liquidity-KeepsWorth =
      let a = h * ra / total in
      let b = h * rb / total in
      After-map _
        (λ t k. (
          _,
          ra - a,
          rb - b,
          total - h,
          record {
            stored = k;
            same_id = funded.same_id;
            is_a =
                ap (λ z. sub_i128 z (pos a)) funded.is_a
                ∙ sub_i128-pos ra a (part-le h ra total within) (omega (arith, word_a));
            is_b =
                ap (λ z. sub_i128 z (pos b)) funded.is_b
                ∙ sub_i128-pos rb b (part-le h rb total within) (omega (arith, word_b));
            is_total =
                ap (λ z. sub_i128 z (pos h)) funded.is_total
                ∙ sub_i128-pos total h within (omega (arith, word));
          },
          part-keeps h ra total within,
          part-keeps h rb total within,
        ))
        (remove_liquidity-stored env pool_id provider (pos h) a_min b_min (pos a) (pos b) s p
          funded.stored funded.same_id (part_of p.reserve_a ra funded.is_a word_a)
          (part_of p.reserve_b rb funded.is_b word_b))
