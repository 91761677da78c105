-- ===== src/Amm/Swap/Product.antt =====
-- A swap and the product of the reserves.
use stellar_tipjar_contracts.Common.{
  nat_eq, ℕ, ◌+◌, ◌-◌, ◌*◌, ◌/◌, ◌^◌, ◌≤◌, ◌<◌, ◌≡◌, ◌∙◌, ap, refl, true, false, some, inl, inr,
  nat_beq, Bool-cases, arith,
}
use stellar_tipjar_contracts.Common.Int.{ℤ, pos, sub_i128, add_i128}
use stellar_tipjar_contracts.Common.Map.{get}
use stellar_tipjar_contracts.Common.Words.{
  add_i128-pos, sub_i128-pos, mul_i128-pos, checked_div-pos,
}
use stellar_tipjar_contracts.Soroban.{Address, Env, After, After-map, ok, ◌>>=◌, ◌>>◌}
use stellar_tipjar_contracts.Amm.{LiquidityPool, Pools, max_fee_bps, get_pool, accrue_fee}
use stellar_tipjar_contracts.Amm.Math.{calculate_output, fee_on}
use stellar_tipjar_contracts.Amm.Swap.{side_of, swapped, swap}
use stellar_tipjar_contracts.Amm.Swap.Steps.{out-lt, out-keeps, accrue_fee-same, swap-stored}
use stellar_tipjar_contracts.Amm.Swap.Quotes.{
  exact_out, less_fee, less_fee-eq, fee_on-eq, fee-le, product-lt, calculate_output-eq,
}

-- A pool with something on both sides, and its reserves.
pub record IsLive (pool_id : ℕ) (s : Pools) (p : LiquidityPool) (ra rb : ℕ) : Type 0 where
  pub stored : get pool_id s.amm_pool ≡ some p
  pub same_id : p.pool_id ≡ pool_id
  pub is_a : p.reserve_a ≡ pos ra
  pub is_b : p.reserve_b ≡ pos rb
  pub some_a : 0 < ra
  pub some_b : 0 < rb
  pub rate : p.fee_bps ≤ max_fee_bps

-- What a swap leaves: a live pool, its product no smaller, and its shares as they were.
abbrev pub KeepsProduct : ℕ → LiquidityPool → ℕ → ℕ → Pools → Type 0
KeepsProduct pool_id p ra rb t =
    (q : LiquidityPool) × (ra' : ℕ) × (rb' : ℕ) × IsLive pool_id t q ra' rb'
    × (ra * rb ≤ ra' * rb')
    × (q.total_shares ≡ p.total_shares)

module _ (env : Env) (pool_id : ℕ) (sender : Address) (x : ℕ) (min_amount_out : ℤ) (s : Pools)
    (p : LiquidityPool) (ra rb : ℕ) (live : IsLive pool_id s p ra rb) (word : x < 2 ^ 62)
    (word_a : ra < 2 ^ 62) (word_b : rb < 2 ^ 62) where
  abbrev rest : ℕ
  rest = less_fee x p.fee_bps

  abbrev out : ℕ → ℕ → ℕ
  out rin rout = exact_out rest rin rout

  quoted_for :
      (rin rout : ℕ)
      → 0 < rin
      → 0 < rout
      → rin < 2 ^ 62
      → rout < 2 ^ 62
      → calculate_output (sub_i128 (pos x) (fee_on (pos x) p.fee_bps)) (pos rin) (pos rout) s
        ≡ ok (pos (out rin rout), s)
  quoted_for rin rout h k l m =
      rw (less_fee-eq x p.fee_bps (omega (arith, word)) (omega (arith, live.rate))) (
        calculate_output-eq rest rin rout s h k (omega (arith, word)) (omega (arith, l))
          (omega (arith, m)))

  abbrev moved_a : LiquidityPool
  moved_a = record p {
    reserve_a = add_i128 p.reserve_a (pos x);
    reserve_b = sub_i128 p.reserve_b (pos (out ra rb));
  }

  abbrev moved_b : LiquidityPool
  moved_b = record p {
    reserve_b = add_i128 p.reserve_b (pos x);
    reserve_a = sub_i128 p.reserve_a (pos (out rb ra));
  }

  moved_b-reserves : (moved_b.reserve_a ≡ pos (ra - out rb ra)) × (moved_b.reserve_b ≡ pos (rb + x))
  moved_b-reserves =
      let less = out-lt rest rb ra live.some_b live.some_a in
      (
        ap (λ z. sub_i128 z (pos (out rb ra))) live.is_a
            ∙ sub_i128-pos ra (out rb ra) (omega (arith, less)) (omega (arith, word_a)),
        ap (λ z. add_i128 z (pos x)) live.is_b ∙ add_i128-pos rb x (omega (arith, word_b, word)),
      )

  moved_a-reserves : (moved_a.reserve_a ≡ pos (ra + x)) × (moved_a.reserve_b ≡ pos (rb - out ra rb))
  moved_a-reserves =
      let less = out-lt rest ra rb live.some_a live.some_b in
      (
        ap (λ z. add_i128 z (pos x)) live.is_a ∙ add_i128-pos ra x (omega (arith, word_a, word)),
        ap (λ z. sub_i128 z (pos (out ra rb))) live.is_b
            ∙ sub_i128-pos rb (out ra rb) (omega (arith, less)) (omega (arith, word_b)),
      )

  -- A pool whose reserves hold the product, stored with a fee accrued, is what a swap leaves.
  keeps :
      (m : LiquidityPool) (f : ℤ) (ra' rb' : ℕ) (t : Pools)
      → (m.pool_id ≡ p.pool_id) × (m.total_shares ≡ p.total_shares) × (m.fee_bps ≡ p.fee_bps)
      → (m.reserve_a ≡ pos ra') × (m.reserve_b ≡ pos rb')
      → 0 < ra'
      → 0 < rb'
      → ra * rb ≤ ra' * rb'
      → get pool_id t.amm_pool ≡ some (accrue_fee m f)
      → KeepsProduct pool_id p ra rb t
  keeps m f ra' rb' t same reserves some_a some_b product h =
      let k = accrue_fee-same m f in
      (
        accrue_fee m f,
        ra',
        rb',
        record {
          stored = h;
          same_id = k.0 ∙ same.0 ∙ live.same_id;
          is_a = k.1 ∙ reserves.0;
          is_b = k.2 ∙ reserves.1;
          some_a = some_a;
          some_b = some_b;
          rate = rw (k.4 ∙ same.2) live.rate;
        },
        product,
        k.3 ∙ same.1,
      )

  abbrev charged : ℤ
  charged = fee_on (pos x) p.fee_bps

  abbrev charged_in_a : ℤ
  charged_in_a = pos (x * p.fee_bps / 10_000 * (ra - out rb ra) / (rb + x))

  swapped_a :
      (u : Pools)
      → swapped p true (pos x) (pos (out ra rb)) charged u ≡ ok (accrue_fee moved_a charged, u)
  unfolding swapped
  swapped_a u = refl

  swapped_b :
      (u : Pools)
      → swapped p false (pos x) (pos (out rb ra)) charged u
        ≡ ok (accrue_fee moved_b charged_in_a, u)
  unfolding swapped ◌>>=◌ ◌>>◌
  swapped_b u =
      let fee = x * p.fee_bps / 10_000 in
      let small : fee < 2 ^ 63 =
        omega (arith, fee-le x p.fee_bps (omega (arith, live.rate)), word) in
      let product : fee * (ra - out rb ra) < 2 ^ 127 =
        omega (arith, product-lt fee (ra - out rb ra) small (omega (arith, word_a))) in
      ground (
        arith,
        moved_b-reserves,
        fee_on-eq x p.fee_bps (omega (arith, word)) (omega (arith, live.rate)),
        mul_i128-pos fee (ra - out rb ra) product,
        checked_div-pos (fee * (ra - out rb ra)) (rb + x) (omega (arith, live.some_b)) product,
      )

  module _ (token_in : Address) where
    swap-a :
        nat_beq token_in p.token_a ≡ true
        → After
            (KeepsProduct pool_id p ra rb)
            (swap env pool_id sender token_in (pos x) min_amount_out s)
    unfolding side_of
    swap-a h =
        let less = out-lt rest ra rb live.some_a live.some_b in
        let product = out-keeps x rest ra rb live.some_a live.some_b (omega arith) in
        After-map _
          (λ t.
            keeps moved_a charged (ra + x) (rb - out ra rb) t (refl, refl, refl) moved_a-reserves
              (omega (arith, live.some_a)) (omega (arith, less)) product)
          (swap-stored env pool_id sender token_in (pos x) min_amount_out (pos (out ra rb)) s p
            (accrue_fee moved_a charged)
            (record { reserve_in = pos ra; reserve_out = pos rb; is_a_in = true }) live.stored
            ((accrue_fee-same moved_a charged).0 ∙ live.same_id)
            (ground (arith, h, live.is_a, live.is_b))
            (quoted_for ra rb live.some_a live.some_b word_a word_b) swapped_a)

    swap-b :
        nat_beq token_in p.token_a ≡ false
        → nat_beq token_in p.token_b ≡ true
        → After
            (KeepsProduct pool_id p ra rb)
            (swap env pool_id sender token_in (pos x) min_amount_out s)
    unfolding side_of
    swap-b h k =
        let less = out-lt rest rb ra live.some_b live.some_a in
        let product = out-keeps x rest rb ra live.some_b live.some_a (omega arith) in
        After-map _
          (λ t.
            keeps moved_b charged_in_a (ra - out rb ra) (rb + x) t (refl, refl, refl)
              moved_b-reserves (omega (arith, less)) (omega (arith, live.some_b))
              (omega (arith, product)))
          (swap-stored env pool_id sender token_in (pos x) min_amount_out (pos (out rb ra)) s p
            (accrue_fee moved_b charged_in_a)
            (record { reserve_in = pos rb; reserve_out = pos ra; is_a_in = false }) live.stored
            ((accrue_fee-same moved_b charged_in_a).0 ∙ live.same_id)
            (ground (arith, h, k, live.is_a, live.is_b))
            (quoted_for rb ra live.some_b live.some_a word_b word_a) swapped_b)

    swap-other :
        {P : Pools → Type 0}
        → nat_beq token_in p.token_a ≡ false
        → nat_beq token_in p.token_b ≡ false
        → After P (swap env pool_id sender token_in (pos x) min_amount_out s)
    unfolding side_of swap get_pool ◌>>=◌ ◌>>◌
    swap-other h k = ground (arith, live.stored)

    -- If a swap in a stored pool returns, where input and reserves are below 2 ^ 62, the reserves are
    -- positive and the fee is within its bound: that still holds of the stored pool but for the size, the
    -- product of the reserves has not fallen, and the shares are as before.
    pub swap-KeepsProduct :
        After
          (KeepsProduct pool_id p ra rb)
          (swap env pool_id sender token_in (pos x) min_amount_out s)
    swap-KeepsProduct = elim (Bool-cases (nat_beq token_in p.token_a)) [
      | inl is_a ↦ swap-a is_a
      | inr not_a ↦ elim (Bool-cases (nat_beq token_in p.token_b)) [
        | inl is_b ↦ swap-b not_a is_b
        | inr other ↦ swap-other not_a other
      ]
    ]
