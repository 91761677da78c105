-- ===== src/Amm/Math.antt =====
-- The calculations that no storage takes part in: the square root of
-- contracts/tipjar-legacy/src/amm/mod.rs and the quotes of contracts/tipjar-legacy/src/amm/swap.rs.
use stellar_tipjar_contracts.Common.{
  ℕ, zero, suc, true, false, ◌||◌, Option, none, some, if◌then◌else◌,
}
use stellar_tipjar_contracts.Common.Int.{
  ℤ, pos, pos_part, leb_ℤ, ltb_ℤ, eqb_ℤ, add_i128, mul_i128, sub_i128, quot, checked_div,
}
use stellar_tipjar_contracts.Soroban.{pure, or_trap, ◌>>=◌, ◌>>◌}
use stellar_tipjar_contracts.Amm.{Call}

-- The loop of `isqrt`: `while y < x { x = y; y = (x + n / x) / 2; }`. Without fuel it has no result.
unfoldable pub newton : ℕ → ℤ → ℤ → ℤ → Option ℤ
newton zero n x y = none
newton (suc fuel) n x y = elim (ltb_ℤ y x) [
  | true ↦ elim (checked_div n y) [
    | none ↦ none
    | some q ↦ newton fuel n y (quot (add_i128 y q) (pos 2))
  ]
  | false ↦ some x
]

-- `x` falls in every round, so one round for each number from `n` down to 0 is enough.
unfoldable pub isqrt : ℤ → Option ℤ
isqrt n =
    if leb_ℤ n (pos 0)
    then some (pos 0)
    else newton (suc (pos_part n)) n n (quot (add_i128 n (pos 1)) (pos 2))

unfoldable pub calculate_output : ℤ → ℤ → ℤ → Call ℤ
unfolding ◌>>=◌ ◌>>◌
calculate_output amount_in_after_fee reserve_in reserve_out =
    if leb_ℤ amount_in_after_fee (pos 0) || leb_ℤ reserve_in (pos 0) || leb_ℤ reserve_out (pos 0)
    then pure (pos 0)
    else or_trap (
        checked_div (mul_i128 amount_in_after_fee reserve_out)
          (add_i128 reserve_in amount_in_after_fee))

unfoldable pub calculate_input_for_output : ℤ → ℤ → ℤ → ℕ → Call ℤ
unfolding ◌>>=◌ ◌>>◌
calculate_input_for_output amount_out reserve_in reserve_out fee_bps =
    if leb_ℤ amount_out (pos 0) || leb_ℤ reserve_out amount_out || leb_ℤ reserve_in (pos 0)
    then pure (pos 0)
    else do
      quotient ←
          or_trap (checked_div (mul_i128 reserve_in amount_out) (sub_i128 reserve_out amount_out))
      let amount_in_after_fee : ℤ = add_i128 quotient (pos 1)
      amount_in ← or_trap (
          checked_div (mul_i128 amount_in_after_fee (pos 10_000))
            (sub_i128 (pos 10_000) (pos fee_bps)))
      pure (add_i128 amount_in (pos 1))

-- The fee on an input. The divisor is a positive constant.
unfoldable pub fee_on : ℤ → ℕ → ℤ
fee_on amount_in fee_bps = quot (mul_i128 amount_in (pos fee_bps)) (pos 10_000)

-- How far the effective price falls short of the spot price, which `swap` and `price_impact_bps`
-- both compute.
unfoldable pub shortfall_bps : ℤ → ℤ → ℤ → ℤ → Call ℤ
unfolding ◌>>=◌ ◌>>◌
shortfall_bps amount_in amount_out reserve_in reserve_out = do
  spot ← or_trap (checked_div (mul_i128 reserve_out (pos 10_000)) reserve_in)
  effective ← or_trap (checked_div (mul_i128 amount_out (pos 10_000)) amount_in)
  (if ltb_ℤ effective spot
      then or_trap (checked_div (mul_i128 (sub_i128 spot effective) (pos 10_000)) spot)
      else pure (pos 0))

unfoldable pub price_impact_bps : ℤ → ℤ → ℤ → ℕ → Call ℤ
unfolding ◌>>=◌ ◌>>◌
price_impact_bps amount_in reserve_in reserve_out fee_bps =
    if eqb_ℤ reserve_in (pos 0) || eqb_ℤ reserve_out (pos 0) || leb_ℤ amount_in (pos 0)
    then pure (pos 0)
    else do
      let amount_in_after_fee : ℤ = sub_i128 amount_in (fee_on amount_in fee_bps)
      amount_out ← calculate_output amount_in_after_fee reserve_in reserve_out
      (if eqb_ℤ amount_out (pos 0)
          then pure (pos 10_000)
          else shortfall_bps amount_in amount_out reserve_in reserve_out)
