-- ===== src/Amm/Swap/Quotes.antt =====
-- The quotes: what `calculate_output` and `calculate_input_for_output` are on amounts in range, and
-- how they fit together.
use native.Mathlib.Nat.{lt-div-mul-add, le-div_iff_mul-le, mul-le-mul_right, mul-le-mul_left}
use stellar_tipjar_contracts.Common.{ℕ, ◌+◌, ◌-◌, ◌*◌, ◌/◌, ◌^◌, ◌≤◌, ◌<◌, ◌≡◌, ap, arith, subst}
use stellar_tipjar_contracts.Common.Int.{pos, sub_i128, quot}
use stellar_tipjar_contracts.Common.Words.{
  add_i128-pos, sub_i128-pos, mul_i128-pos, checked_div-pos,
}
use stellar_tipjar_contracts.Soroban.{ok, ◌>>=◌, ◌>>◌}
use stellar_tipjar_contracts.Amm.{Pools}
use stellar_tipjar_contracts.Amm.Math.{calculate_output, calculate_input_for_output, fee_on}

-- The constant-product output, without regard to the word's size.
abbrev pub exact_out : ℕ → ℕ → ℕ → ℕ
exact_out y rin rout = y * rout / (rin + y)

-- What is left of an input when the fee is taken.
abbrev pub less_fee : ℕ → ℕ → ℕ
less_fee x fee_bps = x - x * fee_bps / 10_000

pub product-lt : (a b : ℕ) → a < 2 ^ 63 → b < 2 ^ 63 → a * b < 2 ^ 126
product-lt a b h k =
    let bound : a * b ≤ 2 ^ 63 * b = mul-le-mul_right b (omega (arith, h)) in
    omega (arith, bound, k)

pub calculate_output-eq :
    (y rin rout : ℕ) (s : Pools)
    → 0 < rin
    → 0 < rout
    → y < 2 ^ 63
    → rin < 2 ^ 63
    → rout < 2 ^ 63
    → calculate_output (pos y) (pos rin) (pos rout) s ≡ ok (pos (exact_out y rin rout), s)
unfolding calculate_output ◌>>=◌ ◌>>◌
calculate_output-eq y rin rout s h k u v w = ground (
  arith,
  mul_i128-pos y rout (omega (arith, product-lt y rout u w)),
  add_i128-pos rin y (omega (arith, u, v)),
  checked_div-pos (y * rout) (rin + y) (omega (arith, h)) (omega (arith, product-lt y rout u w)),
)

pub fee_on-eq :
    (x fee_bps : ℕ)
    → x < 2 ^ 63
    → fee_bps ≤ 10_000
    → fee_on (pos x) fee_bps ≡ pos (x * fee_bps / 10_000)
unfolding fee_on quot
fee_on-eq x fee_bps h k =
    ground
      (arith, mul_i128-pos x fee_bps (omega (arith, product-lt x fee_bps h (omega (arith, k)))))

pub fee-le : (x fee_bps : ℕ) → fee_bps ≤ 10_000 → x * fee_bps / 10_000 ≤ x
fee-le x fee_bps k = let m : x * fee_bps ≤ x * 10_000 = mul-le-mul_left x k in omega (arith, m)

pub less_fee-eq :
    (x fee_bps : ℕ)
    → x < 2 ^ 63
    → fee_bps ≤ 10_000
    → sub_i128 (pos x) (fee_on (pos x) fee_bps) ≡ pos (less_fee x fee_bps)
less_fee-eq x fee_bps h k =
    rw (fee_on-eq x fee_bps h k)
      (sub_i128-pos x (x * fee_bps / 10_000) (fee-le x fee_bps k) (omega (arith, h)))

-- The input that an output asks for, before and with the fee.
abbrev pub needed : ℕ → ℕ → ℕ → ℕ
needed o rin rout = rin * o / (rout - o) + 1

abbrev pub exact_in : ℕ → ℕ → ℕ → ℕ → ℕ
exact_in o rin rout fee_bps = needed o rin rout * 10_000 / (10_000 - fee_bps) + 1

quotient-ge : (q d : ℕ) → 0 < d → d ≤ 10_000 → q ≤ q * 10_000 / d
quotient-ge q d h k = (le-div_iff_mul-le {x = q} {y = q * 10_000} h).1 (mul-le-mul_left q k)

rest-ge : (x f d q : ℕ) → f + d ≡ 10_000 → q * 10_000 ≤ x * d → q ≤ x - x * f / 10_000
rest-ge x f d q e h = let m : x * (f + d) ≡ x * 10_000 = ap (λ k. x * k) e in omega (arith, m, h)

pays_for : (o rin d y : ℕ) → rin * o ≤ y * d → o * (rin + y) ≤ y * (o + d)
pays_for o rin d y h = omega (arith, h)

module _ (o rin rout fee_bps : ℕ) (less : o < rout) (some_in : 0 < rin)
    (rate : fee_bps < 10_000) where
  needed-lt : needed o rin rout < exact_in o rin rout fee_bps
  needed-lt = omega (
    arith,
    quotient-ge (needed o rin rout) (10_000 - fee_bps) (omega (arith, rate)) (omega arith),
  )

  -- The fee leaves enough of the quoted input.
  less_fee-ge : needed o rin rout ≤ less_fee (exact_in o rin rout fee_bps) fee_bps
  less_fee-ge =
      let l =
        lt-div-mul-add {a = needed o rin rout * 10_000} {b = 10_000 - fee_bps}
          (omega (arith, rate)) in
      rest-ge (exact_in o rin rout fee_bps) fee_bps (10_000 - fee_bps) (needed o rin rout)
        (omega (arith, rate)) (omega (arith, l))

  -- What is needed buys the output.
  exact_out-ge : (y : ℕ) → needed o rin rout ≤ y → o ≤ exact_out y rin rout
  exact_out-ge y h =
      let l = lt-div-mul-add {a = rin * o} {b = rout - o} (omega (arith, less)) in
      let k : needed o rin rout * (rout - o) ≤ y * (rout - o) = mul-le-mul_right (rout - o) h in
      let e : o + (rout - o) ≡ rout = omega (arith, less) in
      (le-div_iff_mul-le {x = o} {y = y * rout} (omega (arith, some_in))).1
        (subst (λ r. o * (rin + y) ≤ y * r) e (pays_for o rin (rout - o) y (omega (arith, l, k))))

  module _ (s : Pools) (some_out : 0 < o) (word_in : rin < 2 ^ 63) (word_out : rout < 2 ^ 63)
      (word : exact_in o rin rout fee_bps < 2 ^ 63) where
    calculate_input_for_output-eq :
        calculate_input_for_output (pos o) (pos rin) (pos rout) fee_bps s
        ≡ ok (pos (exact_in o rin rout fee_bps), s)
    unfolding calculate_input_for_output ◌>>=◌ ◌>>◌
    calculate_input_for_output-eq =
        let small : needed o rin rout < 2 ^ 63 = omega (arith, needed-lt, word) in
        let product : rin * o < 2 ^ 127 =
          omega (arith, product-lt rin o word_in (omega (arith, less, word_out))) in
        ground (
          arith,
          mul_i128-pos rin o product,
          sub_i128-pos rout o (omega (arith, less)) (omega (arith, word_out)),
          checked_div-pos (rin * o) (rout - o) (omega (arith, less)) product,
          add_i128-pos (rin * o / (rout - o)) 1 (omega (arith, small)),
          mul_i128-pos (needed o rin rout) 10_000 (omega (arith, small)),
          sub_i128-pos 10_000 fee_bps (omega (arith, rate)) (omega arith),
          checked_div-pos (needed o rin rout * 10_000) (10_000 - fee_bps) (omega (arith, rate))
              (omega (arith, small)),
          add_i128-pos (needed o rin rout * 10_000 / (10_000 - fee_bps)) 1 (omega (arith, word)),
        )

    -- For an output less than the reserve, a fee less than the whole, and reserves and quote below 2 ^ 63:
    -- the quote is the exact input, and what is left of it after the fee buys the output or more.
    pub calculate_input_for_output-buys :
        (calculate_input_for_output (pos o) (pos rin) (pos rout) fee_bps s
          ≡ ok (pos (exact_in o rin rout fee_bps), s))
        × ((bought : ℕ) × (calculate_output
                (sub_i128
                  (pos (exact_in o rin rout fee_bps))
                  (fee_on (pos (exact_in o rin rout fee_bps)) fee_bps))
                (pos rin)
                (pos rout)
                s
              ≡ ok (pos bought, s))
            × (o ≤ bought))
    calculate_input_for_output-buys = (
      calculate_input_for_output-eq,
      (
        exact_out (less_fee (exact_in o rin rout fee_bps) fee_bps) rin rout,
        rw (less_fee-eq (exact_in o rin rout fee_bps) fee_bps word (omega (arith, rate))) (
            calculate_output-eq (less_fee (exact_in o rin rout fee_bps) fee_bps) rin rout s some_in
              (omega (arith, less)) (omega (arith, word)) word_in word_out),
        exact_out-ge (less_fee (exact_in o rin rout fee_bps) fee_bps) less_fee-ge,
      ),
    )
