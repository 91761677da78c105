-- ===== src/CircuitBreaker/Roots.antt =====
-- The ten rounds of `sqrt_approx`, against the root.
use native.Mathlib.Nat.{mul-le-mul_left}
use stellar_tipjar_contracts.Common.{
  ℕ, zero, suc, ◌+◌, ◌*◌, ◌/◌, ◌^◌, ◌≤◌, ◌<◌, ◌≡◌, ◌∙◌, refl, true, false, some, inl, inr, ltb,
  Bool-cases, arith,
}
use stellar_tipjar_contracts.Common.Int.{pos, quot}
use stellar_tipjar_contracts.Common.Words.{add_i128-pos, checked_div-pos}
use stellar_tipjar_contracts.Amm.Sqrt.{
  next, guess-above, guess-pos, guess-le, first_guess, div_self_next,
}
use stellar_tipjar_contracts.CircuitBreaker.Statistics.{approach, sqrt_approx}

-- One round from a guess to the next.
approach-falls :
    (rounds n x y : ℕ)
    → ltb y x ≡ true
    → 0 < y
    → y + n / y < 2 ^ 127
    → n < 2 ^ 127
    → approach (suc rounds) (pos n) (pos x) (pos y)
      ≡ approach rounds (pos n) (pos y) (pos (next n y))
unfolding approach quot
approach-falls rounds n x y falls h k w =
    ground (arith, checked_div-pos n y h w, add_i128-pos y (n / y) k)

approach-stops :
    (rounds n x y : ℕ)
    → ltb y x ≡ false
    → approach (suc rounds) (pos n) (pos x) (pos y) ≡ some (pos x)
unfolding approach
approach-stops rounds n x y stops = ground arith

-- A number halved again and again.
halved : ℕ → ℕ → ℕ
halved zero m = m
halved (suc rounds) m = halved rounds (m / 2)

halved-le : (rounds m : ℕ) → halved rounds m ≤ m
unfolding halved
halved-le zero m = omega arith
halved-le (suc rounds) m = omega (arith, halved-le rounds (m / 2))

-- A guess is at least half of the one before, so some rounds leave at least that share of the first.
approach-share :
    (rounds n x m : ℕ)
    → 0 < x
    → x ≤ n
    → n + 1 < 2 ^ 127
    → n < (x + 1) * (x + 1)
    → m ≤ x
    → (r : ℕ) × (approach rounds (pos n) (pos x) (pos (next n x)) ≡ some (pos r))
      × (n < (r + 1) * (r + 1))
      × (halved rounds m ≤ r)
unfolding approach halved
approach-share zero n x m h k w a l = (x, refl, a, l)
approach-share (suc rounds) n x m h k w a l = elim (Bool-cases (ltb (next n x) x)) [
  | inl falls ↦
      let pos_guess : 0 < next n x = guess-pos n x h k in
      let lower : next n x < x = ground (arith, falls) in
      let (r, e, above, share) =
        approach-share rounds n (next n x) (m / 2) pos_guess (omega (arith, k, lower)) w
          (guess-above n x h) (omega (arith, l)) in
      (
        r,
        approach-falls rounds n x (next n x) falls pos_guess
              (omega (arith, guess-le n (next n x) pos_guess (omega (arith, k, lower)), w))
              (omega (arith, w))
            ∙ e,
        above,
        share,
      )
  | inr stops ↦
      (x, approach-stops rounds n x (next n x) stops, a, omega (arith, halved-le rounds (m / 2), l))
]

sqrt_approx-approach :
    (n : ℕ)
    → 0 < n
    → n + 1 < 2 ^ 127
    → sqrt_approx (pos n) ≡ approach 10 (pos n) (pos n) (pos (next n n))
unfolding sqrt_approx
sqrt_approx-approach n k h = ground (arith, first_guess n h, div_self_next n k)

-- A share of a number from 2 ^ 22 on has a square above the number.
many : (n r : ℕ) → 2 ^ 22 ≤ n → n / 1024 ≤ r → 4096 ≤ r
many n r h k = omega arith

share_above : (n r : ℕ) → 2 ^ 22 ≤ n → n / 1024 ≤ r → n < r * r
share_above n r h k = omega (arith, mul-le-mul_left r (many n r h k))

-- From 2 ^ 22 to below the largest number of the word, `sqrt_approx` returns a number whose square is above
-- its argument, and which is a 1024th of it or more.
pub sqrt_approx-far :
    (n : ℕ)
    → 2 ^ 22 ≤ n
    → n + 1 < 2 ^ 127
    → (r : ℕ) × (sqrt_approx (pos n) ≡ some (pos r)) × (n < r * r) × (n / 1024 ≤ r)
unfolding halved
sqrt_approx-far n h w =
    let (r, e, above, share) =
      approach-share 10 n n n (omega (arith, h)) (omega arith) w (omega arith) (omega arith) in
    (
      r,
      sqrt_approx-approach n (omega (arith, h)) w ∙ e,
      share_above n r h (omega (arith, share)),
      omega (arith, share),
    )
