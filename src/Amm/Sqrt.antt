-- ===== src/Amm/Sqrt.antt =====
-- `isqrt`: the loop ends, and its result is the root rounded down.
use native.Mathlib.Nat.{mul-le-mul_left, div-mul-le_self, lt-div-mul-add, div_self}
use stellar_tipjar_contracts.Common.{
  ℕ, zero, suc, ◌+◌, ◌-◌, ◌*◌, ◌/◌, ◌^◌, ◌≤◌, ◌<◌, ◌≡◌, ◌∙◌, refl, true, false, some, inl, inr, ltb,
  leb, Bool-cases, subst, arith,
}
use stellar_tipjar_contracts.Common.Int.{pos, add_i128, quot}
use stellar_tipjar_contracts.Common.Words.{add_i128-pos, checked_div-pos}
use stellar_tipjar_contracts.Amm.Math.{newton, isqrt}

-- `r` is the square root of `n`, rounded down.
pub record IsRoot (n r : ℕ) : Type 0 where
  pub below : r * r ≤ n
  pub above : n < (r + 1) * (r + 1)

-- The mean of `y` and the quotient: the next guess.
abbrev pub next : ℕ → ℕ → ℕ
next n y = (y + n / y) / 2

sum_le_product : (a b : ℕ) → 0 < a → 0 < b → a + b ≤ a * b + 1
sum_le_product zero b h k = absurd (omega (arith, h))
sum_le_product (suc a) zero h k = absurd (omega (arith, k))
sum_le_product (suc a) (suc b) h k = omega arith

spread_le : (a b d : ℕ) → b ≤ a + 2 * d → a * b ≤ (a + d) * (a + d)
spread_le a b d h = omega (arith, mul-le-mul_left a h)

low_le_square : (a b c : ℕ) → a + b ≤ 2 * c → a ≤ c → a * b ≤ c * c
low_le_square a b c h k =
    let e : a + (c - a) ≡ c = omega (arith, k) in
    subst (λ m. a * b ≤ m * m) e (spread_le a b (c - a) (omega (arith, h, k)))

-- A product is at most the square of any number from the mean on.
product_le_square : (a b c : ℕ) → a + b ≤ 2 * c → a * b ≤ c * c
product_le_square a b c h = elim (Bool-cases (leb a c)) [
  | inl low ↦ low_le_square a b c h (ground (arith, low))
  | inr high ↦ omega (arith, low_le_square b a c (omega (arith, h)) (ground (arith, high, h)))
]

quotient-pos : (n y : ℕ) → 0 < y → y ≤ n → 0 < n / y
quotient-pos n y h k = grind (arith, lt-div-mul-add {a = n} h)

-- A sum of a guess and the quotient is at most n + 1.
pub guess-le : (n y : ℕ) → 0 < y → y ≤ n → y + n / y ≤ n + 1
guess-le n y h k =
    let product : y * (n / y) ≤ n = omega (arith, div-mul-le_self n y) in
    omega (arith, sum_le_product y (n / y) h (quotient-pos n y h k), product)

-- A guess is not below the root.
pub guess-above : (n x : ℕ) → 0 < x → n < (next n x + 1) * (next n x + 1)
guess-above n x h =
    let product : n < x * (n / x + 1) = omega (arith, lt-div-mul-add {a = n} h) in
    omega (arith, product, product_le_square x (n / x + 1) (next n x + 1) (omega arith))

guess-below : (n x : ℕ) → 0 < x → x ≤ next n x → x * x ≤ n
guess-below n x h k =
    let m : x * x ≤ x * (n / x) = mul-le-mul_left x (omega (arith, k)) in
    omega (arith, m, div-mul-le_self n x)

newton-falls :
    (fuel n x y : ℕ)
    → ltb y x ≡ true
    → 0 < y
    → y + n / y < 2 ^ 127
    → n < 2 ^ 127
    → newton (suc fuel) (pos n) (pos x) (pos y) ≡ newton fuel (pos n) (pos y) (pos (next n y))
unfolding newton quot
newton-falls fuel n x y falls h k w =
    ground (arith, checked_div-pos n y h w, add_i128-pos y (n / y) k)

newton-stops :
    (fuel n x y : ℕ) → ltb y x ≡ false → newton (suc fuel) (pos n) (pos x) (pos y) ≡ some (pos x)
unfolding newton
newton-stops fuel n x y stops = ground arith

pub guess-pos : (n x : ℕ) → 0 < x → x ≤ n → 0 < next n x
guess-pos n x h k = omega (arith, quotient-pos n x h k)

-- With `x` below the fuel, the loop ends at the root.
newton-IsRoot :
    (fuel n x : ℕ)
    → x < fuel
    → 0 < x
    → x ≤ n
    → n + 1 < 2 ^ 127
    → n < (x + 1) * (x + 1)
    → (r : ℕ) × (newton fuel (pos n) (pos x) (pos (next n x)) ≡ some (pos r)) × IsRoot n r
newton-IsRoot zero n x f h k w a = absurd (omega (arith, f))
newton-IsRoot (suc fuel) n x f h k w a = elim (Bool-cases (ltb (next n x) x)) [
  | inl falls ↦
      let pos_guess : 0 < next n x = guess-pos n x h k in
      let lower : next n x < x = ground (arith, falls) in
      let (r, e, root) =
        newton-IsRoot fuel n (next n x) (omega (arith, f, lower)) pos_guess
          (omega (arith, k, lower)) w (guess-above n x h) in
      (
        r,
        newton-falls fuel n x (next n x) falls pos_guess
              (omega (arith, guess-le n (next n x) pos_guess (omega (arith, k, lower)), w))
              (omega (arith, w))
            ∙ e,
        root,
      )
  | inr stops ↦ (
    x,
    newton-stops fuel n x (next n x) stops,
    record { below = guess-below n x h (ground (arith, stops)); above = a },
  )
]

pub first_guess :
    (n : ℕ) → n + 1 < 2 ^ 127 → quot (add_i128 (pos n) (pos 1)) (pos 2) ≡ pos ((n + 1) / 2)
unfolding quot
first_guess n h = ground (arith, add_i128-pos n 1 h)

pub div_self_next : (n : ℕ) → 0 < n → next n n ≡ (n + 1) / 2
div_self_next n h = rw (div_self h) refl

isqrt-newton :
    (n : ℕ)
    → 0 < n
    → n + 1 < 2 ^ 127
    → isqrt (pos n) ≡ newton (suc n) (pos n) (pos n) (pos (next n n))
unfolding isqrt
isqrt-newton n k h = ground (arith, first_guess n h, div_self_next n k)

isqrt-zero : isqrt (pos 0) ≡ some (pos 0)
unfolding isqrt
isqrt-zero = refl

-- Below the largest number of the word, `isqrt` has a result: the square root rounded down.
pub isqrt-IsRoot : (n : ℕ) → n + 1 < 2 ^ 127 → (r : ℕ) × (isqrt (pos n) ≡ some (pos r)) × IsRoot n r
isqrt-IsRoot zero h = (0, isqrt-zero, record { below = omega arith; above = omega arith })
isqrt-IsRoot (suc m) h =
    let (r, e, root) =
      newton-IsRoot (suc (suc m)) (suc m) (suc m) (omega arith) (omega arith) (omega arith) h
        (omega arith) in
    (r, isqrt-newton (suc m) (omega arith) h ∙ e, root)
