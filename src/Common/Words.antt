-- ===== src/Common/Words.antt =====
-- `i128` arithmetic on numbers from 0 on, which stays in the word below 2 ^ 127.
use Prim.Native.Nat.{ℕ, ◌+◌, ◌-◌, ◌*◌, ◌/◌, ◌^◌, ◌≤◌, ◌<◌}
use mathlib.Core.Path.{◌≡◌}
use mathlib.Core.Option.{some}
use native.Mathlib.Omega.{arith}
use stellar_tipjar_contracts.Common.Int.{
  ℤ, negsuc, pos, ◌+ℤ◌, ◌-ℤ◌, ◌*ℤ◌, quot, i128_max, fits_i128, wrap_i128, add_i128, sub_i128,
  mul_i128, checked_div,
}

wrap_pos : (n : ℕ) → n < 2 ^ 127 → wrap_i128 (pos n) ≡ pos n
unfolding wrap_i128
wrap_pos n h = ground arith

pub add_i128-pos : (a b : ℕ) → a + b < 2 ^ 127 → add_i128 (pos a) (pos b) ≡ pos (a + b)
unfolding add_i128 ◌+ℤ◌
add_i128-pos a b h = ground (arith, wrap_pos (a + b) h)

pub sub_i128-pos : (a b : ℕ) → b ≤ a → a < 2 ^ 127 → sub_i128 (pos a) (pos b) ≡ pos (a - b)
unfolding sub_i128 ◌-ℤ◌
sub_i128-pos a b h k = ground (arith, wrap_pos (a - b))

pub mul_i128-pos : (a b : ℕ) → a * b < 2 ^ 127 → mul_i128 (pos a) (pos b) ≡ pos (a * b)
unfolding mul_i128 ◌*ℤ◌
mul_i128-pos a b h = ground (arith, wrap_pos (a * b) h)

pub checked_div-pos :
    (a b : ℕ) → 0 < b → a < 2 ^ 127 → checked_div (pos a) (pos b) ≡ some (pos (a / b))
unfolding checked_div quot fits_i128 i128_max
checked_div-pos a b h k = grind arith

-- A sum or difference wraps to the same word where its first number has been wrapped before.
pub wrap-add : (a b : ℤ) → wrap_i128 (wrap_i128 a +ℤ b) ≡ wrap_i128 (a +ℤ b)
unfolding wrap_i128 ◌+ℤ◌
wrap-add (pos a) (pos b) = ground arith
wrap-add (pos a) (negsuc b) = ground arith
wrap-add (negsuc a) (pos b) = ground arith
wrap-add (negsuc a) (negsuc b) = ground arith

pub wrap-sub : (a b : ℤ) → wrap_i128 (wrap_i128 a -ℤ b) ≡ wrap_i128 (a -ℤ b)
unfolding wrap_i128 ◌-ℤ◌
wrap-sub (pos a) (pos b) = ground arith
wrap-sub (pos a) (negsuc b) = ground arith
wrap-sub (negsuc a) (pos b) = ground arith
wrap-sub (negsuc a) (negsuc b) = ground arith
