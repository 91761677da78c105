-- ===== src/Common/Int.antt =====
-- Signed integers over the native numbers, and Rust's `i128` and `u32` arithmetic on them.
use Prim.Native.Nat.{ℕ, suc, ◌+◌, ◌-◌, ◌*◌, ◌/◌, ◌%◌, ◌^◌, ◌≤◌, ◌<◌}
use mathlib.Core.Path.{◌≡◌, refl}
use mathlib.Core.Bool.{Bool, true, ◌&&◌}
use mathlib.Core.Option.{Option, none, some}
use native.Mathlib.Omega.{arith}
use stellar_tipjar_contracts.Common.Tests.{ltb, leb, nat_beq, if◌then◌else◌}

-- `negsuc n` is -(n + 1).
pub data ℤ : Type 0 where
  pos : ℕ → ℤ
  negsuc : ℕ → ℤ

abbrev pub pos_part : ℤ → ℕ
pos_part (pos n) = n
pos_part (negsuc n) = 0

abbrev pub neg_part : ℤ → ℕ
neg_part (pos n) = 0
neg_part (negsuc n) = suc n

-- a - b, as an integer.
abbrev pub sub_ℕ : ℕ → ℕ → ℤ
sub_ℕ a b = if leb b a then pos (a - b) else negsuc (b - a - 1)

infixl 65 ◌+ℤ◌ ◌-ℤ◌
infixl 70 ◌*ℤ◌
infix 50 ◌≤ℤ◌ ◌<ℤ◌
unfoldable pub ◌+ℤ◌ : ℤ → ℤ → ℤ
a +ℤ b = sub_ℕ (pos_part a + pos_part b) (neg_part a + neg_part b)

unfoldable pub ◌-ℤ◌ : ℤ → ℤ → ℤ
a -ℤ b = sub_ℕ (pos_part a + neg_part b) (neg_part a + pos_part b)

unfoldable pub ◌*ℤ◌ : ℤ → ℤ → ℤ
a *ℤ b =
    sub_ℕ (pos_part a * pos_part b + neg_part a * neg_part b)
      (pos_part a * neg_part b + neg_part a * pos_part b)

abbrev pub ◌≤ℤ◌ : ℤ → ℤ → Type 0
a ≤ℤ b = pos_part a + neg_part b ≤ pos_part b + neg_part a

abbrev pub ◌<ℤ◌ : ℤ → ℤ → Type 0
a <ℤ b = pos_part a + neg_part b < pos_part b + neg_part a

abbrev pub ltb_ℤ : ℤ → ℤ → Bool
ltb_ℤ a b = ltb (pos_part a + neg_part b) (pos_part b + neg_part a)

abbrev pub leb_ℤ : ℤ → ℤ → Bool
leb_ℤ a b = leb (pos_part a + neg_part b) (pos_part b + neg_part a)

abbrev pub eqb_ℤ : ℤ → ℤ → Bool
eqb_ℤ a b = nat_beq (pos_part a + neg_part b) (pos_part b + neg_part a)

-- Rust's `/`, which rounds towards zero. A divisor of zero is the caller's to exclude.
unfoldable pub quot : ℤ → ℤ → ℤ
quot a b =
    sub_ℕ (pos_part a / pos_part b + neg_part a / neg_part b)
      (pos_part a / neg_part b + neg_part a / pos_part b)

-- One lemma for each operation lets `omega` work with the operations shut.
pub +ℤ_parts :
    (a b : ℤ)
    → pos_part (a +ℤ b) + neg_part a + neg_part b ≡ neg_part (a +ℤ b) + pos_part a + pos_part b
unfolding ◌+ℤ◌
+ℤ_parts a b = ground arith

pub -ℤ_parts :
    (a b : ℤ)
    → pos_part (a -ℤ b) + neg_part a + pos_part b ≡ neg_part (a -ℤ b) + pos_part a + neg_part b
unfolding ◌-ℤ◌
-ℤ_parts a b = ground arith

pub eq_of_parts : (a b : ℤ) → pos_part a + neg_part b ≡ pos_part b + neg_part a → a ≡ b
eq_of_parts a b h = ground arith

-- To hand an equation of integers to `omega`.
pub parts_of_eq : {a b : ℤ} → a ≡ b → pos_part a + neg_part b ≡ pos_part b + neg_part a
parts_of_eq h = ground arith

pub ruleset int_laws = (arith, +ℤ_parts, -ℤ_parts, eq_of_parts)

-- The bounds of `i128`.
unfoldable pub i128_max : ℕ
i128_max = 2 ^ 127 - 1

unfoldable pub fits_i128 : ℤ → Bool
unfolding i128_max
fits_i128 z = leb_ℤ z (pos i128_max) && leb_ℤ (negsuc i128_max) z

-- What a plain `+`, `-` or `*` leaves in the word: the release profile sets no overflow checks.
unfoldable pub wrap_i128 : ℤ → ℤ
wrap_i128 (pos n) =
    let w = n % 2 ^ 128 in if ltb w (2 ^ 127) then pos w else negsuc (2 ^ 128 - 1 - w)
wrap_i128 (negsuc n) =
    let w = n % 2 ^ 128 in if ltb w (2 ^ 127) then negsuc w else pos (2 ^ 128 - 1 - w)

unfoldable pub sub_i128 : ℤ → ℤ → ℤ
sub_i128 a b = wrap_i128 (a -ℤ b)

-- `+` and `*` on `i128`
unfoldable pub add_i128 : ℤ → ℤ → ℤ
add_i128 a b = wrap_i128 (a +ℤ b)

unfoldable pub mul_i128 : ℤ → ℤ → ℤ
mul_i128 a b = wrap_i128 (a *ℤ b)

-- `checked_add` and `checked_mul`
unfoldable pub checked_add : ℤ → ℤ → Option ℤ
checked_add a b = let c = a +ℤ b in if fits_i128 c then some c else none

unfoldable pub checked_mul : ℤ → ℤ → Option ℤ
checked_mul a b = let c = a *ℤ b in if fits_i128 c then some c else none

-- `checked_div`
unfoldable pub checked_div : ℤ → ℤ → Option ℤ
checked_div a b =
    if eqb_ℤ b (pos 0) then none else (let c = quot a b in if fits_i128 c then some c else none)

-- `a + b` on `u32`, which wraps too.
unfoldable pub add_u32 : ℕ → ℕ → ℕ
add_u32 a b = (a + b) % 2 ^ 32

-- `+` on `u64`
unfoldable pub add_u64 : ℕ → ℕ → ℕ
add_u64 a b = (a + b) % 2 ^ 64

-- An amount of tokens that a word holds.
abbrev pub IsAmount : ℤ → Type 0
IsAmount z = (pos 0 ≤ℤ z) × (fits_i128 z ≡ true)

pub IsAmount-zero : IsAmount (pos 0)
unfolding fits_i128
IsAmount-zero = (omega arith, refl)

pub wrap_i128-eq_self : (z : ℤ) → fits_i128 z ≡ true → wrap_i128 z ≡ z
unfolding fits_i128 wrap_i128
wrap_i128-eq_self (pos n) h = ground arith
wrap_i128-eq_self (negsuc n) h = ground arith

-- The difference of two amounts cannot leave the word.
pub sub_i128-eq : (a b : ℤ) → IsAmount a → pos 0 ≤ℤ b → b ≤ℤ a → sub_i128 a b ≡ a -ℤ b
unfolding sub_i128 fits_i128 wrap_i128 ◌-ℤ◌
sub_i128-eq a b h k l = ground arith

pub sub_i128-IsAmount : (a b : ℤ) → IsAmount a → pos 0 ≤ℤ b → b ≤ℤ a → IsAmount (sub_i128 a b)
unfolding sub_i128 fits_i128 wrap_i128 ◌-ℤ◌
sub_i128-IsAmount a b h k l = ground arith

pub checked_add-eq_some :
    (a b c : ℤ) → checked_add a b ≡ some c → (c ≡ a +ℤ b) × (fits_i128 c ≡ true)
unfolding checked_add
checked_add-eq_some a b c h = ground arith

-- A sum of amounts that is not refused is an amount.
pub checked_add-IsAmount :
    (a b c : ℤ) → checked_add a b ≡ some c → pos 0 ≤ℤ a → pos 0 ≤ℤ b → IsAmount c
checked_add-IsAmount a b c h n k =
    let (e, f) = checked_add-eq_some a b c h in (omega (int_laws, parts_of_eq e), f)

pub add_u32-eq : (a b : ℕ) → a + b < 2 ^ 32 → add_u32 a b ≡ a + b
unfolding add_u32
add_u32-eq a b h = omega arith
