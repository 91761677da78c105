-- ===== src/Common/Saturating.antt =====
-- Rust's unsigned words `u32` and `u64`, and its operations that stop at a word's bounds.
use Prim.Native.Nat.{ℕ, ◌+◌, ◌-◌, ◌*◌, ◌/◌, ◌%◌, ◌^◌, ◌≤◌}
use mathlib.Core.Option.{Option, none, some}
use native.Mathlib.Omega.{arith}
use stellar_tipjar_contracts.Common.Tests.{leb, nat_beq, if◌then◌else◌}
use stellar_tipjar_contracts.Common.Int.{ℤ, pos, negsuc, ◌+ℤ◌, ◌*ℤ◌, i128_max}

abbrev pub u32_max : ℕ
u32_max = 4_294_967_295

abbrev pub u64_max : ℕ
u64_max = 18_446_744_073_709_551_615

-- `a.min(b)` and `a.max(b)`
unfoldable pub min : ℕ → ℕ → ℕ
min a b = if leb a b then a else b

unfoldable pub max : ℕ → ℕ → ℕ
max a b = if leb a b then b else a

-- `saturating_add` and `saturating_mul` of a word whose largest number is `top`. `saturating_sub` is
-- the subtraction of ℕ.
unfoldable pub saturating_add : ℕ → ℕ → ℕ → ℕ
unfolding min
saturating_add top a b = min (a + b) top

unfoldable pub saturating_mul : ℕ → ℕ → ℕ → ℕ
unfolding min
saturating_mul top a b = min (a * b) top

-- Plain `-` and `*`, which wrap.
unfoldable pub sub_u32 : ℕ → ℕ → ℕ
sub_u32 a b = (a + (2 ^ 32 - b)) % 2 ^ 32

unfoldable pub mul_u32 : ℕ → ℕ → ℕ
mul_u32 a b = (a * b) % 2 ^ 32

unfoldable pub sub_u64 : ℕ → ℕ → ℕ
sub_u64 a b = (a + (2 ^ 64 - b)) % 2 ^ 64

unfoldable pub mul_u64 : ℕ → ℕ → ℕ
mul_u64 a b = (a * b) % 2 ^ 64

-- `/`, which traps at 0.
abbrev pub div_or_trap : ℕ → ℕ → Option ℕ
div_or_trap a b = if nat_beq b 0 then none else some (a / b)

-- An integer brought into the bounds of `i128`.
unfoldable pub clamp_i128 : ℤ → ℤ
unfolding i128_max
clamp_i128 (pos n) = if leb n i128_max then pos n else pos i128_max
clamp_i128 (negsuc n) = if leb n i128_max then negsuc n else negsuc i128_max

unfoldable pub saturating_add_i128 : ℤ → ℤ → ℤ
saturating_add_i128 a b = clamp_i128 (a +ℤ b)

unfoldable pub saturating_mul_i128 : ℤ → ℤ → ℤ
saturating_mul_i128 a b = clamp_i128 (a *ℤ b)

-- What `min` and `max` give, for `omega` with them shut.
pub min_le : (a b : ℕ) → (min a b ≤ a) × (min a b ≤ b)
unfolding min
min_le a b = ground arith

pub max_le : (a b : ℕ) → (a ≤ max a b) × (b ≤ max a b)
unfolding max
max_le a b = ground arith
