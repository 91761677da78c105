-- ===== src/Common/Lists.antt =====
-- Lists over the native numbers: the length, and the scans that the contracts write as loops.
use Prim.Native.Nat.{ℕ, suc, ◌+◌, ◌≤◌, ◌<◌}
use mathlib.Core.Path.{◌≡◌, refl}
use mathlib.Core.Bool.{Bool, true, false, ◌||◌}
use mathlib.Core.List.{List, [], ◌∷◌, ◌++◌}
use native.Mathlib.Omega.{arith}
use stellar_tipjar_contracts.Common.Tests.{nat_beq, if◌then◌else◌}

abbrev pub length {ℓ} : {A : Type ℓ} → List A → ℕ
length [] = 0
length (x ∷ xs) = suc (length xs)

pub length-append {ℓ} : {A : Type ℓ} (xs ys : List A) → length (xs ++ ys) ≡ length xs + length ys
length-append [] ys = omega arith
length-append (x ∷ xs) ys = omega (arith, length-append xs ys)

-- Whether the number stands in the list.
unfoldable pub contains : ℕ → List ℕ → Bool
contains a [] = false
contains a (x ∷ xs) = nat_beq x a || contains a xs

-- The list without the number, in order.
unfoldable pub without : ℕ → List ℕ → List ℕ
without a [] = []
without a (x ∷ xs) = if nat_beq x a then without a xs else x ∷ without a xs

-- No number stands in the list twice.
abbrev pub IsDistinct : List ℕ → Type 0
IsDistinct [] = Unit
IsDistinct (x ∷ xs) = (contains x xs ≡ false) × IsDistinct xs

pub one-IsDistinct : (a : ℕ) → IsDistinct (a ∷ [])
unfolding contains
one-IsDistinct a = (refl, tt)

pub contains-append :
    (a : ℕ) (xs ys : List ℕ) → contains a (xs ++ ys) ≡ (contains a xs || contains a ys)
unfolding contains
contains-append a [] ys = refl
contains-append a (x ∷ xs) ys = ground (arith, contains-append a xs ys)

pub contains-without :
    (a b : ℕ) (xs : List ℕ)
    → contains b (without a xs) ≡ (if nat_beq a b then false else contains b xs)
unfolding contains without
contains-without a b [] = ground arith
contains-without a b (x ∷ xs) = ground (arith, contains-without a b xs)

pub length-without-le : (a : ℕ) (xs : List ℕ) → length (without a xs) ≤ length xs
unfolding without
length-without-le a [] = omega arith
length-without-le a (x ∷ xs) = ground (arith, length-without-le a xs)

pub length-without-lt :
    (a : ℕ) (xs : List ℕ) → contains a xs ≡ true → length (without a xs) < length xs
unfolding contains without
length-without-lt a [] h = ground arith
length-without-lt a (x ∷ xs) h = ground (arith, length-without-lt a xs, length-without-le a xs)

pub append-IsDistinct :
    (a : ℕ) (xs : List ℕ) → IsDistinct xs → contains a xs ≡ false → IsDistinct (xs ++ a ∷ [])
unfolding contains
append-IsDistinct a [] d h = (refl, tt)
append-IsDistinct a (x ∷ xs) d h =
    ground (arith, append-IsDistinct a xs d.1, contains-append x xs (a ∷ []))

pub without-IsDistinct : (a : ℕ) (xs : List ℕ) → IsDistinct xs → IsDistinct (without a xs)
unfolding without
without-IsDistinct a [] d = tt
without-IsDistinct a (x ∷ xs) d =
    ground (arith, without-IsDistinct a xs d.1, contains-without a x xs)
