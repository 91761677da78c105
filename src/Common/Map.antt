-- ===== src/Common/Map.antt =====
-- Contract storage as finite maps: association lists with the host's `get`, `set` and `remove`.
use stellar_tipjar_contracts.Common.Tests.{Eq, ◌==◌, if◌then◌else◌, get_or, Bool-cases}
use stellar_tipjar_contracts.Common.Int.{
  ℤ, pos, ◌+ℤ◌, ◌≤ℤ◌, int_laws, parts_of_eq, IsAmount, IsAmount-zero,
}
use mathlib.Core.Path.{◌≡◌, refl, ap, ◌∙◌}
use mathlib.Core.Logic.{inl, inr}
use mathlib.Core.Bool.{Bool, true, false}
use mathlib.Core.Option.{Option, none, some}
use mathlib.Core.List.{List, [], ◌∷◌}
use native.Mathlib.Omega.{arith}

abbrev pub Map {ℓ κ} : Type ℓ → Type κ → Type (ℓ ⊔ κ)
Map K V = List (K × V)

module _ {ℓ κ} {K : Type ℓ} {V : Type κ} ⦃e : Eq K⦄ where
  unfoldable pub get : K → Map K V → Option V
  get k [] = none
  get k ((j, v) ∷ m) = if j == k then some v else get k m

  unfoldable pub set : K → V → Map K V → Map K V
  set k v [] = (k, v) ∷ []
  set k v ((j, w) ∷ m) = if j == k then (k, v) ∷ m else (j, w) ∷ set k v m

  unfoldable pub remove : K → Map K V → Map K V
  remove k [] = []
  remove k ((j, w) ∷ m) = if j == k then remove k m else (j, w) ∷ remove k m

  pub get-set :
      (j k : K) (v : V) (m : Map K V) → get j (set k v m) ≡ (if k == j then some v else get j m)
  unfolding get set
  get-set j k v [] = refl
  get-set j k v ((i, w) ∷ m) =
      ground (arith, get-set j k v m, e.equals_iff i k, e.equals_iff i j, e.equals_iff k j)

  pub get-remove : (j k : K) (m : Map K V) → get j (remove k m) ≡ (if k == j then none else get j m)
  unfolding get remove
  get-remove j k [] = ground arith
  get-remove j k ((i, w) ∷ m) =
      ground (arith, get-remove j k m, e.equals_iff i k, e.equals_iff i j, e.equals_iff k j)

-- What every value of the map satisfies.
abbrev pub AllValues {ℓ κ ι} : {K : Type ℓ} {V : Type κ} → (V → Type ι) → Map K V → Type ι
AllValues P [] = Unit
AllValues P ((k, v) ∷ m) = P v × AllValues P m

module _ {ℓ κ ι} {K : Type ℓ} {V : Type κ} ⦃e : Eq K⦄ (P : V → Type ι) where
  pub get-AllValues : (d : V) (k : K) (m : Map K V) → P d → AllValues P m → P (get_or d (get k m))
  unfolding get
  get-AllValues d k [] p h = p
  get-AllValues d k ((j, w) ∷ m) p h = elim (Bool-cases (j == k)) [
    | inl same ↦ rw same h.0
    | inr other ↦ rw other (get-AllValues d k m p h.1)
  ]

  pub set-AllValues : (k : K) (v : V) (m : Map K V) → P v → AllValues P m → AllValues P (set k v m)
  unfolding set
  set-AllValues k v [] n h = (n, tt)
  set-AllValues k v ((j, w) ∷ m) n h = elim (Bool-cases (j == k)) [
    | inl same ↦ rw same (n, h.1)
    | inr other ↦ rw other (h.0, set-AllValues k v m n h.1)
  ]

  pub remove-AllValues : (k : K) (m : Map K V) → AllValues P m → AllValues P (remove k m)
  unfolding remove
  remove-AllValues k [] h = tt
  remove-AllValues k ((j, w) ∷ m) h = elim (Bool-cases (j == k)) [
    | inl same ↦ rw same (remove-AllValues k m h.1)
    | inr other ↦ rw other (h.0, remove-AllValues k m h.1)
  ]

-- The sum of the entries whose key passes a test.
module _ {ℓ} {K : Type ℓ} (p : K → Bool) where
  unfoldable pub sum : Map K ℤ → ℤ
  sum [] = pos 0
  sum ((k, v) ∷ m) = (if p k then v else pos 0) +ℤ sum m

  pub sum-empty : sum [] ≡ pos 0
  unfolding sum
  sum-empty = refl

  pub sum-nonneg : (m : Map K ℤ) → AllValues IsAmount m → pos 0 ≤ℤ sum m
  unfolding sum
  sum-nonneg [] h = omega arith
  sum-nonneg ((j, w) ∷ m) h = elim (Bool-cases (p j)) [
    | inl counted ↦ rw counted (omega (int_laws, sum-nonneg m h.1, h.0.0))
    | inr skipped ↦ rw skipped (omega (int_laws, sum-nonneg m h.1, h.0.0))
  ]

module _ {ℓ} {K : Type ℓ} ⦃e : Eq K⦄ (p : K → Bool) where
  pub sum-set_counted :
      (k : K) (v : ℤ) (m : Map K ℤ)
      → p k ≡ true
      → sum p (set k v m) +ℤ get_or (pos 0) (get k m) ≡ sum p m +ℤ v
  unfolding sum set get
  sum-set_counted k v [] h = rw h (omega int_laws)
  sum-set_counted k v ((j, w) ∷ m) h = elim (Bool-cases (j == k)) [
    | inl same ↦ rw (same, h, ap p ((e.equals_iff j k).0 same) ∙ h) (omega int_laws)
    | inr other ↦ rw other (omega (int_laws, parts_of_eq (sum-set_counted k v m h)))
  ]

  pub sum-set_skipped : (k : K) (v : ℤ) (m : Map K ℤ) → p k ≡ false → sum p (set k v m) ≡ sum p m
  unfolding sum set
  sum-set_skipped k v [] h = rw h (omega int_laws)
  sum-set_skipped k v ((j, w) ∷ m) h = elim (Bool-cases (j == k)) [
    | inl same ↦ rw (same, h, ap p ((e.equals_iff j k).0 same) ∙ h) (omega int_laws)
    | inr other ↦ rw other (omega (int_laws, parts_of_eq (sum-set_skipped k v m h)))
  ]

  -- `remove` takes away every entry of the key, so at least the one that `get` reads.
  pub sum-remove_counted :
      (k : K) (m : Map K ℤ)
      → p k ≡ true
      → AllValues IsAmount m
      → sum p (remove k m) +ℤ get_or (pos 0) (get k m) ≤ℤ sum p m
  unfolding sum remove get
  sum-remove_counted k [] h n = omega int_laws
  sum-remove_counted k ((j, w) ∷ m) h n = elim (Bool-cases (j == k)) [
    | inl same ↦
        rw (same, ap p ((e.equals_iff j k).0 same) ∙ h)
          (omega (
            int_laws,
            sum-remove_counted k m h n.1,
            (get-AllValues IsAmount (pos 0) k m IsAmount-zero n.1).0,
          ))
    | inr other ↦ rw other (omega (int_laws, sum-remove_counted k m h n.1))
  ]
