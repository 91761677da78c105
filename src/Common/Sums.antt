-- ===== src/Common/Sums.antt =====
-- The sum of a number of every stored entry, and the total of it that a contract keeps as a word.
use stellar_tipjar_contracts.Common.Tests.{Eq, get_or, Option-cases}
use stellar_tipjar_contracts.Common.Int.{
  ℤ, pos, ◌+ℤ◌, ◌-ℤ◌, wrap_i128, add_i128, sub_i128, int_laws, parts_of_eq,
}
use stellar_tipjar_contracts.Common.Map.{Map, get, set, sum, sum-set_counted}
use stellar_tipjar_contracts.Common.Words.{wrap-add, wrap-sub}
use mathlib.Core.Path.{◌≡◌, refl, sym, ap, ◌∙◌}
use mathlib.Core.Logic.{inl, inr}
use mathlib.Core.Bool.{true}
use mathlib.Core.Option.{Option, none, some}
use mathlib.Core.List.{[], ◌∷◌}
use native.Mathlib.Omega.{arith}

module _ {V : Type 0} (f : V → ℤ) where
  -- The number of an entry, 0 where there is none.
  abbrev pub number : Option V → ℤ
  number none = pos 0
  number (some v) = f v

module _ {ℓ} {K : Type ℓ} {V : Type 0} (f : V → ℤ) where
  -- The numbers, under the entries' keys.
  unfoldable pub numbers : Map K V → Map K ℤ
  numbers [] = []
  numbers ((k, v) ∷ m) = (k, f v) ∷ numbers m

  unfoldable pub total : Map K V → ℤ
  total m = sum (λ k. true) (numbers m)

module _ {ℓ} {K : Type ℓ} ⦃e : Eq K⦄ {V : Type 0} (f : V → ℤ) (k : K) where
  numbers-set : (v : V) (m : Map K V) → numbers f (set k v m) ≡ set k (f v) (numbers f m)
  unfolding numbers set
  numbers-set v [] = refl
  numbers-set v ((j, w) ∷ m) = ground (arith, numbers-set v m)

  get-numbers :
      (m : Map K V)
      → get k (numbers f m)
        ≡ elim (get k m) as (λ o. Option ℤ) [ none ↦ none | some v ↦ some (f v) ]
  unfolding numbers get
  get-numbers [] = refl
  get-numbers ((j, w) ∷ m) = ground (arith, get-numbers m)

  number-numbers : (m : Map K V) → get_or (pos 0) (get k (numbers f m)) ≡ number f (get k m)
  number-numbers m = elim (Option-cases (get k m)) [
    | inl x ↦ rw (get-numbers m, x) refl
    | inr (v, x) ↦ rw (get-numbers m, x) refl
  ]

  total-set : (v : V) (m : Map K V) → total f (set k v m) +ℤ number f (get k m) ≡ total f m +ℤ f v
  unfolding total
  total-set v m =
      rw (numbers-set v m, ← number-numbers m)
        (sum-set_counted (λ k. true) k (f v) (numbers f m) refl)

  -- An entry is stored instead of another one, with any other number.
  module _ (m : Map K V) (old new : V) (stored : get k m ≡ some old) where
    total-replace : total f (set k new m) ≡ (total f m -ℤ f old) +ℤ f new
    total-replace =
        let d : total f (set k new m) +ℤ f old ≡ total f m +ℤ f new =
          rw stored at (total-set new m) in
        omega (int_laws, parts_of_eq d)

    -- The word from which the old number is taken, and to which the new one is added; the word may
    -- leave out some number `b`.
    pub total-replace_word :
        (b : ℤ)
        → add_i128 (sub_i128 (wrap_i128 (total f m -ℤ b)) (f old)) (f new)
          ≡ wrap_i128 (total f (set k new m) -ℤ b)
    unfolding add_i128 sub_i128
    total-replace_word b =
        let d : ((total f m -ℤ b) -ℤ f old) +ℤ f new ≡ total f (set k new m) -ℤ b =
          omega (int_laws, parts_of_eq total-replace) in
        rw (wrap-sub (total f m -ℤ b) (f old), wrap-add ((total f m -ℤ b) -ℤ f old) (f new), d) refl

    pub total-clear_word :
        (b : ℤ)
        → f new ≡ pos 0
        → sub_i128 (wrap_i128 (total f m -ℤ b)) (f old) ≡ wrap_i128 (total f (set k new m) -ℤ b)
    unfolding sub_i128
    total-clear_word b z =
        let d : (total f m -ℤ b) -ℤ f old ≡ total f (set k new m) -ℤ b =
          omega (int_laws, parts_of_eq total-replace, parts_of_eq z) in
        rw (wrap-sub (total f m -ℤ b) (f old), d) refl

    -- The number that is stored is as before.
    pub total-keep : f new ≡ f old → total f (set k new m) ≡ total f m
    total-keep z = omega (int_laws, parts_of_eq total-replace, parts_of_eq z)

    -- A difference is added to the number and to the word alike.
    pub total-add_word :
        (d : ℤ)
        → f new ≡ add_i128 (f old) d
        → add_i128 (wrap_i128 (total f m)) d ≡ wrap_i128 (total f (set k new m))
    unfolding add_i128
    total-add_word d z =
        let same : total f m +ℤ d ≡ (f old +ℤ d) +ℤ (total f m -ℤ f old) = omega int_laws in
        let now : wrap_i128 (f old +ℤ d) +ℤ (total f m -ℤ f old) ≡ total f (set k new m) =
          omega (int_laws, parts_of_eq total-replace, parts_of_eq z) in
        wrap-add (total f m) d
        ∙ ap wrap_i128 same
        ∙ sym (wrap-add (f old +ℤ d) (total f m -ℤ f old))
        ∙ ap wrap_i128 now

    pub total-sub_word :
        (d : ℤ)
        → f new ≡ sub_i128 (f old) d
        → sub_i128 (wrap_i128 (total f m)) d ≡ wrap_i128 (total f (set k new m))
    unfolding sub_i128
    total-sub_word d z =
        let same : total f m -ℤ d ≡ (f old -ℤ d) +ℤ (total f m -ℤ f old) = omega int_laws in
        let now : wrap_i128 (f old -ℤ d) +ℤ (total f m -ℤ f old) ≡ total f (set k new m) =
          omega (int_laws, parts_of_eq total-replace, parts_of_eq z) in
        wrap-sub (total f m) d
        ∙ ap wrap_i128 same
        ∙ sym (wrap-add (f old -ℤ d) (total f m -ℤ f old))
        ∙ ap wrap_i128 now

  -- An entry is stored where there was none.
  pub total-insert :
      (m : Map K V) (new : V) → get k m ≡ none → total f (set k new m) ≡ total f m +ℤ f new
  total-insert m new missing =
      let d : total f (set k new m) +ℤ pos 0 ≡ total f m +ℤ f new =
        rw missing at (total-set new m) in
      omega (int_laws, parts_of_eq d)

  pub total-insert_word :
      (m : Map K V) (new : V) (d : ℤ)
      → get k m ≡ none
      → f new ≡ add_i128 (pos 0) d
      → add_i128 (wrap_i128 (total f m)) d ≡ wrap_i128 (total f (set k new m))
  unfolding add_i128
  total-insert_word m new d missing z =
      let same : total f m +ℤ d ≡ (pos 0 +ℤ d) +ℤ total f m = omega int_laws in
      let now : wrap_i128 (pos 0 +ℤ d) +ℤ total f m ≡ total f (set k new m) =
        omega (int_laws, parts_of_eq (total-insert m new missing), parts_of_eq z) in
      wrap-add (total f m) d
      ∙ ap wrap_i128 same
      ∙ sym (wrap-add (pos 0 +ℤ d) (total f m))
      ∙ ap wrap_i128 now
