-- ===== src/LimitOrders/Runs.antt =====
-- Sequences of calls of the order book: what they leave of an order that was stored before.
use stellar_tipjar_contracts.Common.{
  nat_eq, ℕ, ◌+◌, ◌<◌, ◌^◌, ◌≡◌, true, some, List, [], ◌∷◌, length, Option-cases, inl, inr, arith,
}
use stellar_tipjar_contracts.Common.Int.{ℤ, fits_i128}
use stellar_tipjar_contracts.Common.Map.{get}
use stellar_tipjar_contracts.Soroban.{
  Address, Env, pure, After, After-bind, ◌>>=◌, ◌>>◌, step, run, step-cases,
}
use stellar_tipjar_contracts.LimitOrders.{
  LimitOrder, Book, Call, place_order, match_order, cancel_order,
}
use stellar_tipjar_contracts.LimitOrders.Changes.{
  count, IsBook, IsKept, IsKept-refl, IsKept-trans, IsChange, IsChange-IsBook, IsChange-IsKept,
  place_order-IsChange, match_order-IsChange, cancel_order-IsChange, match_order-missing,
  cancel_order-missing,
}

-- The calls that change the book, each with its arguments.
pub data OrderCall : Type 0 where
  place : Address → Address → Address → ℤ → ℤ → OrderCall
  match : ℕ → ℤ → OrderCall
  cancel : Address → ℕ → OrderCall

-- A call, without what it returns.
unfoldable pub invoke : Env → OrderCall → Call (Unit {0})
unfolding ◌>>=◌ ◌>>◌
invoke env (place caller token_in token_out amount_in limit_price) = do
  order_id ← place_order env caller token_in token_out amount_in limit_price
  pure tt
invoke env (match order_id price) = match_order env order_id price
invoke env (cancel caller order_id) = cancel_order env caller order_id

-- The amount of an order is an `i128`.
abbrev pub IsTyped : OrderCall → Type 0
IsTyped (place caller token_in token_out amount_in limit_price) = fits_i128 amount_in ≡ true
IsTyped (match order_id price) = Unit
IsTyped (cancel caller order_id) = Unit

abbrev pub AllTyped : List (Env × OrderCall) → Type 0
AllTyped [] = Unit
AllTyped ((env, c) ∷ calls) = IsTyped c × AllTyped calls

module _ (env : Env) (s : Book) (h : IsBook s) where
  invoke-IsChange :
      (c : OrderCall) → IsTyped c → count s + 1 < 2 ^ 64 → After (IsChange s) (invoke env c s)
  unfolding invoke ◌>>=◌ ◌>>◌
  invoke-IsChange (place caller token_in token_out amount_in limit_price) typed small =
      After-bind (IsChange s) (place_order env caller token_in token_out amount_in limit_price)
        (λ order_id. pure tt)
        (place_order-IsChange env s h caller token_in token_out amount_in limit_price typed small)
        (λ order_id t c. record { holds = c })
  invoke-IsChange (match order_id price) typed small = elim (Option-cases (get order_id s.orders)) [
    | inl missing ↦ match_order-missing env s h order_id missing price
    | inr (o, stored) ↦ match_order-IsChange env s h order_id o stored price
  ]
  invoke-IsChange (cancel caller order_id) typed small =
      elim (Option-cases (get order_id s.orders)) [
        | inl missing ↦ cancel_order-missing env s h order_id missing caller
        | inr (o, stored) ↦ cancel_order-IsChange env s h order_id o stored caller
      ]

-- In a book whose orders are in range and under their own ids, which the count covers: after any
-- sequence of placings, fills and cancellations, of which the failing ones are rolled back, an order
-- that was stored is stored with the same terms, the same as it was if it was cancelled, and with its
-- filled part as it was or, where that was below the amount, the whole amount. The amounts that are
-- placed fit their word, and the ids do not overflow.
pub run-IsKept :
    (calls : List (Env × OrderCall)) (s : Book) (j : ℕ) (o : LimitOrder)
    → IsBook s
    → AllTyped calls
    → count s + length calls < 2 ^ 64
    → get j s.orders ≡ some o
    → (p : LimitOrder) × (get j (run invoke calls s).orders ≡ some p) × IsKept o p
unfolding run
run-IsKept [] s j o h typed small stored = (o, stored, IsKept-refl o)
run-IsKept ((env, c) ∷ calls) s j o h typed small stored =
    elim (step-cases invoke (IsChange s) env c s
      (invoke-IsChange env s h c typed.0 (omega (arith, small)))) [
        | inl same ↦ rw (run, same) (run-IsKept calls s j o h typed.1 (omega (arith, small)) stored)
        | inr k ↦
            let (p, now, kept) = IsChange-IsKept s _ k j o stored in
            let (q, later, kept_later) =
              run-IsKept calls (step invoke (env, c) s) j p (IsChange-IsBook s _ k h) typed.1
                (omega (arith, small, k.counted.1)) now in
            (q, later, IsKept-trans o p q kept kept_later)
      ]
