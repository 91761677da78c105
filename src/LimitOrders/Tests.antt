-- ===== src/LimitOrders/Tests.antt =====
-- Runs of the order book at concrete inputs.
use stellar_tipjar_contracts.Common.{
  nat_eq, pair_eq, List, Bool-cases, inl, inr, ◌≡◌, refl, true, false, not, some, [], ◌∷◌, nat_beq,
  arith,
}
use stellar_tipjar_contracts.Common.Int.{pos, fits_i128}
use stellar_tipjar_contracts.Common.Map.{get}
use stellar_tipjar_contracts.Soroban.{Address, Env, After, custody, err, panic, run}
use stellar_tipjar_contracts.LimitOrders.{
  LimitOrder, Book, already_cancelled, already_filled, match_order, cancel_order,
}
use stellar_tipjar_contracts.LimitOrders.Laws.{IsOrder, closed-calls_later}
use stellar_tipjar_contracts.LimitOrders.Changes.{IsBook, IsKept}
use stellar_tipjar_contracts.LimitOrders.Runs.{OrderCall, place, match, cancel, invoke, run-IsKept}

abbrev everyone : Env
everyone = record {
  sequence = 1;
  timestamp = 0;
  authorized = λ who. not (nat_beq who 0);
  this = 0;
  accepts = λ t. true;
}

abbrev order : LimitOrder
order = record {
  id = 1;
  owner = 3;
  token_in = 5;
  token_out = 6;
  amount_in = pos 1000;
  limit_price = pos 20;
  filled = pos 0;
  cancelled = false;
}

abbrev one_order : Book
one_order = record {
  orders = (1, order) ∷ [];
  order_count = some 1;
  order_book = ((5, 6), 1 ∷ []) ∷ [];
  log = [];
}

order-IsOrder : IsOrder order
unfolding fits_i128
order-IsOrder = record { amount = (omega arith, refl); nonneg = omega arith; within = omega arith }

order_stored : get 1 one_order.orders ≡ some order
unfolding get
order_stored = refl

one_order-IsBook : IsBook one_order
unfolding get
one_order-IsBook = record {
  entries = λ j. elim (Bool-cases (nat_beq 1 j)) [
    | inl same ↦ rw same (ground (arith, same), order-IsOrder, ground (arith, same))
    | inr other ↦ rw other tt
  ];
}

-- The order is filled, a second one is placed, and the first is cancelled.
abbrev calls : List (Env × OrderCall)
calls =
    (everyone, match 1 (pos 10))
    ∷ (everyone, place 4 6 5 (pos 70) (pos 3))
    ∷ (everyone, cancel 3 1)
    ∷ []

run-IsKept_example :
    (p : LimitOrder) × (get 1 (run invoke calls one_order).orders ≡ some p) × IsKept order p
unfolding fits_i128
run-IsKept_example =
    run-IsKept calls one_order 1 order one_order-IsBook (tt, (refl, (tt, tt))) (omega arith)
      order_stored

closed-calls_later_example :
    After
      (λ t.
        (match_order everyone 1 (pos 10) t ≡ err (panic already_filled))
        × After
            (λ u. (asset who : Address) → custody asset who u.log ≡ custody asset who t.log)
            (cancel_order everyone 3 1 t))
      (match_order everyone 1 (pos 10) one_order)
    × After
        (λ t. match_order everyone 1 (pos 10) t ≡ err (panic already_cancelled))
        (cancel_order everyone 3 1 one_order)
closed-calls_later_example =
    closed-calls_later everyone everyone one_order 1 order order_stored (pos 10) (pos 10) 3 3
      order-IsOrder
