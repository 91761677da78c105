-- ===== src/LimitOrders/Laws.antt =====
-- What one call on an order leaves for the next one.
use stellar_tipjar_contracts.Common.{
  nat_eq, pair_eq, ℕ, ◌≡◌, ◌∙◌, ap, true, false, some, nat_beq, get_or, arith, if◌then◌else◌,
}
use stellar_tipjar_contracts.Common.Int.{
  add_u64, ℤ, pos, ◌+ℤ◌, ◌-ℤ◌, ◌≤ℤ◌, ◌<ℤ◌, ltb_ℤ, int_laws, IsAmount, fits_i128, wrap_i128,
  add_i128, sub_i128, sub_i128-eq,
}
use stellar_tipjar_contracts.Common.Map.{Map, get, set, get-set}
use stellar_tipjar_contracts.Soroban.{
  Address, Env, After, moved, After-map, After-both, custody, err, panic, ◌>>=◌, ◌>>◌,
}
use stellar_tipjar_contracts.LimitOrders.{
  LimitOrder, Book, already_cancelled, already_filled, price_not_met, place_order, match_order,
  cancel_order,
}

-- What a stored order satisfies: its amount is in range, and covers what is filled.
pub record IsOrder (o : LimitOrder) : Type 0 where
  pub amount : IsAmount o.amount_in
  pub nonneg : pos 0 ≤ℤ o.filled
  pub within : o.filled ≤ℤ o.amount_in

wrap_fits : (a : ℤ) → fits_i128 a ≡ true → wrap_i128 a ≡ a
unfolding wrap_i128 fits_i128
wrap_fits a h = ground arith

minus_plus : (a f : ℤ) → f +ℤ (a -ℤ f) ≡ a
minus_plus a f = omega int_laws

pub add_rest :
    (o : LimitOrder) → IsOrder o → add_i128 o.filled (sub_i128 o.amount_in o.filled) ≡ o.amount_in
unfolding add_i128
add_rest o h =
    rw
      (sub_i128-eq o.amount_in o.filled h.amount h.nonneg h.within, minus_plus o.amount_in o.filled)
      (wrap_fits o.amount_in h.amount.1)

minus_self : (a : ℤ) → a -ℤ a ≡ pos 0
minus_self a = omega int_laws

sub_self : (a : ℤ) → IsAmount a → sub_i128 a a ≡ pos 0
sub_self a h = sub_i128-eq a a h h.0 (omega arith) ∙ minus_self a

module _ (env later : Env) (s : Book) (order_id : ℕ) (o : LimitOrder)
    (stored : get order_id s.orders ≡ some o) where
  -- If a stored order is cancelled, a fill fails at any price: it is cancelled already.
  pub cancel_order-match_order :
      (caller : Address) (price : ℤ)
      → After
          (λ t. match_order later order_id price t ≡ err (panic already_cancelled))
          (cancel_order env caller order_id s)
  unfolding cancel_order match_order ◌>>=◌ ◌>>◌
  cancel_order-match_order caller price =
      ground (arith, get-set order_id order_id (record o { cancelled = true }) s.orders)

  -- If a stored order in range is filled, a second fill fails: the price is not met, or the order is
  -- filled already.
  pub match_order-match_order :
      (price price_later : ℤ)
      → IsOrder o
      → After
          (λ t.
            match_order later order_id price_later t
            ≡ err
                (panic (if ltb_ℤ o.limit_price price_later then price_not_met else already_filled)))
          (match_order env order_id price s)
  unfolding match_order ◌>>=◌ ◌>>◌
  match_order-match_order price price_later h = ground (
    arith,
    add_rest o h,
    sub_self o.amount_in h.amount,
    get-set order_id order_id
        (record o { filled = add_i128 o.filled (sub_i128 o.amount_in o.filled) }) s.orders,
  )

  -- If a stored order in range is filled and then cancelled, the cancellation moves no tokens.
  pub match_order-cancel_order :
      (price : ℤ) (caller : Address)
      → IsOrder o
      → After
          (λ t.
            After
              (λ u. (asset who : Address) → custody asset who u.log ≡ custody asset who t.log)
              (cancel_order later caller order_id t))
          (match_order env order_id price s)
  unfolding match_order cancel_order ◌>>=◌ ◌>>◌
  match_order-cancel_order price caller h = ground (
    arith,
    add_rest o h,
    sub_self o.amount_in h.amount,
    get-set order_id order_id
        (record o { filled = add_i128 o.filled (sub_i128 o.amount_in o.filled) }) s.orders,
  )

  -- If a stored order in range is filled, a second fill fails, since the price is not met or the order is
  -- filled already, and a cancellation moves no tokens; if it is cancelled, a fill fails at any price.
  pub closed-calls_later :
      (price price_later : ℤ) (caller canceller : Address)
      → IsOrder o
      → After
          (λ t.
            (match_order later order_id price_later t
              ≡ err (
                  panic
                    (if ltb_ℤ o.limit_price price_later then price_not_met else already_filled)))
            × After
                (λ u. (asset who : Address) → custody asset who u.log ≡ custody asset who t.log)
                (cancel_order later caller order_id t))
          (match_order env order_id price s)
        × After
            (λ t. match_order later order_id price_later t ≡ err (panic already_cancelled))
            (cancel_order env canceller order_id s)
  closed-calls_later price price_later caller canceller h = (
    After-both _ (match_order-match_order price price_later h)
        (match_order-cancel_order price caller h),
    cancel_order-match_order canceller price_later,
  )

-- What placing an order has done: it holds the amount, under an id of its own.
record IsPlaced (env : Env) (caller token_in token_out : Address) (amount_in limit_price : ℤ)
    (order_id : ℕ) (s t : Book) : Type 0 where
  pub now_stored :
      (j : ℕ)
      → get j t.orders ≡ (
          if nat_beq order_id j
          then some (record {
            id = order_id;
            owner = caller;
            token_in = token_in;
            token_out = token_out;
            amount_in = amount_in;
            limit_price = limit_price;
            filled = pos 0;
            cancelled = false;
          })
          else get j s.orders)
  pub now_counted : t.order_count ≡ some order_id
  pub now_held : custody token_in env.this t.log ≡ custody token_in env.this s.log +ℤ amount_in
  pub positive : pos 0 <ℤ amount_in

module _ (env : Env) (s : Book) (caller token_in token_out : Address)
    (amount_in limit_price : ℤ) where
  -- An order that is placed is stored untouched under the next id, and its amount is held.
  abbrev new_id : ℕ
  new_id = add_u64 (get_or 0 s.order_count) 1

  abbrev new_order : LimitOrder
  new_order = record {
    id = new_id;
    owner = caller;
    token_in = token_in;
    token_out = token_out;
    amount_in = amount_in;
    limit_price = limit_price;
    filled = pos 0;
    cancelled = false;
  }

  pub place_order-fields :
      After
        (λ t.
          (t.orders ≡ set new_id new_order s.orders)
          × (t.order_count ≡ some new_id)
          × (custody token_in env.this t.log
              ≡ custody token_in env.this s.log
                +ℤ moved token_in env.this (record {
                  asset = token_in;
                  sender = caller;
                  recipient = env.this;
                  amount = amount_in;
                }))
          × (pos 0 <ℤ amount_in))
        (place_order env caller token_in token_out amount_in limit_price s)
  unfolding place_order ◌>>=◌ ◌>>◌
  place_order-fields = ground arith

  moved_in :
      nat_beq caller env.this ≡ false
      → moved token_in env.this
          (record { asset = token_in; sender = caller; recipient = env.this; amount = amount_in })
        ≡ amount_in
  moved_in other =
      let here : nat_beq env.this env.this ≡ true = ground arith in
      let same : nat_beq token_in token_in ≡ true = ground arith in
      rw (same, here, other) (omega int_laws)

  -- If an order is placed by another address than the contract, it is stored untouched under the next
  -- id, every other id keeps its order, the count is that id, and the contract holds the amount, which
  -- is positive.
  place_order-IsPlaced :
      nat_beq caller env.this ≡ false
      → After
          (IsPlaced env caller token_in token_out amount_in limit_price
            (add_u64 (get_or 0 s.order_count) 1)
            s)
          (place_order env caller token_in token_out amount_in limit_price s)
  place_order-IsPlaced other =
      After-map _
        (λ t (a, b, c, d). record {
          now_stored =
              λ j. ap (λ (m : Map ℕ LimitOrder). get j m) a ∙ get-set j new_id new_order s.orders;
          now_counted = b;
          now_held = c ∙ ap (λ (x : ℤ). custody token_in env.this s.log +ℤ x) (moved_in other);
          positive = d;
        })
        place_order-fields
