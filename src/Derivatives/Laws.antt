-- ===== src/Derivatives/Laws.antt =====
-- What holds of an order once it is settled, and of the orders that are matched.
use stellar_tipjar_contracts.Common.{
  nat_eq, pair_eq, ℕ, ◌≡◌, ◌∙◌, true, false, not, Bool, Option, none, some, List, [], ◌∷◌, nat_beq,
  inl, inr, Bool-cases, arith, if◌then◌else◌,
}
use stellar_tipjar_contracts.Common.Int.{◌≤ℤ◌}
use stellar_tipjar_contracts.Common.Map.{get, set, get-set}
use stellar_tipjar_contracts.Soroban.{Address, Env, After, err, panic, ◌>>=◌, ◌>>◌}
use stellar_tipjar_contracts.Derivatives.{
  Order, Market, already_settled, skips, first_sell, fill, fill_first, match_from, match_orders,
  settle_order, cancel_order,
}

module _ (env later : Env) (s : Market) (order_id : ℕ) (o : Order)
    (stored : get order_id s.orders ≡ some o) where
  kept :
      get order_id (set order_id (record o { settled = true }) s.orders)
      ≡ some (record o { settled = true })
  kept =
      let same : nat_beq order_id order_id ≡ true = ground arith in
      get-set order_id order_id (record o { settled = true }) s.orders ∙ rw same

  -- If a stored order is settled, a second settlement that its caller signs fails: it is settled already.
  pub settle_order-settle_order :
      (caller other : Address)
      → later.authorized other ≡ true
      → After
          (λ t. settle_order later other order_id t ≡ err (panic already_settled))
          (settle_order env caller order_id s)
  unfolding settle_order ◌>>=◌ ◌>>◌
  settle_order-settle_order caller other signed = ground (arith, kept)

  -- If a stored order is cancelled, a settlement that its caller signs fails: it counts as settled.
  pub cancel_order-settle_order :
      (caller other : Address)
      → later.authorized other ≡ true
      → After
          (λ t. settle_order later other order_id t ≡ err (panic already_settled))
          (cancel_order env caller order_id s)
  unfolding cancel_order settle_order ◌>>=◌ ◌>>◌
  cancel_order-settle_order caller other signed = ground (arith, kept)

  -- If a stored order is settled, or cancelled, a settlement that its caller signs fails: it counts as
  -- settled already.
  pub settle_order-once :
      (caller other : Address)
      → later.authorized other ≡ true
      → After
          (λ t. settle_order later other order_id t ≡ err (panic already_settled))
          (settle_order env caller order_id s)
        × After
            (λ t. settle_order later other order_id t ≡ err (panic already_settled))
            (cancel_order env caller order_id s)
  settle_order-once caller other signed =
      (settle_order-settle_order caller other signed, cancel_order-settle_order caller other signed)

-- Whether the order of an id is settled.
abbrev pub is_settled : Option Order → Bool
is_settled none = false
is_settled (some o) = o.settled

pub fill-is_settled :
    (buy sell : Order) (k : ℕ) (s : Market)
    → is_settled (get k (fill buy sell s).orders) ≡ (
        if nat_beq sell.id k
        then true
        else if nat_beq buy.id k
        then true
        else is_settled (get k s.orders))
unfolding fill
fill-is_settled buy sell k s = ground (
  arith,
  get-set k sell.id (record sell { settled = true })
      (set buy.id (record buy { settled = true }) s.orders),
  get-set k buy.id (record buy { settled = true }) s.orders,
)

module _ (k : ℕ) where
  fill_first-is_settled :
      (buy : Order) (o : Option Order) (s : Market)
      → is_settled (get k s.orders) ≡ true
      → is_settled (get k (fill_first buy o s).orders) ≡ true
  unfolding fill_first
  fill_first-is_settled buy none s h = h
  fill_first-is_settled buy (some sell) s h = ground (arith, fill-is_settled buy sell k s)

  either-is_settled :
      (b : Bool) (s t : Market)
      → is_settled (get k s.orders) ≡ true
      → is_settled (get k t.orders) ≡ true
      → is_settled (get k (if b then s else t).orders) ≡ true
  either-is_settled true s t h l = h
  either-is_settled false s t h l = l

  match_from-is_settled :
      (orders : List Order) (s : Market)
      → is_settled (get k s.orders) ≡ true
      → is_settled (get k (match_from orders s).orders) ≡ true
  unfolding match_from
  match_from-is_settled [] s h = h
  match_from-is_settled (buy ∷ rest) s h = match_from-is_settled rest _ (
      either-is_settled (not buy.is_buy) s (fill_first buy (first_sell buy rest) s) h
        (fill_first-is_settled buy (first_sell buy rest) s h))

-- Matching leaves every order settled that was settled before.
match_orders-is_settled :
    (k : ℕ) (s : Market)
    → is_settled (get k s.orders) ≡ true
    → After (λ t. is_settled (get k t.orders) ≡ true) (match_orders s)
unfolding match_orders
match_orders-is_settled k s h = record { holds = match_from-is_settled k _ s h }

-- What the inner loop stops at is a sale of the same type, at no more than the buyer's price.
pub record IsMatch (buy sell : Order) : Type 0 where
  pub is_sale : sell.is_buy ≡ false
  pub same_type : buy.derivative_type ≡ sell.derivative_type
  pub affordable : sell.strike_price ≤ℤ buy.strike_price

-- The order that the inner loop stops at is a sale, of the buy's type, at no more than its price.
first_sell-IsMatch :
    (buy sell : Order) (rest : List Order) → first_sell buy rest ≡ some sell → IsMatch buy sell
unfolding first_sell skips
first_sell-IsMatch buy sell [] h = ground arith
first_sell-IsMatch buy sell (o ∷ rest) h = elim (Bool-cases (skips buy o)) [
  | inl pass ↦ ground (arith, first_sell-IsMatch buy sell rest)
  | inr stop ↦ ground arith
]
