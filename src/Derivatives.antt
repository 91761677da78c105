-- ===== src/Derivatives.antt =====
-- Derivative orders, contracts/derivatives/src/lib.rs.
pub mod Laws
mod Tests
use stellar_tipjar_contracts.Common.{
  nat_eq, pair_eq, ℕ, Bool, true, false, not, ◌||◌, Option, none, some, List, [], ◌∷◌, ◌++◌, ltb,
  nat_beq, get_or, if◌then◌else◌,
}
use stellar_tipjar_contracts.Common.Int.{ℤ, pos, leb_ℤ, ltb_ℤ, add_u64, mul_i128}
use stellar_tipjar_contracts.Common.Map.{Map, get, set}
use stellar_tipjar_contracts.Soroban.{
  Address, Effect, Env, M, Transfer, transfer_failed, ok, err, pure, gets, or_raise, raise_if,
  modify, require_auth, ◌>>=◌, ◌>>◌,
}

-- The type of a derivative is a symbol, which is only compared: a number stands for it.
pub record Order : Type 0 where
  pub id : ℕ
  pub owner : Address
  pub derivative_type : ℕ
  pub underlying : Address
  pub strike_price : ℤ
  pub expiry : ℕ
  pub quantity : ℤ
  pub is_buy : Bool
  pub settled : Bool

pub record Position : Type 0 where
  pub owner : Address
  pub derivative_id : ℕ
  pub quantity : ℤ
  pub entry_price : ℤ

pub data DerivativesError : Type 0 where
  unauthorized order_not_found already_settled not_expired invalid_amount : DerivativesError
  position_not_found : DerivativesError

-- The events, whose topics are the constructors' names.
pub data Event : Type 0 where
  placed : ℕ → Address → Event
  matched : ℕ → ℕ → ℤ → Event
  settled_for : ℕ → ℤ → Event

-- One field for each variant of the source's `DataKey`, and the log.
pub record Market : Type 0 where
  pub orders : Map ℕ Order
  pub positions : Map (Address × ℕ) Position
  pub order_count : Option ℕ
  pub order_ids : Option (List ℕ)
  pub log : List (Effect Unit Event)

abbrev pub Call : Type 0 → Type 0
Call A = M Market DerivativesError A

abbrev pub publish : Event → Call (Unit {0})
publish e s = ok (tt, record s { log = Effect.published e ∷ s.log })

abbrev pub transfer : Env → Transfer → Call (Unit {0})
transfer env t s = elim (env.accepts t) [
  | true ↦ ok (tt, record s { log = Effect.transferred t ∷ s.log })
  | false ↦ err transfer_failed
]

unfoldable pub place_order : Env → Address → ℕ → Address → ℤ → ℕ → ℤ → Bool → Call ℕ
unfolding ◌>>=◌ ◌>>◌
place_order env caller derivative_type underlying strike_price expiry quantity is_buy = do
  require_auth env caller
  raise_if (leb_ℤ quantity (pos 0) || leb_ℤ strike_price (pos 0)) invalid_amount
  order_id ← gets (λ s. add_u64 (get_or 0 s.order_count) 1)
  let order : Order = record {
    id = order_id;
    owner = caller;
    derivative_type = derivative_type;
    underlying = underlying;
    strike_price = strike_price;
    expiry = expiry;
    quantity = quantity;
    is_buy = is_buy;
    settled = false;
  }
  modify (λ s. record s { orders = set order_id order s.orders })
  modify (λ s. record s { order_count = some order_id })
  ids ← gets (λ s. get_or [] s.order_ids)
  modify (λ s. record s { order_ids = some (ids ++ order_id ∷ []) })
  publish (placed order_id caller)
  pure order_id

-- The listed orders that are not settled.
unfoldable pub open_orders : List ℕ → Map ℕ Order → List Order
open_orders [] orders = []
open_orders (id ∷ ids) orders = elim (get id orders) [
  | none ↦ open_orders ids orders
  | some o ↦ if o.settled then open_orders ids orders else o ∷ open_orders ids orders
]

-- Whether the inner loop passes over an order.
unfoldable pub skips : Order → Order → Bool
skips buy sell =
    sell.is_buy
    || not (nat_beq buy.derivative_type sell.derivative_type)
    || ltb_ℤ buy.strike_price sell.strike_price

-- The order that the inner loop stops at.
unfoldable pub first_sell : Order → List Order → Option Order
first_sell buy [] = none
first_sell buy (sell ∷ rest) = if skips buy sell then first_sell buy rest else some sell

-- What the inner loop does with it.
unfoldable pub fill : Order → Order → Market → Market
fill buy sell s =
    let match_price = sell.strike_price in
    let match_qty = if ltb_ℤ buy.quantity sell.quantity then buy.quantity else sell.quantity in
    let buy_pos : Position = record {
      owner = buy.owner;
      derivative_id = buy.id;
      quantity = match_qty;
      entry_price = match_price;
    } in
    let sell_pos : Position = record {
      owner = sell.owner;
      derivative_id = sell.id;
      quantity = match_qty;
      entry_price = match_price;
    } in
    record s {
      positions = set (sell.owner, sell.id) sell_pos (set (buy.owner, buy.id) buy_pos s.positions);
      log = Effect.published (matched buy.id sell.id match_price) ∷ s.log;
      orders =
          set sell.id (record sell { settled = true })
            (set buy.id (record buy { settled = true }) s.orders);
    }

unfoldable pub fill_first : Order → Option Order → Market → Market
fill_first buy none s = s
fill_first buy (some sell) s = fill buy sell s

-- The outer loop; the orders in hand are those of its start.
unfoldable pub match_from : List Order → Market → Market
match_from [] s = s
match_from (buy ∷ rest) s =
    match_from rest (if not buy.is_buy then s else fill_first buy (first_sell buy rest) s)

unfoldable pub match_orders : Call (Unit {0})
match_orders = modify (λ s. match_from (open_orders (get_or [] s.order_ids) s.orders) s)

-- The caller need not be the owner.
unfoldable pub settle_order : Env → Address → ℕ → Call (Unit {0})
unfolding ◌>>=◌ ◌>>◌
settle_order env caller order_id = do
  require_auth env caller
  order ← or_raise (← gets (λ s. get order_id s.orders)) order_not_found
  raise_if order.settled already_settled
  raise_if (ltb env.timestamp order.expiry) not_expired
  let settlement_value = mul_i128 order.quantity order.strike_price
  transfer env (record {
    asset = order.underlying;
    sender = env.this;
    recipient = order.owner;
    amount = settlement_value;
  })
  modify (λ s. record s { orders = set order_id (record order { settled = true }) s.orders })
  publish (settled_for order_id settlement_value)

unfoldable pub get_position : Address → ℕ → Call Position
unfolding ◌>>=◌ ◌>>◌
get_position owner derivative_id = do
  or_raise (← gets (λ s. get (owner, derivative_id) s.positions)) position_not_found

unfoldable pub cancel_order : Env → Address → ℕ → Call (Unit {0})
unfolding ◌>>=◌ ◌>>◌
cancel_order env caller order_id = do
  require_auth env caller
  order ← or_raise (← gets (λ s. get order_id s.orders)) order_not_found
  raise_if (not (nat_beq order.owner caller)) unauthorized
  raise_if order.settled already_settled
  modify (λ s. record s { orders = set order_id (record order { settled = true }) s.orders })
