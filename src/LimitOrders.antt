-- ===== src/LimitOrders.antt =====
-- The limit order book, contracts/limit-orders/src/lib.rs.
pub mod Laws
pub mod Changes
pub mod Runs
mod Tests
use stellar_tipjar_contracts.Common.{
  nat_eq, pair_eq, ℕ, ◌+◌, ◌%◌, ◌^◌, Bool, true, false, not, ◌||◌, Option, none, some, List, [],
  ◌∷◌, ◌++◌, nat_beq, get_or, if◌then◌else◌,
}
use stellar_tipjar_contracts.Common.Int.{
  ℤ, pos, leb_ℤ, ltb_ℤ, add_i128, add_u64, mul_i128, sub_i128, checked_div,
}
use stellar_tipjar_contracts.Common.Map.{Map, get, set}
use stellar_tipjar_contracts.Soroban.{
  Address, Effect, Env, M, Transfer, transfer_failed, ok, err, pure, gets, or_raise, or_trap,
  raise_if, modify, require_auth, ◌>>=◌, ◌>>◌,
}

pub record LimitOrder : Type 0 where
  pub id : ℕ
  pub owner : Address
  pub token_in : Address
  pub token_out : Address
  pub amount_in : ℤ
  pub limit_price : ℤ
  pub filled : ℤ
  pub cancelled : Bool

pub data LimitOrderError : Type 0 where
  unauthorized order_not_found already_cancelled invalid_amount already_filled : LimitOrderError
  price_not_met : LimitOrderError

-- The events, whose topics are the constructors' names.
pub data Event : Type 0 where
  placed : ℕ → Address → ℤ → Event
  filled_at : ℕ → ℤ → ℤ → Event
  order_cancelled : ℕ → Event

-- One field for each variant of the source's `DataKey`, and the log; no entry's life is extended.
pub record Book : Type 0 where
  pub orders : Map ℕ LimitOrder
  pub order_count : Option ℕ
  pub order_book : Map (Address × Address) (List ℕ)
  pub log : List (Effect Unit Event)

abbrev pub Call : Type 0 → Type 0
Call A = M Book LimitOrderError A

abbrev pub publish : Event → Call (Unit {0})
publish e s = ok (tt, record s { log = Effect.published e ∷ s.log })

abbrev pub transfer : Env → Transfer → Call (Unit {0})
transfer env t s = elim (env.accepts t) [
  | true ↦ ok (tt, record s { log = Effect.transferred t ∷ s.log })
  | false ↦ err transfer_failed
]

unfoldable pub place_order : Env → Address → Address → Address → ℤ → ℤ → Call ℕ
unfolding ◌>>=◌ ◌>>◌
place_order env caller token_in token_out amount_in limit_price = do
  require_auth env caller
  raise_if (leb_ℤ amount_in (pos 0) || leb_ℤ limit_price (pos 0)) invalid_amount
  transfer env
      (record { asset = token_in; sender = caller; recipient = env.this; amount = amount_in })
  order_id ← gets (λ s. add_u64 (get_or 0 s.order_count) 1)
  let order : LimitOrder = record {
    id = order_id;
    owner = caller;
    token_in = token_in;
    token_out = token_out;
    amount_in = amount_in;
    limit_price = limit_price;
    filled = pos 0;
    cancelled = false;
  }
  modify (λ s. record s { orders = set order_id order s.orders })
  modify (λ s. record s { order_count = some order_id })
  book ← gets (λ s. get_or [] (get (token_in, token_out) s.order_book))
  modify (λ s. record s {
    order_book = set (token_in, token_out) (book ++ order_id ∷ []) s.order_book;
  })
  publish (placed order_id caller limit_price)
  pure order_id

unfoldable pub match_order : Env → ℕ → ℤ → Call (Unit {0})
unfolding ◌>>=◌ ◌>>◌
match_order env order_id current_price = do
  order ← or_raise (← gets (λ s. get order_id s.orders)) order_not_found
  raise_if order.cancelled already_cancelled
  raise_if (ltb_ℤ order.limit_price current_price) price_not_met
  let remaining = sub_i128 order.amount_in order.filled
  raise_if (leb_ℤ remaining (pos 0)) already_filled
  amount_out ← or_trap (checked_div (mul_i128 remaining order.limit_price) current_price)
  transfer env (record {
    asset = order.token_out;
    sender = env.this;
    recipient = order.owner;
    amount = amount_out;
  })
  modify (λ s. record s {
    orders = set order_id (record order { filled = add_i128 order.filled remaining }) s.orders;
  })
  publish (filled_at order_id remaining current_price)

unfoldable pub cancel_order : Env → Address → ℕ → Call (Unit {0})
unfolding ◌>>=◌ ◌>>◌
cancel_order env caller order_id = do
  require_auth env caller
  order ← or_raise (← gets (λ s. get order_id s.orders)) order_not_found
  raise_if (not (nat_beq order.owner caller)) unauthorized
  raise_if order.cancelled already_cancelled
  let remaining = sub_i128 order.amount_in order.filled
  (if ltb_ℤ (pos 0) remaining
      then transfer env (record {
        asset = order.token_in;
        sender = env.this;
        recipient = caller;
        amount = remaining;
      })
      else pure tt)
  modify (λ s. record s { orders = set order_id (record order { cancelled = true }) s.orders })
  publish (order_cancelled order_id)

unfoldable pub get_order : ℕ → Call LimitOrder
unfolding ◌>>=◌ ◌>>◌
get_order order_id = do or_raise (← gets (λ s. get order_id s.orders)) order_not_found

-- The orders of the listed ids, without the ids that have none.
unfoldable pub found : List ℕ → Map ℕ LimitOrder → List LimitOrder
found [] orders = []
found (id ∷ ids) orders = elim (get id orders) [
  | none ↦ found ids orders
  | some order ↦ order ∷ found ids orders
]

unfoldable pub get_order_book : Address → Address → Call (List LimitOrder)
get_order_book token_in token_out =
    gets (λ s. found (get_or [] (get (token_in, token_out) s.order_book)) s.orders)
