-- ===== src/Arbitrage.antt =====
-- The arbitrage desk, contracts/arbitrage/src/lib.rs.
pub mod Laws
mod Tests
use stellar_tipjar_contracts.Common.{
  nat_eq, pair_eq, ℕ, Bool, true, false, Option, none, some, List, [], ◌∷◌, ◌++◌, get_or,
  if◌then◌else◌,
}
use stellar_tipjar_contracts.Common.Int.{
  ℤ, pos, leb_ℤ, ltb_ℤ, add_u64, mul_i128, sub_i128, checked_div,
}
use stellar_tipjar_contracts.Common.Map.{Map, get, set}
use stellar_tipjar_contracts.Soroban.{
  Address, Effect, Env, M, ok, pure, gets, or_raise, or_trap, raise_if, modify, require_auth, ◌>>=◌,
  ◌>>◌,
}

-- Symbols name markets, and are only compared.
abbrev pub Symbol : Type 0
Symbol = ℕ

abbrev pub min_profit_threshold_bps : ℤ
min_profit_threshold_bps = pos 100

abbrev pub bps : ℤ
bps = pos 10_000

pub record MarketPrice : Type 0 where
  pub market_id : Symbol
  pub token : Address
  pub price : ℤ
  pub updated_at : ℕ

pub record ArbitrageRecord : Type 0 where
  pub id : ℕ
  pub executor : Address
  pub token : Address
  pub buy_market : Symbol
  pub sell_market : Symbol
  pub profit : ℤ
  pub executed_at : ℕ

pub data ArbitrageError : Type 0 where
  unauthorized price_not_found not_profitable invalid_amount : ArbitrageError

-- The events, whose topics are the constructors' names.
pub data Event : Type 0 where
  detected : Address → Symbol → Symbol → ℤ → Event
  executed : Address → Address → ℤ → Event

-- One field for each variant of the source's `DataKey`, and the log; no entry's life is extended.
pub record Desk : Type 0 where
  pub prices : Map (Symbol × Address) MarketPrice
  pub records : Map ℕ ArbitrageRecord
  pub record_count : Option ℕ
  pub executor_records : Map Address (List ℕ)
  pub log : List (Effect Unit Event)

abbrev pub Call : Type 0 → Type 0
Call A = M Desk ArbitrageError A

abbrev pub publish : Event → Call (Unit {0})
publish e s = ok (tt, record s { log = Effect.published e ∷ s.log })

unfoldable pub update_price : Env → Address → Symbol → Address → ℤ → Call (Unit {0})
unfolding ◌>>=◌ ◌>>◌
update_price env caller market_id token price = do
  require_auth env caller
  raise_if (leb_ℤ price (pos 0)) invalid_amount
  let mp : MarketPrice = record {
    market_id = market_id;
    token = token;
    price = price;
    updated_at = env.timestamp;
  }
  modify (λ s. record s { prices = set (market_id, token) mp s.prices })

-- The expression that both calls below start with.
abbrev pub price_of : Symbol → Address → Call MarketPrice
price_of market token s = or_raise (get (market, token) s.prices) price_not_found s

unfoldable pub detect_opportunity : Address → Symbol → Symbol → Call (ℤ × Bool)
unfolding ◌>>=◌ ◌>>◌
detect_opportunity token market_a market_b = do
  price_a ← price_of market_a token
  price_b ← price_of market_b token
  let price_diff : ℤ =
      if ltb_ℤ price_a.price price_b.price
      then sub_i128 price_b.price price_a.price
      else sub_i128 price_a.price price_b.price
  let lower_price : ℤ = if ltb_ℤ price_a.price price_b.price then price_a.price else price_b.price
  threshold ← or_trap (checked_div (mul_i128 lower_price min_profit_threshold_bps) bps)
  pure (price_diff, ltb_ℤ threshold price_diff)

unfoldable pub execute_arbitrage : Env → Address → Address → Symbol → Symbol → ℤ → Call ℤ
unfolding ◌>>=◌ ◌>>◌
execute_arbitrage env caller token buy_market sell_market amount = do
  require_auth env caller
  raise_if (leb_ℤ amount (pos 0)) invalid_amount
  buy_price ← price_of buy_market token
  sell_price ← price_of sell_market token
  raise_if (leb_ℤ sell_price.price buy_price.price) not_profitable
  let price_diff : ℤ = sub_i128 sell_price.price buy_price.price
  threshold ← or_trap (checked_div (mul_i128 buy_price.price min_profit_threshold_bps) bps)
  raise_if (leb_ℤ price_diff threshold) not_profitable
  profit ← or_trap (checked_div (mul_i128 amount price_diff) buy_price.price)
  record_id ← gets (λ s. add_u64 (get_or 0 s.record_count) 1)
  let entry : ArbitrageRecord = record {
    id = record_id;
    executor = caller;
    token = token;
    buy_market = buy_market;
    sell_market = sell_market;
    profit = profit;
    executed_at = env.timestamp;
  }
  modify (λ s. record s { records = set record_id entry s.records })
  modify (λ s. record s { record_count = some record_id })
  executor_records ← gets (λ s. get_or [] (get caller s.executor_records))
  modify (λ s. record s {
    executor_records = set caller (executor_records ++ record_id ∷ []) s.executor_records;
  })
  publish (detected token buy_market sell_market price_diff)
  publish (executed caller token profit)
  pure profit

-- The records of the listed ids, without the ids that have none.
unfoldable pub recorded : List ℕ → Map ℕ ArbitrageRecord → List ArbitrageRecord
recorded [] records = []
recorded (id ∷ ids) records = elim (get id records) [
  | none ↦ recorded ids records
  | some entry ↦ entry ∷ recorded ids records
]

unfoldable pub get_performance : Address → Call (List ArbitrageRecord)
get_performance executor =
    gets (λ s. recorded (get_or [] (get executor s.executor_records)) s.records)
