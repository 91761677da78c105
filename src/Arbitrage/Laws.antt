-- ===== src/Arbitrage/Laws.antt =====
-- What an executed arbitrage says of the prices, and how the records grow.
use stellar_tipjar_contracts.Common.{
  nat_eq, pair_eq, ℕ, ◌+◌, ◌≤◌, ◌<◌, ◌^◌, ◌≡◌, ◌∙◌, ap, refl, true, Option, some, List, [], ◌∷◌,
  ◌++◌, nat_beq, get_or, Bool-cases, inl, inr, if◌then◌else◌, arith,
}
use stellar_tipjar_contracts.Common.Int.{ℤ, add_u64, sub_i128, mul_i128, quot, checked_div, ◌<ℤ◌}
use stellar_tipjar_contracts.Common.Map.{Map, get, set, get-set}
use stellar_tipjar_contracts.Soroban.{Address, Env, After, After-map, ok, ◌>>=◌, ◌>>◌}
use stellar_tipjar_contracts.Arbitrage.{
  Symbol, MarketPrice, ArbitrageRecord, Desk, detect_opportunity, execute_arbitrage, recorded,
  get_performance,
}

-- Every listed id is at most `n`.
abbrev pub IsUpTo : ℕ → List ℕ → Type 0
IsUpTo n [] = Unit
IsUpTo n (id ∷ ids) = (id ≤ n) × IsUpTo n ids

abbrev pub ids_of : Address → Desk → List ℕ
ids_of who s = get_or [] (get who s.executor_records)

-- The ids of every executor's records are at most the count.
abbrev pub IsNumbered : Desk → Type 0
IsNumbered s = (who : Address) → IsUpTo (get_or 0 s.record_count) (ids_of who s)

IsUpTo-append : (n : ℕ) (ids : List ℕ) → IsUpTo n ids → IsUpTo (n + 1) (ids ++ (n + 1) ∷ [])
IsUpTo-append n [] h = (omega arith, tt)
IsUpTo-append n (id ∷ ids) h = (omega (arith, h.0), IsUpTo-append n ids h.1)

IsUpTo-later : (n : ℕ) (ids : List ℕ) → IsUpTo n ids → IsUpTo (n + 1) ids
IsUpTo-later n [] h = tt
IsUpTo-later n (id ∷ ids) h = (omega (arith, h.0), IsUpTo-later n ids h.1)

-- A record under a new id is the last that is listed.
recorded-append :
    (n : ℕ) (ids : List ℕ) (r : ArbitrageRecord) (m : Map ℕ ArbitrageRecord)
    → IsUpTo n ids
    → recorded (ids ++ (n + 1) ∷ []) (set (n + 1) r m) ≡ recorded ids m ++ r ∷ []
unfolding recorded
recorded-append n [] r m h = ground (arith, get-set (n + 1) (n + 1) r m)
recorded-append n (id ∷ ids) r m h =
    ground (arith, h.0, recorded-append n ids r m h.1, get-set id (n + 1) r m)

recorded-later :
    (n : ℕ) (ids : List ℕ) (r : ArbitrageRecord) (m : Map ℕ ArbitrageRecord)
    → IsUpTo n ids
    → recorded ids (set (n + 1) r m) ≡ recorded ids m
unfolding recorded
recorded-later n [] r m h = refl
recorded-later n (id ∷ ids) r m h =
    ground (arith, h.0, recorded-later n ids r m h.1, get-set id (n + 1) r m)

add_u64-eq : (a b : ℕ) → a + b < 2 ^ 64 → add_u64 a b ≡ a + b
unfolding add_u64
add_u64-eq a b h = omega arith

module _ (env : Env) (caller token : Address) (buy_market sell_market : Symbol) (amount : ℤ)
    (s : Desk) (b c : MarketPrice) (bought : get (buy_market, token) s.prices ≡ some b)
    (sold : get (sell_market, token) s.prices ≡ some c) where
  -- If an arbitrage between two stored prices returns, the first price is below the second, and
  -- `detect_opportunity` reports their difference and that it is profitable.
  execute_arbitrage-detect_opportunity :
      After
        (λ t.
          (b.price <ℤ c.price)
          × (detect_opportunity token buy_market sell_market s
              ≡ ok ((sub_i128 c.price b.price, true), s)))
        (execute_arbitrage env caller token buy_market sell_market amount s)
  unfolding detect_opportunity execute_arbitrage ◌>>=◌ ◌>>◌
  execute_arbitrage-detect_opportunity = ground arith

  -- The record that an execution with this profit stores.
  abbrev entry_for : ℤ → ArbitrageRecord
  entry_for profit = record {
    id = get_or 0 s.record_count + 1;
    executor = caller;
    token = token;
    buy_market = buy_market;
    sell_market = sell_market;
    profit = profit;
    executed_at = env.timestamp;
  }

  abbrev gain : ℤ
  gain = quot (mul_i128 amount (sub_i128 c.price b.price)) b.price

  execute_arbitrage-fields :
      get_or 0 s.record_count + 1 < 2 ^ 64
      → After
          (λ t.
            (t.records ≡ set (get_or 0 s.record_count + 1) (entry_for gain) s.records)
            × (t.record_count ≡ some (get_or 0 s.record_count + 1))
            × (t.executor_records
                ≡ set caller
                    (ids_of caller s ++ (get_or 0 s.record_count + 1) ∷ [])
                    s.executor_records))
          (execute_arbitrage env caller token buy_market sell_market amount s)
  unfolding execute_arbitrage checked_div ◌>>=◌ ◌>>◌
  execute_arbitrage-fields small = ground (arith, add_u64-eq (get_or 0 s.record_count) 1 small)

  module _ (who : Address) (t : Desk) (h : IsNumbered s)
      (f : t.executor_records
        ≡ set caller
            (ids_of caller s ++ (get_or 0 s.record_count + 1) ∷ [])
            s.executor_records) where
    ids_after : ids_of who t ≡ (
        if nat_beq caller who
        then ids_of caller s ++ (get_or 0 s.record_count + 1) ∷ []
        else ids_of who s)
    ids_after =
        ap (λ (m : Map Address (List ℕ)). get_or [] (get who m)) f
        ∙ ap (λ (o : Option (List ℕ)). get_or [] o)
            (get-set who caller (ids_of caller s ++ (get_or 0 s.record_count + 1) ∷ [])
              s.executor_records)
        ∙ ground arith

    ids-IsUpTo : IsUpTo (get_or 0 s.record_count + 1) (ids_of who t)
    ids-IsUpTo = elim (Bool-cases (nat_beq caller who)) [
      | inl same ↦ rw (ids_after, same) (IsUpTo-append _ _ (h caller))
      | inr other ↦ rw (ids_after, other) (IsUpTo-later _ _ (h who))
    ]

    performance-set :
        t.records ≡ set (get_or 0 s.record_count + 1) (entry_for gain) s.records
        → get_performance who t
          ≡ ok (
            if nat_beq caller who
                then recorded (ids_of who s) s.records ++ entry_for gain ∷ []
                else recorded (ids_of who s) s.records,
            t,
          )
    unfolding get_performance
    performance-set e = elim (Bool-cases (nat_beq caller who)) [
      | inl same ↦ ground (
        arith,
        ids_after,
        same,
        e,
        recorded-append (get_or 0 s.record_count) (ids_of caller s) (entry_for gain) s.records
            (h caller),
      )
      | inr other ↦ ground (
        arith,
        ids_after,
        other,
        e,
        recorded-later (get_or 0 s.record_count) (ids_of who s) (entry_for gain) s.records (h who),
      )
    ]

  -- If an arbitrage between two stored prices returns, where listed ids are at most the count and the
  -- count does not overflow: they still are, the caller's list has one more record at its end, with the
  -- profit, and every other list is as before.
  pub execute_arbitrage-get_performance :
      IsNumbered s
      → get_or 0 s.record_count + 1 < 2 ^ 64
      → After
          (λ t.
            IsNumbered t
            × ((who : Address)
                → get_performance who t
                  ≡ ok (
                    if nat_beq caller who
                        then recorded (ids_of who s) s.records ++ entry_for gain ∷ []
                        else recorded (ids_of who s) s.records,
                    t,
                  )))
          (execute_arbitrage env caller token buy_market sell_market amount s)
  execute_arbitrage-get_performance h small =
      After-map _
        (λ t (e, n, f). (λ who. rw n (ids-IsUpTo who t h f), λ who. performance-set who t h f e))
        (execute_arbitrage-fields small)
