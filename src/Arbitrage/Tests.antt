-- ===== src/Arbitrage/Tests.antt =====
-- Runs of the arbitrage desk: markets 10 and 11 trade token 5, at 1000 and at 1200.
use stellar_tipjar_contracts.Common.{
  nat_eq, pair_eq, ◌≡◌, refl, true, none, some, [], ◌∷◌, ◌++◌, nat_beq, if◌then◌else◌, arith,
}
use stellar_tipjar_contracts.Common.Int.{
  pos, quot, sub_i128, mul_i128, checked_div, fits_i128, wrap_i128, ◌-ℤ◌, ◌*ℤ◌, i128_max,
}
use stellar_tipjar_contracts.Common.Map.{get}
use stellar_tipjar_contracts.Soroban.{Address, Env, After, ok, err, panic, ◌>>=◌, ◌>>◌}
use stellar_tipjar_contracts.Arbitrage.{
  MarketPrice, ArbitrageRecord, Desk, not_profitable, detect_opportunity, execute_arbitrage,
  recorded, get_performance,
}
use stellar_tipjar_contracts.Arbitrage.Laws.{IsNumbered, ids_of, execute_arbitrage-get_performance}

abbrev env : Env
env = record {
  sequence = 1;
  timestamp = 77;
  authorized = λ who. true;
  this = 0;
  accepts = λ t. true;
}

abbrev low : MarketPrice
low = record { market_id = 10; token = 5; price = pos 1000; updated_at = 7 }

abbrev high : MarketPrice
high = record { market_id = 11; token = 5; price = pos 1200; updated_at = 7 }

abbrev desk : Desk
desk = record {
  prices = ((10, 5), low) ∷ ((11, 5), high) ∷ [];
  records = [];
  record_count = none;
  executor_records = [];
  log = [];
}

desk-low : get (10, 5) desk.prices ≡ some low
unfolding get
desk-low = refl

desk-high : get (11, 5) desk.prices ≡ some high
unfolding get
desk-high = refl

desk-IsNumbered : IsNumbered desk
unfolding get
desk-IsNumbered who = tt

-- The spread of the source's test is found, whichever market is named first.
found_spread :
    (detect_opportunity 5 10 11 desk ≡ ok ((pos 200, true), desk))
    × (detect_opportunity 5 11 10 desk ≡ ok ((pos 200, true), desk))
unfolding detect_opportunity ◌>>=◌ ◌>>◌ get sub_i128 mul_i128 ◌-ℤ◌ ◌*ℤ◌ wrap_i128 checked_div quot
    fits_i128 i128_max
found_spread = (refl, refl)

-- An execution the wrong way round is refused.
wrong_way : execute_arbitrage env 2 5 11 10 (pos 100) desk ≡ err (panic not_profitable)
unfolding execute_arbitrage ◌>>=◌ ◌>>◌ get
wrong_way = refl

abbrev entry : ArbitrageRecord
entry = record {
  id = 1;
  executor = 2;
  token = 5;
  buy_market = 10;
  sell_market = 11;
  profit = quot (mul_i128 (pos 100) (sub_i128 (pos 1200) (pos 1000))) (pos 1000);
  executed_at = 77;
}

execute_arbitrage-get_performance_example :
    After
      (λ t.
        IsNumbered t
        × ((who : Address)
            → get_performance who t
              ≡ ok (
                if nat_beq 2 who
                    then recorded (ids_of who desk) desk.records ++ entry ∷ []
                    else recorded (ids_of who desk) desk.records,
                t,
              )))
      (execute_arbitrage env 2 5 10 11 (pos 100) desk)
execute_arbitrage-get_performance_example =
    execute_arbitrage-get_performance env 2 5 10 11 (pos 100) desk low high desk-low desk-high
      desk-IsNumbered (omega arith)
