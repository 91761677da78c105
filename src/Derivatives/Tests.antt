-- ===== src/Derivatives/Tests.antt =====
-- Runs of the market at concrete inputs.
use stellar_tipjar_contracts.Common.{
  nat_eq, pair_eq, ◌≡◌, refl, true, false, not, some, [], ◌∷◌, nat_beq,
}
use stellar_tipjar_contracts.Common.Int.{pos}
use stellar_tipjar_contracts.Common.Map.{get}
use stellar_tipjar_contracts.Soroban.{Env, After, err, panic}
use stellar_tipjar_contracts.Derivatives.{
  Order, Market, already_settled, settle_order, cancel_order,
}
use stellar_tipjar_contracts.Derivatives.Laws.{is_settled, settle_order-once}

abbrev everyone : Env
everyone = record {
  sequence = 1;
  timestamp = 90;
  authorized = λ who. not (nat_beq who 0);
  this = 0;
  accepts = λ t. true;
}

abbrev bid : Order
bid = record {
  id = 1;
  owner = 3;
  derivative_type = 7;
  underlying = 5;
  strike_price = pos 100;
  expiry = 50;
  quantity = pos 10;
  is_buy = true;
  settled = false;
}

abbrev ask : Order
ask = record {
  id = 2;
  owner = 4;
  derivative_type = 7;
  underlying = 5;
  strike_price = pos 90;
  expiry = 50;
  quantity = pos 4;
  is_buy = false;
  settled = false;
}

abbrev done : Order
done = record ask { id = 3; settled = true }

abbrev market : Market
market = record {
  orders = (1, bid) ∷ (2, ask) ∷ (3, done) ∷ [];
  positions = [];
  order_count = some 3;
  order_ids = some (1 ∷ 2 ∷ 3 ∷ []);
  log = [];
}

bid_stored : get 1 market.orders ≡ some bid
unfolding get
bid_stored = refl

done_settled : is_settled (get 3 market.orders) ≡ true
unfolding get
done_settled = refl

settle_order-once_example :
    After
      (λ t. settle_order everyone 3 1 t ≡ err (panic already_settled))
      (settle_order everyone 3 1 market)
    × After
        (λ t. settle_order everyone 3 1 t ≡ err (panic already_settled))
        (cancel_order everyone 3 1 market)
settle_order-once_example = settle_order-once everyone everyone market 1 bid bid_stored 3 3 refl
