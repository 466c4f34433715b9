-- ===== src/Trader/Positions/Tests.antt =====
-- One trade between two accounts with cash and units.
use cpp_projects.Base.{ℕ, refl, some, [], ◌∷◌, arith}
use cpp_projects.Base.Int.{pos}
use cpp_projects.Base.Map.{ℕ_key, find}
use cpp_projects.Types.{Side, buy, sell}
use cpp_projects.Exchange.Core
use cpp_projects.Exchange.Core.{limit, gtc}
use cpp_projects.Exchange.Events.{TradeExecuted}
use cpp_projects.Exchange.Ledger.{Ledger, on_trade_executed}
use cpp_projects.Trader.Oms.{ClientOrder, live, no_action}
use cpp_projects.Trader.Positions.{PositionTracker, account}
use cpp_projects.Trader.Positions.Follows.{Follows, after_report, on_trade_executed-Follows}

abbrev order_of : ℕ → Side → ClientOrder
order_of account_id side = record {
  account_id = account_id;
  client_order_id = 1;
  exchange_order_id = some 40;
  instrument_id = 3;
  side = side;
  price = pos 100;
  quantity = 5;
  remaining_quantity = 5;
  order_type = limit;
  time_in_force = gtc;
  state = live;
  pending_action = no_action;
  last_reject_reason = Core.accepted;
}

abbrev trade : TradeExecuted
trade = record {
  event_sequence = 9;
  command_sequence = 4;
  instrument_id = 3;
  price = pos 100;
  quantity = 5;
  aggressor_side = buy;
  buyer = record {
    account_id = 7;
    client_order_id = 1;
    exchange_order_id = 40;
    remaining_quantity = 0;
  };
  seller = record {
    account_id = 8;
    client_order_id = 1;
    exchange_order_id = 41;
    remaining_quantity = 2;
  };
}

abbrev exchange_ledger : Ledger
exchange_ledger = record {
  accounts =
      (
        7,
        record {
          cash_total = pos 900;
          cash_reserved = pos 0;
          position_total = [];
          position_reserved = [];
        },
      )
      ∷ (
        8,
        record {
          cash_total = pos 20;
          cash_reserved = pos 0;
          position_total = (3, 10) ∷ [];
          position_reserved = [];
        },
      )
      ∷ [];
  holds = [];
}

abbrev buyers : PositionTracker
buyers = (7, record { cash = pos 900; holdings = [] }) ∷ []

abbrev sellers : PositionTracker
sellers = (8, record { cash = pos 20; holdings = (3, 10) ∷ [] }) ∷ []

buyers_follow : Follows buyers exchange_ledger 7
unfolding account find
buyers_follow = (refl, λ i. refl)

sellers_follow : Follows sellers exchange_ledger 8
unfolding account find
sellers_follow = (refl, λ i. refl)

on_trade_executed-Follows_example :
    Follows
      (after_report buyers trade trade.buyer (order_of 7 buy))
      (on_trade_executed exchange_ledger trade)
      7
    × Follows
        (after_report sellers trade trade.seller (order_of 8 sell))
        (on_trade_executed exchange_ledger trade)
        8
on_trade_executed-Follows_example =
    on_trade_executed-Follows buyers sellers exchange_ledger trade (order_of 7 buy)
      (order_of 8 sell) (λ eq. absurd (omega (arith, eq))) refl refl buyers_follow sellers_follow
