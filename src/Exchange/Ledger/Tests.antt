-- ===== src/Exchange/Ledger/Tests.antt =====
-- A ledger that a reservation and a trade go through.
use cpp_projects.Base.{ℕ, ◌≡◌, refl, []}
use cpp_projects.Base.Int.{pos, ◌+ℤ◌, ◌-ℤ◌, ◌*ℤ◌}
use cpp_projects.Base.Word.{to_i64}
use cpp_projects.Base.Map.{ℕ_key, pair_key, find, insert_or_assign, erase}
use cpp_projects.Types.{buy, sell}
use cpp_projects.Exchange.Core.{limit, gtc}
use cpp_projects.Exchange.Events.{ExchangeEvent, TradeCounterparty, order_accepted, trade_executed}
use cpp_projects.Exchange.Ledger.{
  Ledger, balances, notional, open_hold, settle, settle_leg, find_hold, on_order_accepted,
  on_trade_executed, apply, deposit_cash, deposit_position, available_cash,
}
use cpp_projects.Exchange.Ledger.Total.{total_cash}
use cpp_projects.Exchange.Ledger.Cash.{cash_after, apply-cash}

abbrev funded : Ledger
funded = deposit_position (deposit_cash (record { accounts = []; holds = [] }) 1 (pos 1000)) 2 7 50

abbrev bid : ExchangeEvent
bid = order_accepted (record {
  event_sequence = 1;
  command_sequence = 1;
  account_id = 1;
  client_order_id = 10;
  exchange_order_id = 100;
  instrument_id = 7;
  side = buy;
  price = pos 20;
  quantity = 30;
  order_type = limit;
  time_in_force = gtc;
})

abbrev party : ℕ → ℕ → ℕ → ℕ → TradeCounterparty
party account_id client_order_id exchange_order_id remaining = record {
  account_id = account_id;
  client_order_id = client_order_id;
  exchange_order_id = exchange_order_id;
  remaining_quantity = remaining;
}

abbrev hit : ExchangeEvent
hit = trade_executed (record {
  event_sequence = 2;
  command_sequence = 2;
  instrument_id = 7;
  price = pos 20;
  quantity = 12;
  aggressor_side = sell;
  buyer = party 1 10 100 18;
  seller = party 2 11 101 0;
})

apply-cash_example :
    ((balances (apply (apply funded bid) hit) 2).cash_total
      ≡ cash_after hit 2 (balances (apply funded bid) 2).cash_total)
    × (total_cash (apply (apply funded bid) hit).accounts ≡ total_cash (apply funded bid).accounts)
apply-cash_example = apply-cash (apply funded bid) hit 2

-- Opens the functions that the test runs.
opened : Unit {0}
unfolding ◌+ℤ◌ ◌-ℤ◌ ◌*ℤ◌ to_i64 find insert_or_assign erase notional open_hold settle settle_leg
    find_hold on_order_accepted on_trade_executed apply deposit_cash deposit_position available_cash
opened = tt

-- 1000 less 12 units paid at 20 less 18 units still reserved at 20.
available_after : available_cash (apply (apply funded bid) hit) 1 ≡ pos 400
unfolding opened
available_after = refl

-- The seller is paid 240 for the 12 units.
seller_paid : (balances (apply (apply funded bid) hit) 2).cash_total ≡ pos 240
unfolding opened
seller_paid = refl
