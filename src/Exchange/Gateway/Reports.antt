-- ===== src/Exchange/Gateway/Reports.antt =====
-- mdh/src/exchange/gateway/order_entry_gateway.cpp: messages as commands, and events as reports.
use cpp_projects.Base.{ℕ, Option, none, some, List, [], ◌∷◌}
use cpp_projects.Exchange.Core
use cpp_projects.Exchange.Core.{ExchangeCommand}
use cpp_projects.Exchange.Events.{
  ExchangeEvent, order_accepted, order_rejected, order_cancelled, order_replaced, trade_executed,
  TradeExecuted, TradeCounterparty,
}
use cpp_projects.Exchange.Gateway.{OrderKey}
use cpp_projects.Wire.OrderEntry.{
  TradeReport, Message, new_order, cancel_order, replace_order, accepted, rejected, cancelled,
  replaced, trade_report,
}

-- The account that a message names.
abbrev pub message_account : Message → ℕ
message_account (new_order m) = m.account_id
message_account (cancel_order m) = m.account_id
message_account (replace_order m) = m.account_id
message_account (accepted m) = m.account_id
message_account (rejected m) = m.account_id
message_account (cancelled m) = m.account_id
message_account (replaced m) = m.account_id
message_account (trade_report m) = m.account_id

-- The sequence is a placeholder that the pipeline replaces.
unfoldable pub to_command : Message → Option ExchangeCommand
to_command (new_order m) = some (
    Core.new_order (record {
      command_sequence = 0;
      account_id = m.account_id;
      client_order_id = m.client_order_id;
      instrument_id = m.instrument_id;
      side = m.side;
      price = m.price;
      quantity = m.quantity;
      order_type = m.order_type;
      time_in_force = m.time_in_force;
    }))
to_command (cancel_order m) = some (
    Core.cancel_order (record {
      command_sequence = 0;
      account_id = m.account_id;
      client_order_id = m.client_order_id;
      instrument_id = m.instrument_id;
    }))
to_command (replace_order m) = some (
    Core.replace_order (record {
      command_sequence = 0;
      account_id = m.account_id;
      original_client_order_id = m.original_client_order_id;
      new_client_order_id = m.new_client_order_id;
      instrument_id = m.instrument_id;
      new_price = m.new_price;
      new_quantity = m.new_quantity;
    }))
to_command (accepted m) = none
to_command (rejected m) = none
to_command (cancelled m) = none
to_command (replaced m) = none
to_command (trade_report m) = none

-- One side of a trade.
abbrev pub side_report : TradeExecuted → TradeCounterparty → TradeReport
side_report ev side = record {
  account_id = side.account_id;
  client_order_id = side.client_order_id;
  exchange_order_id = side.exchange_order_id;
  instrument_id = ev.instrument_id;
  price = ev.price;
  quantity = ev.quantity;
  remaining_quantity = side.remaining_quantity;
}

unfoldable pub trade_side : TradeExecuted → TradeCounterparty → OrderKey × Message
trade_side ev side = ((side.account_id, side.client_order_id), trade_report (side_report ev side))

unfoldable pub to_execution_reports : ExchangeEvent → List (OrderKey × Message)
unfolding trade_side
to_execution_reports (order_accepted ev) =
    (
      (ev.account_id, ev.client_order_id),
      accepted (record {
        account_id = ev.account_id;
        client_order_id = ev.client_order_id;
        exchange_order_id = ev.exchange_order_id;
        instrument_id = ev.instrument_id;
        side = ev.side;
        price = ev.price;
        quantity = ev.quantity;
        order_type = ev.order_type;
        time_in_force = ev.time_in_force;
      }),
    )
    ∷ []
to_execution_reports (order_rejected ev) =
    (
      (ev.account_id, ev.client_order_id),
      rejected (record {
        account_id = ev.account_id;
        client_order_id = ev.client_order_id;
        instrument_id = ev.instrument_id;
        reason = ev.reason;
      }),
    )
    ∷ []
to_execution_reports (order_cancelled ev) =
    (
      (ev.account_id, ev.client_order_id),
      cancelled (record {
        account_id = ev.account_id;
        client_order_id = ev.client_order_id;
        exchange_order_id = ev.exchange_order_id;
        instrument_id = ev.instrument_id;
      }),
    )
    ∷ []
to_execution_reports (order_replaced ev) =
    (
      (ev.account_id, ev.original_client_order_id),
      replaced (record {
        account_id = ev.account_id;
        original_client_order_id = ev.original_client_order_id;
        new_client_order_id = ev.new_client_order_id;
        exchange_order_id = ev.exchange_order_id;
        instrument_id = ev.instrument_id;
        new_price = ev.new_price;
        new_quantity = ev.new_quantity;
      }),
    )
    ∷ []
to_execution_reports (trade_executed ev) = trade_side ev ev.buyer ∷ trade_side ev ev.seller ∷ []
to_execution_reports _ = []
