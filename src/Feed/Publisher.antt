-- ===== src/Feed/Publisher.antt =====
-- mdh/include/exchange/market_data/market_data_publisher.hpp and
-- mdh/src/exchange/market_data/market_data_publisher.cpp: the events of the engine that the feed carries.
-- The clock is a parameter, the time at each position of the feed.
use cpp_projects.Base.{ℕ, List, [], ◌∷◌, ◌++◌}
use cpp_projects.Base.Word.{inc64}
use cpp_projects.Exchange.Events.{
  ExchangeEvent, TradeExecuted, BookOrderAdded, BookOrderReduced, BookOrderRemoved, order_accepted,
  order_rejected, order_cancelled, order_replaced, trade_executed, book_order_added,
  book_order_reduced, book_order_removed,
}
use cpp_projects.Wire.MarketData.{Event, add_order, cancel_order, modify_order, trade}

-- The number of the next message, and the messages that the sink has taken, in their order.
pub record MarketDataPublisher : Type 0 where
  pub next_sequence : ℕ
  pub sent : List Event

abbrev pub new_publisher : MarketDataPublisher
new_publisher = record { next_sequence = 1; sent = [] }

-- A message with the next number.
abbrev pub send : (ℕ → Event) → MarketDataPublisher → MarketDataPublisher
send message p = record {
  next_sequence = inc64 p.next_sequence;
  sent = p.sent ++ (message p.next_sequence ∷ []);
}

module _ (clock : ℕ → ℕ) where
  abbrev pub publish_book_order_added : BookOrderAdded → ℕ → Event
  publish_book_order_added event n = add_order (record {
    sequence_number = n;
    timestamp_ns = clock n;
    order_id = event.exchange_order_id;
    instrument_id = event.instrument_id;
    price = event.price;
    quantity = event.quantity;
    side = event.side;
  })

  abbrev pub publish_book_order_reduced : BookOrderReduced → ℕ → Event
  publish_book_order_reduced event n = modify_order (record {
    sequence_number = n;
    timestamp_ns = clock n;
    order_id = event.exchange_order_id;
    instrument_id = event.instrument_id;
    new_price = event.price;
    new_quantity = event.new_remaining_quantity;
  })

  abbrev pub publish_book_order_removed : BookOrderRemoved → ℕ → Event
  publish_book_order_removed event n = cancel_order (record {
    sequence_number = n;
    timestamp_ns = clock n;
    order_id = event.exchange_order_id;
    instrument_id = event.instrument_id;
  })

  abbrev pub publish_trade_executed : TradeExecuted → ℕ → Event
  publish_trade_executed event n = trade (record {
    sequence_number = n;
    timestamp_ns = clock n;
    instrument_id = event.instrument_id;
    price = event.price;
    quantity = event.quantity;
    aggressor_side = event.aggressor_side;
  })

  unfoldable pub publish : ExchangeEvent → MarketDataPublisher → MarketDataPublisher
  publish (book_order_added e) p = send (publish_book_order_added e) p
  publish (book_order_reduced e) p = send (publish_book_order_reduced e) p
  publish (book_order_removed e) p = send (publish_book_order_removed e) p
  publish (trade_executed e) p = send (publish_trade_executed e) p
  publish (order_accepted e) p = p
  publish (order_rejected e) p = p
  publish (order_cancelled e) p = p
  publish (order_replaced e) p = p

  unfoldable pub publish_all : List ExchangeEvent → MarketDataPublisher → MarketDataPublisher
  unfolding publish
  publish_all [] p = p
  publish_all (e ∷ es) p = publish_all es (publish e p)
