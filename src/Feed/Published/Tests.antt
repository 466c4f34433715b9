-- ===== src/Feed/Published/Tests.antt =====
-- mdh/src/exchange/market_data/market_data_publisher.cpp: a run of the publisher into a replay.
use cpp_projects.Base.{true, none, List, [], ◌∷◌, arith}
use cpp_projects.Base.Int.{pos}
use cpp_projects.Base.Word.{pos_fits}
use cpp_projects.Types.{buy}
use cpp_projects.Exchange.Events.{ExchangeEvent, book_order_added, book_order_reduced}
use cpp_projects.Feed.Publisher.{new_publisher, publish, publish_all}
use cpp_projects.Feed.Replay.{ReplayOptions, run_replay, write_events}
use cpp_projects.Feed.Published.{Follows, run_replay-publish_all}

abbrev strict : ReplayOptions
strict = record {
  stop_on_sequence_error = true;
  stop_on_decode_error = true;
  recovery_snapshot = none;
}

abbrev events : List ExchangeEvent
events =
    book_order_added (record {
      event_sequence = 1;
      instrument_id = 1;
      exchange_order_id = 4;
      side = buy;
      price = pos 100;
      quantity = 5;
    })
    ∷ book_order_reduced (record {
      event_sequence = 2;
      instrument_id = 1;
      exchange_order_id = 4;
      side = buy;
      price = pos 100;
      new_remaining_quantity = 3;
    })
    ∷ []

run_replay-publish_all_example :
    Follows events
      (run_replay strict (write_events (publish_all (λ n. n) events new_publisher).sent))
unfolding publish_all publish
run_replay-publish_all_example =
    run_replay-publish_all strict (λ n. n) events
      (
        record {
          sequence_number_fits = omega arith;
          timestamp_ns_fits = omega arith;
          order_id_fits = omega arith;
          instrument_id_fits = omega arith;
          price_fits = pos_fits (omega arith);
          quantity_fits = omega arith;
        },
        (
          record {
            sequence_number_fits = omega arith;
            timestamp_ns_fits = omega arith;
            order_id_fits = omega arith;
            instrument_id_fits = omega arith;
            new_price_fits = pos_fits (omega arith);
            new_quantity_fits = omega arith;
          },
          tt,
        ),
      )
