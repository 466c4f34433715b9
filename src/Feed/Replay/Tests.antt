-- ===== src/Feed/Replay/Tests.antt =====
-- mdh/src/replay/replay_engine.cpp: runs of a replay.
use cpp_projects.Base.{ℕ, refl, true, none, List, [], ◌∷◌}
use cpp_projects.Base.Int.{pos}
use cpp_projects.Types.{buy}
use cpp_projects.Wire.MarketData.{Event}
use cpp_projects.Feed.Replay.{ReplayOptions, run_replay, write_events}
use cpp_projects.Feed.Replay.Gaps.{ReplayedInOrder, run_replay-ReplayedInOrder}

abbrev strict : ReplayOptions
strict = record {
  stop_on_sequence_error = true;
  stop_on_decode_error = true;
  recovery_snapshot = none;
}

abbrev an_order : ℕ → Event
an_order n = Event.add_order (record {
  sequence_number = n;
  timestamp_ns = 0;
  order_id = n;
  instrument_id = 1;
  price = pos 100;
  quantity = 5;
  side = buy;
})

abbrev a_cancel : ℕ → Event
a_cancel n =
    Event.cancel_order
      (record { sequence_number = n; timestamp_ns = 0; order_id = 7; instrument_id = 1 })

-- The third event leaves a number out.
abbrev with_gap : List Event
with_gap = an_order 7 ∷ a_cancel 8 ∷ an_order 10 ∷ []

run_replay-ReplayedInOrder_example :
    ReplayedInOrder (write_events with_gap) (run_replay strict (write_events with_gap))
run_replay-ReplayedInOrder_example =
    run_replay-ReplayedInOrder strict (write_events with_gap) refl refl
