-- ===== src/Feed/Replay.antt =====
-- mdh/src/replay/replay_engine.cpp, event_file_reader.cpp, event_file_writer.cpp and
-- mdh/include/replay/replay_engine.hpp, replay_stats.hpp: a file of market-data frames put on the books.
-- A file is its bytes. The time that a replay takes and the text of a stop reason are left out.
pub mod Streams
pub mod Clean
pub mod Gaps
mod Tests
use cpp_projects.Base.{
  ℕ, zero, suc, Bool, true, false, Option, none, some, List, [], ◌∷◌, ◌++◌, ltb, ◌==◌, length, take,
  drop, if◌then◌else◌,
}
use cpp_projects.Base.Result.{Result, ok, err}
use cpp_projects.Base.Word.{inc64}
use cpp_projects.Wire.FileReader.{next_frame}
use cpp_projects.Wire.MarketData.{event_format}
use cpp_projects.Wire.MarketData as MarketData
use cpp_projects.Wire.MarketData.{
  Event, DecodeError, truncated_header, truncated_payload, Header, decode_header, decode_event,
}
use cpp_projects.Feed.Sequence.{
  SequenceOutcome, in_order, duplicate, out_of_order, missing, SequenceCheck, SequenceValidator,
  check_sequence, reset,
}
use cpp_projects.Feed.Book.{BookError, OrderBook, add_order, cancel_order, modify_order, clear}
use cpp_projects.Feed.Manager.{BookManager, no_books, on_book, record_trade}

pub record ReplayStats : Type 0 where
  pub messages_processed : ℕ
  pub decode_failures : ℕ
  pub sequence_failures : ℕ
  pub recoveries : ℕ
  pub adds : ℕ
  pub cancels : ℕ
  pub modifies : ℕ
  pub trades : ℕ
  pub clears : ℕ
  pub book_errors : ℕ

abbrev pub sequence_of : Event → ℕ
sequence_of (Event.add_order m) = m.sequence_number
sequence_of (Event.cancel_order m) = m.sequence_number
sequence_of (Event.modify_order m) = m.sequence_number
sequence_of (Event.trade m) = m.sequence_number
sequence_of (Event.clear_book m) = m.sequence_number

abbrev pub count_error : Option BookError → ReplayStats → ReplayStats
count_error none s = s
count_error (some e) s = record s { book_errors = inc64 s.book_errors }

-- The books and the counters.
abbrev pub with_error : ReplayStats → Option BookError × BookManager → BookManager × ReplayStats
with_error s (answer, m) = (m, count_error answer s)

unfoldable pub apply_event : Event → BookManager → ReplayStats → BookManager × ReplayStats
unfolding on_book record_trade add_order cancel_order modify_order
apply_event (Event.add_order e) m s =
    with_error (record s { adds = inc64 s.adds })
      (on_book e.instrument_id (add_order e.order_id e.price e.quantity e.side) m)
apply_event (Event.cancel_order e) m s =
    with_error (record s { cancels = inc64 s.cancels })
      (on_book e.instrument_id (cancel_order e.order_id) m)
apply_event (Event.modify_order e) m s =
    with_error (record s { modifies = inc64 s.modifies })
      (on_book e.instrument_id (modify_order e.order_id e.new_price e.new_quantity) m)
apply_event (Event.trade e) m s =
    (record_trade e.instrument_id e.price e.quantity m, record s { trades = inc64 s.trades })
apply_event (Event.clear_book e) m s =
    with_error (record s { clears = inc64 s.clears })
      (on_book e.instrument_id (λ b. (none, clear b)) m)

pub data StopReason : Type 0 where
  decode_error : DecodeError → StopReason
  recovery_failed : StopReason
  sequence_error : SequenceCheck → StopReason

-- With a recovery path, what read_snapshot gives for it.
pub record ReplayOptions : Type 0 where
  pub stop_on_sequence_error : Bool
  pub stop_on_decode_error : Bool
  pub recovery_snapshot : Option (Option BookManager)

-- A stop reason stands where the replay stopped early.
pub record ReplayOutcome : Type 0 where
  pub stats : ReplayStats
  pub books : BookManager
  pub stop_reason : Option StopReason
  pub last_sequence_number : Option ℕ

abbrev pub new_outcome : ReplayOutcome
new_outcome = record {
  stats = record {
    messages_processed = 0;
    decode_failures = 0;
    sequence_failures = 0;
    recoveries = 0;
    adds = 0;
    cancels = 0;
    modifies = 0;
    trades = 0;
    clears = 0;
    book_errors = 0;
  };
  books = no_books;
  stop_reason = none;
  last_sequence_number = none;
}

-- Whether the replay stops, the validator and the outcome.
abbrev pub Applied : Type 0
Applied = Bool × SequenceValidator × ReplayOutcome

abbrev pub stop : StopReason → SequenceValidator → ReplayOutcome → Applied
stop reason v o = (true, v, record o { stop_reason = some reason })

-- The end of apply_frame_result: the event is put on the books.
unfoldable pub process : Event → SequenceValidator → ReplayOutcome → Applied
unfolding apply_event
process event v o =
    let s = record o.stats { messages_processed = inc64 o.stats.messages_processed } in
    let (m, s') = apply_event event o.books s in
    (
      false,
      v,
      record {
        stats = s';
        books = m;
        stop_reason = o.stop_reason;
        last_sequence_number = some (sequence_of event);
      },
    )

-- A gap with a recovery path.
abbrev pub recover : Event → Option BookManager → SequenceValidator → ReplayOutcome → Applied
recover event none v o = stop recovery_failed v o
recover event (some loaded) v o =
    process event (reset v (sequence_of event)) (record o {
      books = loaded;
      stats = record o.stats { recoveries = inc64 o.stats.recoveries };
    })

abbrev pub tolerate : Bool → Event → SequenceCheck → SequenceValidator → ReplayOutcome → Applied
tolerate true event check v o = stop (sequence_error check) v o
tolerate false event check v o = process event v o

abbrev pub on_gap :
    ReplayOptions
    → Option (Option BookManager)
    → Event
    → SequenceCheck
    → SequenceValidator
    → ReplayOutcome
    → Applied
on_gap options none event check v o = tolerate options.stop_on_sequence_error event check v o
on_gap options (some loaded) event check v o = recover event loaded v o

abbrev pub count_failure : ReplayOutcome → ReplayOutcome
count_failure o = record o {
  stats = record o.stats { sequence_failures = inc64 o.stats.sequence_failures };
}

abbrev pub on_check :
    ReplayOptions
    → SequenceOutcome
    → Event
    → SequenceCheck
    → SequenceValidator
    → ReplayOutcome
    → Applied
on_check options in_order event check v o = process event v o
on_check options missing event check v o =
    on_gap options options.recovery_snapshot event check v (count_failure o)
on_check options duplicate event check v o =
    tolerate options.stop_on_sequence_error event check v (count_failure o)
on_check options out_of_order event check v o =
    tolerate options.stop_on_sequence_error event check v (count_failure o)

abbrev pub on_decode_error : Bool → DecodeError → SequenceValidator → ReplayOutcome → Applied
on_decode_error true e v o = stop (decode_error e) v o
on_decode_error false e v o = (false, v, o)

unfoldable pub apply_frame_result :
    ReplayOptions → Result DecodeError Event → SequenceValidator → ReplayOutcome → Applied
unfolding process check_sequence
apply_frame_result options (err e) v o =
    on_decode_error options.stop_on_decode_error e v
      (record o { stats = record o.stats { decode_failures = inc64 o.stats.decode_failures } })
apply_frame_result options (ok event) v o =
    let (check, v') = check_sequence v (sequence_of event) in
    on_check options check.outcome event check v' o

-- EventFileReader::next, with what is left of the file.
abbrev pub next : List ℕ → Option (Result DecodeError Event × List ℕ)
next file = next_frame event_format truncated_header file

-- The loop of run_replay. Every frame takes bytes of the file, so one round more than it has bytes is enough.
unfoldable pub replay_loop :
    ReplayOptions → ℕ → List ℕ → SequenceValidator → ReplayOutcome → ReplayOutcome
unfolding apply_frame_result
replay_loop options zero file v o = o
replay_loop options (suc fuel) file v o = elim (next file) [
  | none ↦ o
  | some (frame, rest) ↦
      let (stops, v', o') = apply_frame_result options frame v o in
      let on = replay_loop options fuel rest v' o' in if stops then o' else on
]

-- run_replay of a file that opens.
unfoldable pub run_replay : ReplayOptions → List ℕ → ReplayOutcome
unfolding replay_loop
run_replay options file = replay_loop options (suc (length file)) file none new_outcome

-- EventFileWriter::write, one event after the other.
unfoldable pub write_events : List Event → List ℕ
unfolding MarketData.encode_event
write_events [] = []
write_events (e ∷ es) = MarketData.encode_event e [] ++ write_events es
