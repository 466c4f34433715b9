-- ===== src/Feed/Replay/Clean.antt =====
-- mdh/src/replay/replay_engine.cpp, event_file_reader.cpp, event_file_writer.cpp: the replay of a file that
-- was written from consecutive events.
use cpp_projects.Base.{
  ℕ, zero, suc, ◌≤◌, ◌<◌, ◌≡◌, refl, ap, ◌∙◌, true, Option, none, some, List, [], ◌∷◌, ◌++◌,
  append_assoc, arith, ◌==◌, length, length-append,
}
use cpp_projects.Base.Result.{ok}
use cpp_projects.Base.Word.{inc64}
use cpp_projects.Wire.FileReader.{next_frame, next_frame-IsFrame}
use cpp_projects.Wire.MarketData.{event_format, truncated_header, Event, encode_event}
use cpp_projects.Wire.MarketDataPayloads.{FitsEvent}
use cpp_projects.Wire.MarketDataRoundTrip.{event-IsFrame, frame_of}
use cpp_projects.Feed.Sequence.{SequenceValidator, check_sequence}
use cpp_projects.Feed.Manager.{BookManager, on_book}
use cpp_projects.Feed.Book.{BookError, add_order, cancel_order, modify_order, clear}
use cpp_projects.Feed.Replay.{
  ReplayStats, with_error, ReplayOptions, ReplayOutcome, new_outcome, sequence_of, apply_event,
  process, apply_frame_result, next, replay_loop, run_replay, write_events,
}
use cpp_projects.Feed.Replay.Streams.{rebuild, IsNext, Consecutive, last_of, apply_event-books}

abbrev pub AllFit : List Event → Type 0
AllFit [] = Unit
AllFit (e ∷ es) = FitsEvent e × AllFit es

next-encode_event :
    (e : Event) (rest : List ℕ) → FitsEvent e → next (encode_event e [] ++ rest) ≡ some (ok e, rest)
next-encode_event e rest w =
    let (header, (payload, (h, bytes, frame))) = event-IsFrame e w in
    ap (λ b. next (b ++ rest)) bytes
    ∙ ap next (append_assoc header payload rest)
    ∙ next_frame-IsFrame event_format truncated_header header payload rest (omega arith) frame

-- An outcome with the events on its books, and no failure more.
pub record IsClean (es : List Event) (o result : ReplayOutcome) : Type 0 where
  pub books : result.books ≡ rebuild es o.books
  pub last_sequence_number : result.last_sequence_number ≡ last_of o.last_sequence_number es
  pub goes_on : result.stop_reason ≡ o.stop_reason
  pub decode_failures : result.stats.decode_failures ≡ o.stats.decode_failures
  pub sequence_failures : result.stats.sequence_failures ≡ o.stats.sequence_failures

with_error-failures :
    (s : ReplayStats) (r : Option BookError × BookManager)
    → ((with_error s r).1.decode_failures ≡ s.decode_failures)
      × ((with_error s r).1.sequence_failures ≡ s.sequence_failures)
with_error-failures s (none, m) = (refl, refl)
with_error-failures s (some e, m) = (refl, refl)

apply_event-failures :
    (e : Event) (m : BookManager) (s : ReplayStats)
    → ((apply_event e m s).1.decode_failures ≡ s.decode_failures)
      × ((apply_event e m s).1.sequence_failures ≡ s.sequence_failures)
unfolding apply_event
apply_event-failures (Event.add_order e) m s =
    with_error-failures (record s { adds = inc64 s.adds })
      (on_book e.instrument_id (add_order e.order_id e.price e.quantity e.side) m)
apply_event-failures (Event.cancel_order e) m s =
    with_error-failures (record s { cancels = inc64 s.cancels })
      (on_book e.instrument_id (cancel_order e.order_id) m)
apply_event-failures (Event.modify_order e) m s =
    with_error-failures (record s { modifies = inc64 s.modifies })
      (on_book e.instrument_id (modify_order e.order_id e.new_price e.new_quantity) m)
apply_event-failures (Event.trade e) m s = (refl, refl)
apply_event-failures (Event.clear_book e) m s =
    with_error-failures (record s { clears = inc64 s.clears })
      (on_book e.instrument_id (λ b. (none, clear b)) m)

process-IsClean :
    (e : Event) (v : SequenceValidator) (o : ReplayOutcome) → IsClean (e ∷ []) o (process e v o).2
unfolding process
process-IsClean e v o = record {
  books = apply_event-books e o.books _ _;
  last_sequence_number = refl;
  goes_on = refl;
  decode_failures = (apply_event-failures e o.books _).0;
  sequence_failures = (apply_event-failures e o.books _).1;
}

IsClean-trans :
    (e : Event) (es : List Event) (o o' result : ReplayOutcome)
    → IsClean (e ∷ []) o o'
    → IsClean es o' result
    → IsClean (e ∷ es) o result
IsClean-trans e es o o' result first others = record {
  books = others.books ∙ ap (rebuild es) first.books;
  last_sequence_number =
      others.last_sequence_number ∙ ap (λ (n : Option ℕ). last_of n es) first.last_sequence_number;
  goes_on = others.goes_on ∙ first.goes_on;
  decode_failures = others.decode_failures ∙ first.decode_failures;
  sequence_failures = others.sequence_failures ∙ first.sequence_failures;
}

module _ (options : ReplayOptions) where
  apply_frame_result-next :
      (e : Event) (v : SequenceValidator) (o : ReplayOutcome)
      → IsNext v (sequence_of e)
      → apply_frame_result options (ok e) v o ≡ process e (some (sequence_of e)) o
  unfolding apply_frame_result check_sequence
  apply_frame_result-next e none o follows = refl
  apply_frame_result-next e (some last) o follows =
      let test : (sequence_of e == inc64 last) ≡ true = ground (arith, follows) in
      rw (apply_frame_result, check_sequence, test) refl

  replay_loop-IsClean :
      (es : List Event) (fuel : ℕ) (v : SequenceValidator) (o : ReplayOutcome)
      → length es < fuel
      → AllFit es
      → Consecutive v es
      → IsClean es o (replay_loop options fuel (write_events es) v o)
  unfolding replay_loop write_events next_frame
  replay_loop-IsClean es zero v o enough w numbers = absurd (omega arith)
  replay_loop-IsClean [] (suc fuel) v o enough w numbers = record {
    books = refl;
    last_sequence_number = refl;
    goes_on = refl;
    decode_failures = refl;
    sequence_failures = refl;
  }
  replay_loop-IsClean (e ∷ es) (suc fuel) v o enough w numbers =
      let o' : ReplayOutcome = (process e (some (sequence_of e)) o).2 in
      rw
        (
          replay_loop,
          next-encode_event e (write_events es) w.0,
          apply_frame_result-next e v o numbers.0,
        )
        (IsClean-trans e es o o' _ (process-IsClean e (some (sequence_of e)) o)
          (replay_loop-IsClean es fuel (some (sequence_of e)) o' (omega arith) w.1 numbers.1))

length-write_events : (es : List Event) → AllFit es → length es ≤ length (write_events es)
unfolding write_events
length-write_events [] w = omega arith
length-write_events (e ∷ es) w =
    let (h, decodes, size) = frame_of e w.0 in
    omega
      (arith, size, length-append (encode_event e []) (write_events es), length-write_events es w.1)

-- The replay of a file that the writer made of events with consecutive sequence numbers, whose values are in
-- the ranges of their C++ types, puts exactly these events on the books, in their order, whatever the
-- options are: it is not stopped, counts no failure, and ends with the number of the last event.
pub run_replay-write_events :
    (options : ReplayOptions) (es : List Event)
    → AllFit es
    → Consecutive none es
    → IsClean es new_outcome (run_replay options (write_events es))
unfolding run_replay
run_replay-write_events options es w numbers =
    replay_loop-IsClean options es (suc (length (write_events es))) none new_outcome
      (omega (arith, length-write_events es w)) w numbers
