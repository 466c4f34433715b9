-- ===== src/Feed/Published.antt =====
-- mdh/src/exchange/market_data/market_data_publisher.cpp and mdh/src/replay/replay_engine.cpp: what a trader
-- rebuilds from the feed of an exchange.
mod Tests
use cpp_projects.Base.{
  ℕ, ◌≡◌, refl, sym, ap, ◌∙◌, Option, none, some, List, [], ◌∷◌, ◌++◌, append_assoc, append-nil,
}
use cpp_projects.Base.Word.{inc64}
use cpp_projects.Exchange.Events.{
  ExchangeEvent, TradeExecuted, BookOrderAdded, BookOrderReduced, BookOrderRemoved, order_accepted,
  order_rejected, order_cancelled, order_replaced, trade_executed, book_order_added,
  book_order_reduced, book_order_removed,
}
use cpp_projects.Wire.MarketData.{Event}
use cpp_projects.Feed.Sequence.{SequenceValidator}
use cpp_projects.Feed.Book.{add_order, cancel_order, modify_order}
use cpp_projects.Feed.Manager.{BookManager, no_books, on_book, record_trade}
use cpp_projects.Feed.Publisher.{
  MarketDataPublisher, new_publisher, publish, publish_all, publish_book_order_added,
  publish_book_order_reduced, publish_book_order_removed, publish_trade_executed,
}
use cpp_projects.Feed.Replay.{
  ReplayOptions, ReplayOutcome, new_outcome, apply_event, run_replay, write_events,
}
use cpp_projects.Feed.Replay.Streams.{rebuild, IsNext, Consecutive}
use cpp_projects.Feed.Replay.Clean.{AllFit, IsClean, run_replay-write_events}

-- The engine's own events on the books.
abbrev pub follow : ExchangeEvent → BookManager → BookManager
follow (book_order_added e) m =
    (on_book e.instrument_id (add_order e.exchange_order_id e.price e.quantity e.side) m).1
follow (book_order_reduced e) m =
    (on_book e.instrument_id (modify_order e.exchange_order_id e.price e.new_remaining_quantity)
      m).1
follow (book_order_removed e) m = (on_book e.instrument_id (cancel_order e.exchange_order_id) m).1
follow (trade_executed e) m = record_trade e.instrument_id e.price e.quantity m
follow (order_accepted e) m = m
follow (order_rejected e) m = m
follow (order_cancelled e) m = m
follow (order_replaced e) m = m

abbrev pub follow_all : List ExchangeEvent → BookManager → BookManager
follow_all [] m = m
follow_all (e ∷ es) m = follow_all es (follow e m)

module _ (clock : ℕ → ℕ) where
  -- What goes out from a number on.
  abbrev feed : ℕ → List ExchangeEvent → List Event
  feed n [] = []
  feed n (book_order_added e ∷ es) = publish_book_order_added clock e n ∷ feed (inc64 n) es
  feed n (book_order_reduced e ∷ es) = publish_book_order_reduced clock e n ∷ feed (inc64 n) es
  feed n (book_order_removed e ∷ es) = publish_book_order_removed clock e n ∷ feed (inc64 n) es
  feed n (trade_executed e ∷ es) = publish_trade_executed clock e n ∷ feed (inc64 n) es
  feed n (order_accepted e ∷ es) = feed n es
  feed n (order_rejected e ∷ es) = feed n es
  feed n (order_cancelled e ∷ es) = feed n es
  feed n (order_replaced e ∷ es) = feed n es

  publish_all-feed :
      (es : List ExchangeEvent) (p : MarketDataPublisher)
      → (publish_all clock es p).sent ≡ p.sent ++ feed p.next_sequence es
  unfolding publish_all publish
  publish_all-feed [] p = sym (append-nil p.sent)
  publish_all-feed (book_order_added e ∷ es) p = publish_all-feed es _ ∙ append_assoc p.sent _ _
  publish_all-feed (book_order_reduced e ∷ es) p = publish_all-feed es _ ∙ append_assoc p.sent _ _
  publish_all-feed (book_order_removed e ∷ es) p = publish_all-feed es _ ∙ append_assoc p.sent _ _
  publish_all-feed (trade_executed e ∷ es) p = publish_all-feed es _ ∙ append_assoc p.sent _ _
  publish_all-feed (order_accepted e ∷ es) p = publish_all-feed es p
  publish_all-feed (order_rejected e ∷ es) p = publish_all-feed es p
  publish_all-feed (order_cancelled e ∷ es) p = publish_all-feed es p
  publish_all-feed (order_replaced e ∷ es) p = publish_all-feed es p

  feed-Consecutive :
      (es : List ExchangeEvent) (v : SequenceValidator) (n : ℕ)
      → IsNext v n
      → Consecutive v (feed n es)
  feed-Consecutive [] v n h = tt
  feed-Consecutive (book_order_added e ∷ es) v n h =
      (h, feed-Consecutive es (some n) (inc64 n) refl)
  feed-Consecutive (book_order_reduced e ∷ es) v n h =
      (h, feed-Consecutive es (some n) (inc64 n) refl)
  feed-Consecutive (book_order_removed e ∷ es) v n h =
      (h, feed-Consecutive es (some n) (inc64 n) refl)
  feed-Consecutive (trade_executed e ∷ es) v n h = (h, feed-Consecutive es (some n) (inc64 n) refl)
  feed-Consecutive (order_accepted e ∷ es) v n h = feed-Consecutive es v n h
  feed-Consecutive (order_rejected e ∷ es) v n h = feed-Consecutive es v n h
  feed-Consecutive (order_cancelled e ∷ es) v n h = feed-Consecutive es v n h
  feed-Consecutive (order_replaced e ∷ es) v n h = feed-Consecutive es v n h

  rebuild-feed :
      (es : List ExchangeEvent) (n : ℕ) (m : BookManager) → rebuild (feed n es) m ≡ follow_all es m
  unfolding apply_event
  rebuild-feed [] n m = refl
  rebuild-feed (book_order_added e ∷ es) n m = rebuild-feed es (inc64 n) _
  rebuild-feed (book_order_reduced e ∷ es) n m = rebuild-feed es (inc64 n) _
  rebuild-feed (book_order_removed e ∷ es) n m = rebuild-feed es (inc64 n) _
  rebuild-feed (trade_executed e ∷ es) n m = rebuild-feed es (inc64 n) _
  rebuild-feed (order_accepted e ∷ es) n m = rebuild-feed es n m
  rebuild-feed (order_rejected e ∷ es) n m = rebuild-feed es n m
  rebuild-feed (order_cancelled e ∷ es) n m = rebuild-feed es n m
  rebuild-feed (order_replaced e ∷ es) n m = rebuild-feed es n m

-- A replay that follows the exchange: it has its books, and neither stopped nor counted a failure.
abbrev pub Follows : List ExchangeEvent → ReplayOutcome → Type 0
Follows es o =
    (o.books ≡ follow_all es no_books)
    × (o.stop_reason ≡ none)
    × (o.stats.decode_failures ≡ 0)
    × (o.stats.sequence_failures ≡ 0)

-- Whatever events an exchange publishes, where the values of the messages are in the ranges of their C++
-- types: the replay of the file of its feed finds no gap and no bad frame, is not stopped, and has the books
-- and the trades that the exchange's own events give; the events that are private to an account leave no
-- trace in it.
pub run_replay-publish_all :
    (options : ReplayOptions) (clock : ℕ → ℕ) (es : List ExchangeEvent)
    → AllFit (publish_all clock es new_publisher).sent
    → Follows es (run_replay options (write_events (publish_all clock es new_publisher).sent))
run_replay-publish_all options clock es w =
    let sent : (publish_all clock es new_publisher).sent ≡ feed clock 1 es =
      publish_all-feed clock es new_publisher in
    let clean : IsClean (publish_all clock es new_publisher).sent new_outcome
        (run_replay options (write_events (publish_all clock es new_publisher).sent)) =
      run_replay-write_events options (publish_all clock es new_publisher).sent w
        (rw (sent) (feed-Consecutive clock es none 1 tt)) in
    (
      clean.books ∙ ap (λ l. rebuild l no_books) sent ∙ rebuild-feed clock es 1 no_books,
      clean.goes_on,
      clean.decode_failures,
      clean.sequence_failures,
    )
