-- ===== src/Lob/Engine.antt =====
-- LimitOrderBook/include/spsc_queue.hpp, matching_engine.hpp and LimitOrderBook/src/matching_engine.cpp: the
-- queue of commands and the engine behind it, a call or a round of the loop at a time. The clock is an argument.
mod Drain
mod Tests
use cpp_projects.Base.{
  ℕ, zero, suc, ◌+◌, ◌%◌, ◌^◌, Bool, true, false, Option, none, some, List, [], ◌∷◌, ltb, ◌==◌,
  ◌&&◌, if◌then◌else◌,
}
use cpp_projects.Base.Int.{ℤ, pos, ltb_ℤ, ◌==ℤ◌}
use cpp_projects.Base.Word.{inc64, sub64}
use cpp_projects.Types.{Price, Quantity, Side}
use cpp_projects.Lob.{
  Order, OrderBook, Command, add_command, cancel_command, perform, empty_book, get_best_bid,
  get_best_ask,
}

-- SPSCQueue<Command, 4096>, whose positions are counters of 64 bits.
pub record SpscQueue : Type 0 where
  pub buffer : ℕ → Command
  pub head : ℕ
  pub tail : ℕ

abbrev pub store_at : ℕ → Command → (ℕ → Command) → ℕ → Command
store_at slot item buffer i = if i == slot then item else buffer i

unfoldable pub push : Command → SpscQueue → Bool × SpscQueue
push item q =
    if sub64 q.tail q.head == 4096
    then (false, q)
    else (true, record q { buffer = store_at (q.tail % 4096) item q.buffer; tail = inc64 q.tail })

unfoldable pub pop : SpscQueue → Option Command × SpscQueue
pop q =
    if q.head == q.tail
    then (none, q)
    else (some (q.buffer (q.head % 4096)), record q { head = inc64 q.head })

pub record MatchingEngine : Type 0 where
  pub published_best_ask : Price
  pub published_best_bid : Price
  pub queue : SpscQueue
  pub order_book : OrderBook
  pub next_id : ℕ

-- A default command in every slot.
abbrev pub new_engine : MatchingEngine
new_engine = record {
  published_best_ask = pos 0;
  published_best_bid = pos 0;
  queue = record { buffer = λ i. cancel_command 0; head = 0; tail = 0 };
  order_book = empty_book;
  next_id = 0;
}

unfoldable pub is_valid : Order → Bool
is_valid order = ltb_ℤ (pos 0) order.price && ltb 0 order.quantity

unfoldable pub submit : ℕ → Price → Quantity → Side → MatchingEngine → MatchingEngine
submit timestamp price quantity side e =
    let order : Order = record {
      price = price;
      timestamp = timestamp;
      quantity = quantity;
      id = e.next_id;
      side = side;
    } in
    let e' = record e { next_id = (e.next_id + 1) % 2 ^ 32 } in
    if is_valid order then record e' { queue = (push (add_command order) e.queue).1 } else e'

unfoldable pub cancel_order : ℕ → MatchingEngine → MatchingEngine
cancel_order id e = record e { queue = (push (cancel_command id) e.queue).1 }

abbrev pub value_or_zero : Option Price → Price
value_or_zero none = pos 0
value_or_zero (some p) = p

abbrev pub publish : MatchingEngine → MatchingEngine
publish e = record e {
  published_best_ask = value_or_zero (get_best_ask e.order_book);
  published_best_bid = value_or_zero (get_best_bid e.order_book);
}

-- The body of the loop of run, behind pop.
abbrev pub with_item : Option Command × SpscQueue → MatchingEngine → MatchingEngine
with_item (none, q) e = e
with_item (some command, q) e =
    publish (record e { queue = q; order_book = perform command e.order_book })

-- A round of the loop.
unfoldable pub round : MatchingEngine → MatchingEngine
round e = with_item (pop e.queue) e

unfoldable pub rounds : ℕ → MatchingEngine → MatchingEngine
unfolding round
rounds zero e = e
rounds (suc n) e = rounds n (round e)

abbrev pub unless_zero : Price → Option Price
unless_zero p = if p ==ℤ pos 0 then none else some p

-- getBestAsk and getBestBid of the engine.
abbrev pub published_ask : MatchingEngine → Option Price
published_ask e = unless_zero e.published_best_ask

abbrev pub published_bid : MatchingEngine → Option Price
published_bid e = unless_zero e.published_best_bid
