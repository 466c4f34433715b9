-- ===== src/Exchange/Engine/Limits.antt =====
-- What the matching loop of mdh/src/exchange/matching/matching_engine.cpp trades: every trade names the order,
-- and none is worse than its limit.
use cpp_projects.Base.{ℕ, ◌<◌, ◌≡◌, refl, if◌then◌else◌, true, some, List, [], ◌∷◌, arith}
use cpp_projects.Base.Int.{◌≤ℤ◌}
use cpp_projects.Types.{Price, Side, buy, sell, is_buy, opposite}
use cpp_projects.Exchange.Core.{NewOrderCommand, new_order, ExchangeRestingOrder, BookOrder}
use cpp_projects.Exchange.Events.{
  ExchangeEvent, TradeCounterparty, TradeExecuted, order_accepted, trade_executed,
}
use cpp_projects.Exchange.Book.Orders.{front_of_best_pos}
use cpp_projects.Exchange.Engine.State.{MatchingEngine, Run, book_for, reject_new_order}
use cpp_projects.Exchange.Engine.Match.{
  next_contra, crosses, traded, counterparty, announce_trade, consume_contra, reduce_contra, fill,
  match_loop, match_and_rest, rest_order, reduce_incoming,
}
use cpp_projects.Exchange.Engine.Process.{
  take_ids, execute, accept_new_order, process_command, process, announce_accepted, accepted_order,
}
use cpp_projects.Exchange.Engine.Cases.{fill_cases, rest_cases, new_order_cases, match_loop_inv}
use cpp_projects.Exchange.Engine.Progress.{
  HasPositiveBooks, IsContra, next_contra-IsContra, fill-HasPositiveBooks,
}

-- A buy pays no more than its limit, and a sell is paid no less.
abbrev pub Admits : Side → Price → Price → Type 0
Admits buy limit price = price ≤ℤ limit
Admits sell limit price = limit ≤ℤ price

crosses-Admits :
    (side : Side) (limit price : Price) → crosses side limit price ≡ true → Admits side limit price
unfolding crosses
crosses-Admits buy limit price h = ground arith
crosses-Admits sell limit price h = ground arith

-- The party of a trade that is on a side.
abbrev pub party : Side → TradeExecuted → TradeCounterparty
party buy t = t.buyer
party sell t = t.seller

-- The account, the client order id and the exchange order id of a counterparty are those of an order.
abbrev pub Names : NewOrderCommand → ℕ → TradeCounterparty → Type 0
Names cmd exchange_order_id p =
    (p.account_id ≡ cmd.account_id)
    × (p.client_order_id ≡ cmd.client_order_id)
    × (p.exchange_order_id ≡ exchange_order_id)

-- A trade of at least one unit of the order's instrument, at a price that the order's limit admits,
-- with the order's side for the aggressor's, and with the order for the party on that side. An
-- acceptance has the exchange order id too.
abbrev pub WithinLimit : NewOrderCommand → ℕ → ExchangeEvent → Type 0
WithinLimit cmd exchange_order_id (trade_executed t) =
    Admits cmd.side cmd.price t.price
    × (t.aggressor_side ≡ cmd.side)
    × Names cmd exchange_order_id (party cmd.side t)
    × (t.instrument_id ≡ cmd.instrument_id)
    × (0 < t.quantity)
WithinLimit cmd exchange_order_id (order_accepted a) = a.exchange_order_id ≡ exchange_order_id
WithinLimit cmd exchange_order_id _ = Unit

abbrev pub All : (ExchangeEvent → Type 0) → List ExchangeEvent → Type 0
All P [] = Unit
All P (event ∷ older) = P event × All P older

-- The order that the command asks for, but for how much is left of it.
record IsOrder (cmd : NewOrderCommand) (exchange_order_id : ℕ) (incoming : ExchangeRestingOrder)
    : Type 0 where
  same_side : incoming.side ≡ cmd.side
  same_price : incoming.price ≡ cmd.price
  same_instrument : incoming.instrument_id ≡ cmd.instrument_id
  same_account : incoming.account_id ≡ cmd.account_id
  same_client : incoming.client_order_id ≡ cmd.client_order_id
  same_exchange : incoming.exchange_order_id ≡ exchange_order_id

-- The party on the aggressor's side, of the two that announce_trade picks by that side.
party-Names :
    (cmd : NewOrderCommand) (exchange_order_id : ℕ) (side : Side) (t : TradeExecuted)
    (aggressor resting : TradeCounterparty)
    → t.buyer ≡ (if is_buy side then aggressor else resting)
    → t.seller ≡ (if is_buy side then resting else aggressor)
    → Names cmd exchange_order_id aggressor
    → Names cmd exchange_order_id (party side t)
party-Names cmd id buy t aggressor resting b s h = rw (b) h
party-Names cmd id sell t aggressor resting b s h = rw (s) h

abbrev taker : ExchangeRestingOrder → BookOrder → TradeCounterparty
taker incoming contra =
    counterparty incoming.account_id incoming.client_order_id incoming.exchange_order_id
      (reduce_incoming incoming contra).remaining_quantity

module _ (cmd : NewOrderCommand) (exchange_order_id : ℕ) where
  record IsWithin (r : Run) (incoming : ExchangeRestingOrder) : Type 0 where
    same : IsOrder cmd exchange_order_id incoming
    positive : HasPositiveBooks r.engine
    within : All (WithinLimit cmd exchange_order_id) r.emitted

  fill-within :
      (cs : ℕ) (r : Run) (incoming : ExchangeRestingOrder) (contra : BookOrder)
      → Admits cmd.side cmd.price contra.price
      → 0 < traded incoming contra
      → IsOrder cmd exchange_order_id incoming
      → All (WithinLimit cmd exchange_order_id) r.emitted
      → All (WithinLimit cmd exchange_order_id) (fill cs r incoming contra).emitted
  unfolding announce_trade consume_contra reduce_contra
  fill-within cs r incoming contra fair pos same h =
      fill_cases (λ r. All (WithinLimit cmd exchange_order_id) r.emitted) cs r incoming contra
        (tt, ((fair, same.same_side, names _ _ refl refl, same.same_instrument, pos), h))
        (λ _. (tt, ((fair, same.same_side, names _ _ refl refl, same.same_instrument, pos), h)))
    where
      names :
          (t : TradeExecuted) (resting : TradeCounterparty)
          → t.buyer ≡ (if is_buy incoming.side then taker incoming contra else resting)
          → t.seller ≡ (if is_buy incoming.side then resting else taker incoming contra)
          → Names cmd exchange_order_id (party cmd.side t)
      names t resting b s = rw (← same.same_side) (
          party-Names cmd exchange_order_id incoming.side t (taker incoming contra) resting b s
            (same.same_account, same.same_client, same.same_exchange))

  contra-pos :
      (r : Run) (incoming : ExchangeRestingOrder) (contra : BookOrder)
      → IsContra r incoming contra
      → HasPositiveBooks r.engine
      → 0 < traded incoming contra
  unfolding traded book_for
  contra-pos r incoming contra c h = ground (
    arith,
    c.unfilled,
    front_of_best_pos (book_for r.engine incoming.instrument_id) (opposite incoming.side) contra
        (h _) c.is_front,
  )

  fill-IsWithin :
      (cs : ℕ) (r : Run) (incoming : ExchangeRestingOrder) (contra : BookOrder)
      → next_contra r incoming ≡ some contra
      → IsWithin r incoming
      → IsWithin (fill cs r incoming contra) (reduce_incoming incoming contra)
  unfolding reduce_incoming
  fill-IsWithin cs r incoming contra found h =
      let c = next_contra-IsContra r incoming contra found in
      record {
        same = record {
          same_side = h.same.same_side;
          same_price = h.same.same_price;
          same_instrument = h.same.same_instrument;
          same_account = h.same.same_account;
          same_client = h.same.same_client;
          same_exchange = h.same.same_exchange;
        };
        positive = fill-HasPositiveBooks cs r incoming contra h.positive;
        within =
            fill-within cs r incoming contra
              (crosses-Admits cmd.side cmd.price contra.price
                (rw (← h.same.same_side, ← h.same.same_price) c.is_crossing))
              (contra-pos r incoming contra c h.positive) h.same h.within;
      }

  execute-within :
      (cs : ℕ) (r : Run) (order : ExchangeRestingOrder)
      → IsWithin r order
      → All (WithinLimit cmd exchange_order_id) (execute cs r order).emitted
  unfolding execute match_and_rest rest_order
  execute-within cs r order h =
      rest_cases (λ r. All (WithinLimit cmd exchange_order_id) r.emitted) _ _ matched.within
        (λ _. (tt, matched.within))
    where
      matched :
          IsWithin
            (match_loop order.remaining_quantity cs r order).0
            (match_loop order.remaining_quantity cs r order).1
      matched = match_loop_inv IsWithin cs (fill-IsWithin cs) order.remaining_quantity r order h

-- In an engine whose books hold no order with nothing left, every trade of a new order is of at least
-- one unit of the order's instrument, at a price that the order's limit admits (no higher for a buy,
-- no lower for a sell). It has the order's side for the aggressor's, and the counterparty on that
-- side has the command's account and client order id, and the exchange order id that was next, which
-- the acceptance announces as well.
pub new_order-WithinLimit :
    (e : MatchingEngine) (cmd : NewOrderCommand)
    → HasPositiveBooks e
    → All (WithinLimit cmd e.next_exchange_order_id) (process e (new_order cmd)).emitted
unfolding process process_command reject_new_order accept_new_order announce_accepted take_ids
new_order-WithinLimit e cmd h =
    new_order_cases (λ r. All (WithinLimit cmd e.next_exchange_order_id) r.emitted) cmd _
      (λ _ _. (tt, tt))
      λ _.
        execute-within cmd e.next_exchange_order_id cmd.command_sequence _ (accepted_order e cmd)
          (record {
            same = record {
              same_side = refl;
              same_price = refl;
              same_instrument = refl;
              same_account = refl;
              same_client = refl;
              same_exchange = refl;
            };
            positive = h;
            within = (refl, tt);
          })
