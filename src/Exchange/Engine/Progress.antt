-- ===== src/Exchange/Engine/Progress.antt =====
-- The matching loop of mdh/src/exchange/matching/matching_engine.cpp ends by its own test, and no
-- command leaves an order with nothing to trade in a book.
use cpp_projects.Base.{
  ℕ, zero, suc, ◌-◌, ◌≤◌, ◌<◌, ◌≡◌, true, false, inl, inr, none, some, List, [], ◌∷◌, arith, ◌==◌,
  Option-cases, Bool-cases, ltb, ◌||◌,
}
use cpp_projects.Types.{opposite}
use cpp_projects.Exchange.Core.{
  ExchangeCommand, new_order, cancel_order, replace_order, ExchangeRestingOrder, BookOrder,
}
use cpp_projects.Exchange.Book
use cpp_projects.Exchange.Book.Orders.{
  IsPositive, create-IsPositive, add-IsPositive, remove_at-IsPositive, remove_front-IsPositive,
  reduce_at-IsPositive, set_client_order_id_at-IsPositive, reduce_front-IsPositive,
  front_of_best_pos,
}
use cpp_projects.Exchange.Engine.State.{
  MatchingEngine, Run, book_for, put_book, register_instrument, create, reject_new_order,
  reject_replace_order, knows_instrument, register_all, max_instrument_id, blank,
}
use cpp_projects.Exchange.Engine.Match.{
  next_contra, crosses, traded, announce_trade, consume_contra, reduce_contra, fill, match_loop,
  match_and_rest, rest_order, reduce_incoming, resting_form,
}
use cpp_projects.Exchange.Engine.Process.{
  take_ids, execute, accept_new_order, cancel_live, replace_in_place, replace_anew, process_command,
  process, announce_replaced,
}
use cpp_projects.Exchange.Engine.Cases.{
  fill_cases, rest_cases, new_order_cases, cancel_cases, replace_cases, replace_live_cases,
  match_loop_inv, match_loop-done, match_loop-round,
}

-- Every order in every book has something left to trade.
abbrev pub HasPositiveBooks : MatchingEngine → Type 0
HasPositiveBooks e = (slot : ℕ) → IsPositive (e.books.at slot)

-- The contra order that a round is about to trade with.
pub record IsContra (r : Run) (incoming : ExchangeRestingOrder) (contra : BookOrder) : Type 0 where
  pub unfilled : (incoming.remaining_quantity == 0) ≡ false
  pub is_front :
      Book.front_of_best (book_for r.engine incoming.instrument_id) (opposite incoming.side)
      ≡ some contra
  pub is_crossing : crosses incoming.side incoming.price contra.price ≡ true

pub next_contra-IsContra :
    (r : Run) (incoming : ExchangeRestingOrder) (contra : BookOrder)
    → next_contra r incoming ≡ some contra
    → IsContra r incoming contra
unfolding next_contra
next_contra-IsContra r incoming contra e = ground arith

-- A round trades at least one unit, if the resting order has any.
reduce_incoming-lt :
    (r : Run) (incoming : ExchangeRestingOrder) (contra : BookOrder)
    → IsContra r incoming contra
    → 0 < contra.remaining_quantity
    → (reduce_incoming incoming contra).remaining_quantity < incoming.remaining_quantity
unfolding reduce_incoming traded
reduce_incoming-lt r incoming contra c h = ground (arith, c.unfilled)

put_book-HasPositiveBooks :
    (e : MatchingEngine) (instrument : ℕ) (book : Book.MatchingBook)
    → HasPositiveBooks e
    → IsPositive book
    → HasPositiveBooks (put_book e instrument book)
put_book-HasPositiveBooks e instrument book h b slot =
    elim (Bool-cases (e.slot_of_id.at instrument == slot)) [
      | inl f ↦ rw f b
      | inr f ↦ rw f (h slot)
    ]

-- A round keeps the books positive.
pub fill-HasPositiveBooks :
    (cs : ℕ) (r : Run) (incoming : ExchangeRestingOrder) (contra : BookOrder)
    → HasPositiveBooks r.engine
    → HasPositiveBooks (fill cs r incoming contra).engine
unfolding announce_trade consume_contra reduce_contra book_for
fill-HasPositiveBooks cs r incoming contra h =
    fill_cases (λ r. HasPositiveBooks r.engine) cs r incoming contra
      (put_book-HasPositiveBooks r.engine incoming.instrument_id _ h
        (remove_front-IsPositive _ (opposite incoming.side) (h _)))
      λ left. put_book-HasPositiveBooks r.engine incoming.instrument_id _ h (
        reduce_front-IsPositive _ (opposite incoming.side)
          (contra.remaining_quantity - traded incoming contra) (ground arith) (h _))

match_loop-HasPositiveBooks :
    (fuel cs : ℕ) (r : Run) (incoming : ExchangeRestingOrder)
    → HasPositiveBooks r.engine
    → HasPositiveBooks (match_loop fuel cs r incoming).0.engine
match_loop-HasPositiveBooks fuel cs r incoming h =
    match_loop_inv (λ r _. HasPositiveBooks r.engine) cs
      (λ r incoming contra _. fill-HasPositiveBooks cs r incoming contra) fuel r incoming h

-- With as much fuel as there is quantity the loop ends by its test.
match_loop-ends :
    (fuel cs : ℕ) (r : Run) (incoming : ExchangeRestingOrder)
    → HasPositiveBooks r.engine
    → incoming.remaining_quantity ≤ fuel
    → let (r', incoming') = match_loop fuel cs r incoming in next_contra r' incoming' ≡ none
match_loop-ends zero cs r incoming h enough = rw (match_loop-done zero cs r incoming stuck) stuck
  where
    stuck : next_contra r incoming ≡ none
    stuck = elim (Option-cases (next_contra r incoming)) [
      | inl e ↦ e
      | inr (contra, e) ↦
          absurd (ground (arith, (next_contra-IsContra r incoming contra e).unfilled))
    ]
match_loop-ends (suc fuel) cs r incoming h enough = elim (Option-cases (next_contra r incoming)) [
  | inl e ↦ rw (match_loop-done (suc fuel) cs r incoming e) e
  | inr (contra, e) ↦ rw (match_loop-round fuel cs r incoming contra e) (
      match_loop-ends fuel cs (fill cs r incoming contra) (reduce_incoming incoming contra)
        (fill-HasPositiveBooks cs r incoming contra h)
        (step contra (next_contra-IsContra r incoming contra e)))
]
  where
    step :
        (contra : BookOrder)
        → IsContra r incoming contra
        → (reduce_incoming incoming contra).remaining_quantity ≤ fuel
    step contra c = omega (
      arith,
      reduce_incoming-lt r incoming contra c (
          front_of_best_pos (book_for r.engine incoming.instrument_id) (opposite incoming.side)
            contra (unfold book_for in h (r.engine.slot_of_id.at incoming.instrument_id))
            c.is_front),
    )

-- In books whose orders all have something left, the loop ends by one of its own tests: the
-- incoming order is filled, or the other side of its book is empty, or its best order does not
-- cross the limit.
pub match_and_rest-ends :
    (cs : ℕ) (r : Run) (incoming : ExchangeRestingOrder)
    → HasPositiveBooks r.engine
    → let (r', incoming') = match_and_rest cs r incoming in next_contra r' incoming' ≡ none
unfolding match_and_rest
match_and_rest-ends cs r incoming h =
    match_loop-ends incoming.remaining_quantity cs r incoming h (omega arith)

pos_of_ne_zero : (n : ℕ) → (n == 0) ≡ false → 0 < n
pos_of_ne_zero n h = ground arith

rest_order-HasPositiveBooks :
    (r : Run) (order : ExchangeRestingOrder)
    → 0 < order.remaining_quantity
    → HasPositiveBooks r.engine
    → HasPositiveBooks (rest_order r order).engine
unfolding rest_order book_for
rest_order-HasPositiveBooks r order fits h =
    let book = book_for r.engine order.instrument_id in
    put_book-HasPositiveBooks r.engine order.instrument_id (Book.add book (resting_form order)).1 h
      (add-IsPositive book (resting_form order) fits (h _))

execute-HasPositiveBooks :
    (cs : ℕ) (r : Run) (order : ExchangeRestingOrder)
    → HasPositiveBooks r.engine
    → HasPositiveBooks (execute cs r order).engine
unfolding execute match_and_rest
execute-HasPositiveBooks cs r order h =
    rest_cases (λ r. HasPositiveBooks r.engine) _ _ matched
      λ left. rest_order-HasPositiveBooks _ _ (pos_of_ne_zero _ left) matched
  where
    matched : HasPositiveBooks (match_loop order.remaining_quantity cs r order).0.engine
    matched = match_loop-HasPositiveBooks order.remaining_quantity cs r order h

process_command-HasPositiveBooks :
    (command : ExchangeCommand) (r : Run)
    → HasPositiveBooks r.engine
    → HasPositiveBooks (process_command command r).engine
unfolding process_command reject_new_order accept_new_order cancel_live reject_replace_order
    replace_in_place replace_anew take_ids announce_replaced book_for
process_command-HasPositiveBooks (new_order cmd) r h =
    new_order_cases (λ r. HasPositiveBooks r.engine) cmd r (λ _ _. h)
      (λ _. execute-HasPositiveBooks cmd.command_sequence _ _ h)
process_command-HasPositiveBooks (cancel_order cmd) r h =
    cancel_cases (λ r. HasPositiveBooks r.engine) cmd r (λ _. h)
      λ ref _.
        put_book-HasPositiveBooks r.engine cmd.instrument_id _ h
          (remove_at-IsPositive _ ref.handle (h _))
process_command-HasPositiveBooks (replace_order cmd) r h =
    replace_cases (λ r. HasPositiveBooks r.engine) cmd r (λ _. h)
      λ ref _ nonzero _.
        replace_live_cases (λ r. HasPositiveBooks r.engine) cmd ref r
          (λ _. put_book-HasPositiveBooks r.engine cmd.instrument_id _ h (
            set_client_order_id_at-IsPositive _ ref.handle _
              (reduce_at-IsPositive _ ref.handle _ (pos_of_ne_zero _ nonzero) (h _))))
          (λ _. execute-HasPositiveBooks cmd.command_sequence _ _ (
            put_book-HasPositiveBooks r.engine cmd.instrument_id _ h
              (remove_at-IsPositive _ ref.handle (h _))))

-- No command leaves an order with nothing to trade in any book.
pub process-HasPositiveBooks :
    (e : MatchingEngine) (command : ExchangeCommand)
    → HasPositiveBooks e
    → HasPositiveBooks (process e command).engine
unfolding process
process-HasPositiveBooks e command h = process_command-HasPositiveBooks command _ h

register_instrument-HasPositiveBooks :
    (e : MatchingEngine) (instrument : ℕ)
    → HasPositiveBooks e
    → HasPositiveBooks (register_instrument e instrument).1
unfolding register_instrument
register_instrument-HasPositiveBooks e instrument h slot =
    elim (Bool-cases (ltb max_instrument_id instrument || knows_instrument e instrument)) [
      | inl known ↦ rw known (h slot)
      | inr fresh ↦ rw fresh (elim (Bool-cases (e.books.size == slot)) [
        | inl new ↦ rw new (create-IsPositive _)
        | inr old ↦ rw old (h slot)
      ])
    ]

register_all-HasPositiveBooks :
    (e : MatchingEngine) (universe : List ℕ)
    → HasPositiveBooks e
    → HasPositiveBooks (register_all e universe)
unfolding register_all
register_all-HasPositiveBooks e [] h = h
register_all-HasPositiveBooks e (i ∷ universe) h =
    register_all-HasPositiveBooks (register_instrument e i).1 universe
      (register_instrument-HasPositiveBooks e i h)

pub create-HasPositiveBooks : (universe : List ℕ) → HasPositiveBooks (create universe)
unfolding create
create-HasPositiveBooks [] slot = create-IsPositive 0
create-HasPositiveBooks (i ∷ universe) slot =
    register_all-HasPositiveBooks (blank _ _) (i ∷ universe) (λ _. create-IsPositive 0) slot
