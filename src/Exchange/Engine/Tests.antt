-- ===== src/Exchange/Engine/Tests.antt =====
-- Runs of the engine of mdh/src/exchange/matching/matching_engine.cpp, and the theorems at them.
use cpp_projects.Base.{ℕ, ◌+◌, ◌≤◌, ◌≡◌, refl, none, List, [], ◌∷◌, map}
use cpp_projects.Base.Int.{pos, ◌+ℤ◌, ◌-ℤ◌}
use cpp_projects.Base.Word.{to_u64}
use cpp_projects.Base.Map.{find, insert_or_assign, erase}
use cpp_projects.Types.{Side, buy, sell}
use cpp_projects.Exchange.Core.{
  NewOrderCommand, ExchangeCommand, new_order, limit, TimeInForce, gtc, ioc, fok,
}
use cpp_projects.Exchange.Events.{event_sequence}
use cpp_projects.Exchange.Book
use cpp_projects.Exchange.Book.Bits.{
  is_set, set_bit, clear_bit, highest_bit, lowest_bit, mask_below, mask_above,
}
use cpp_projects.Exchange.Book.Overflow
use cpp_projects.Exchange.Book.Index
use cpp_projects.Exchange.Engine.State.{MatchingEngine, create, knows_instrument, book_for}
use cpp_projects.Exchange.Engine.Match.{
  next_contra, match_and_rest, rest_remainder_if_applicable, crosses, reduce_incoming, traded,
  crossable_quantity,
}
use cpp_projects.Exchange.Engine.Process.{process, new_order_fault, accepted_order, find_live}
use cpp_projects.Exchange.Engine.Sequence.{Numbered, process-Numbered}
use cpp_projects.Exchange.Engine.Progress.{
  HasPositiveBooks, create-HasPositiveBooks, process-HasPositiveBooks, match_and_rest-ends,
}
use cpp_projects.Exchange.Engine.Fills.{
  traded_total, rested_total, gtc_conservation, immediate_conservation,
}
use cpp_projects.Exchange.Engine.Limits.{All, WithinLimit, new_order-WithinLimit}
use cpp_projects.Exchange.Engine.Rejects.{IsUntouched, process-IsUntouched}

abbrev order : ℕ → ℕ → Side → ℕ → ℕ → TimeInForce → NewOrderCommand
order sequence account side price quantity time_in_force = record {
  command_sequence = sequence;
  account_id = account;
  client_order_id = sequence;
  instrument_id = 1;
  side = side;
  price = pos price;
  quantity = quantity;
  order_type = limit;
  time_in_force = time_in_force;
}

run : MatchingEngine → List ExchangeCommand → MatchingEngine
run e [] = e
run e (command ∷ commands) = run (process e command).engine commands

abbrev opening : List ExchangeCommand
opening = new_order (order 1 7 sell 10000 5 gtc) ∷ new_order (order 2 8 sell 10001 7 gtc) ∷ []

-- Instrument 1, with asks of 5 at 10000 and of 7 at 10001.
-- Opens everything that a run computes with.
opened : Unit {0}
unfolding run create process knows_instrument book_for new_order_fault find_live crosses
    reduce_incoming traded crossable_quantity match_and_rest rest_remainder_if_applicable find
    insert_or_assign erase to_u64 ◌+ℤ◌ ◌-ℤ◌ is_set set_bit clear_bit highest_bit lowest_bit
    mask_below mask_above Overflow.find Overflow.put Overflow.erase Overflow.first_key
    Overflow.last_key Overflow.first_above Overflow.last_below Index.create Index.empty
    Index.in_band Index.level_at Index.put_level Index.level_for Index.find_level Index.erase_level
    Index.best_price Index.next_price Book.band_for Book.create Book.side_of Book.with_side Book.add
    Book.remove_at Book.reduce_at Book.set_client_order_id_at Book.order_at Book.front_of_best
    Book.reduce_front Book.remove_front Book.crossable_quantity
opened = tt

abbrev quoted : MatchingEngine
quoted = run (create (1 ∷ [])) opening

run-HasPositiveBooks :
    (e : MatchingEngine) (commands : List ExchangeCommand)
    → HasPositiveBooks e
    → HasPositiveBooks (run e commands)
unfolding run
run-HasPositiveBooks e [] h = h
run-HasPositiveBooks e (command ∷ commands) h =
    run-HasPositiveBooks (process e command).engine commands (process-HasPositiveBooks e command h)

quoted-HasPositiveBooks : HasPositiveBooks quoted
quoted-HasPositiveBooks =
    run-HasPositiveBooks (create (1 ∷ [])) opening (create-HasPositiveBooks (1 ∷ []))

abbrev sweep : NewOrderCommand
sweep = order 3 9 buy 10001 20 gtc

abbrev probe : NewOrderCommand
probe = order 4 9 buy 10000 20 ioc

process-Numbered_example :
    Numbered quoted.next_event_sequence
      (process quoted (new_order sweep)).emitted
      (process quoted (new_order sweep)).engine.next_event_sequence
process-Numbered_example = process-Numbered quoted (new_order sweep)

match_and_rest-ends_example :
    let r =
      match_and_rest 3 (record { engine = quoted; emitted = [] }) (accepted_order quoted sweep) in
    next_contra r.0 r.1 ≡ none
match_and_rest-ends_example =
    match_and_rest-ends 3 (record { engine = quoted; emitted = [] }) (accepted_order quoted sweep)
      quoted-HasPositiveBooks

process-HasPositiveBooks_example : HasPositiveBooks (process quoted (new_order sweep)).engine
process-HasPositiveBooks_example =
    process-HasPositiveBooks quoted (new_order sweep) quoted-HasPositiveBooks

sweep_valid : new_order_fault quoted sweep ≡ none
unfolding opened
sweep_valid = refl

sweep_events :
    map event_sequence (process quoted (new_order sweep)).emitted ≡ 10 ∷ 9 ∷ 8 ∷ 7 ∷ 6 ∷ 5 ∷ []
unfolding opened
sweep_events = refl

probe_valid : new_order_fault quoted probe ≡ none
unfolding opened
probe_valid = refl

gtc_conservation_example :
    traded_total (process quoted (new_order sweep)).emitted
      + rested_total (process quoted (new_order sweep)).emitted
    ≡ 20
gtc_conservation_example = gtc_conservation quoted sweep sweep_valid refl

sweep_trades : traded_total (process quoted (new_order sweep)).emitted ≡ 12
unfolding opened
sweep_trades = refl

immediate_conservation_example :
    (traded_total (process quoted (new_order probe)).emitted ≤ 20)
    × (rested_total (process quoted (new_order probe)).emitted ≡ 0)
immediate_conservation_example = immediate_conservation quoted probe probe_valid refl

new_order-WithinLimit_example :
    All (WithinLimit sweep quoted.next_exchange_order_id) (process quoted (new_order sweep)).emitted
new_order-WithinLimit_example = new_order-WithinLimit quoted sweep quoted-HasPositiveBooks

-- A fill-or-kill for more than rests is refused.
process-IsUntouched_example :
    IsUntouched quoted (process quoted (new_order (order 5 9 buy 10001 13 fok)))
unfolding opened
process-IsUntouched_example =
    process-IsUntouched quoted (new_order (order 5 9 buy 10001 13 fok)) refl
