-- ===== src/Exchange/Engine/Rejects.antt =====
-- The rejections of mdh/src/exchange/matching/matching_engine.cpp: a rejected command changes
-- nothing but the next event number.
use cpp_projects.Base.{ℕ, ◌≡◌, refl, Bool, true, false, ◌||◌, List, [], ◌∷◌, length}
use cpp_projects.Base.Word.{inc64}
use cpp_projects.Exchange.Core.{
  ExchangeCommand, new_order, cancel_order, replace_order, ExchangeRestingOrder,
}
use cpp_projects.Exchange.Events.{ExchangeEvent, order_rejected}
use cpp_projects.Exchange.Engine.State.{MatchingEngine, Run, reject_new_order, reject_replace_order}
use cpp_projects.Exchange.Engine.Match.{
  announce_trade, consume_contra, reduce_contra, match_loop, match_and_rest, rest_order,
}
use cpp_projects.Exchange.Engine.Process.{
  take_ids, execute, announce_accepted, accept_new_order, cancel_live, announce_replaced,
  replace_in_place, replace_anew, process_command, process,
}
use cpp_projects.Exchange.Engine.Cases.{
  fill_cases, rest_cases, new_order_cases, cancel_cases, replace_cases, replace_live_cases,
  match_loop_inv,
}

abbrev is_rejection : ExchangeEvent → Bool
is_rejection (order_rejected _) = true
is_rejection _ = false

abbrev pub has_rejection : List ExchangeEvent → Bool
has_rejection [] = false
has_rejection (event ∷ older) = is_rejection event || has_rejection older

-- One event, and every field of the engine as it was, but for the event number, which is one further.
pub record IsUntouched (e : MatchingEngine) (r : Run) : Type 0 where
  pub one_event : length r.emitted ≡ 1
  pub same_engine : r.engine ≡ record e { next_event_sequence = inc64 e.next_event_sequence }
  pub same_books : r.engine.books ≡ e.books
  pub same_orders : r.engine.orders ≡ e.orders
  pub same_order_id : r.engine.next_exchange_order_id ≡ e.next_exchange_order_id
  pub same_priority : r.engine.next_priority ≡ e.next_priority
  pub same_ids : r.engine.slot_of_id ≡ e.slot_of_id

execute-no_rejection :
    (cs : ℕ) (r : Run) (order : ExchangeRestingOrder)
    → has_rejection r.emitted ≡ false
    → has_rejection (execute cs r order).emitted ≡ false
unfolding execute match_and_rest rest_order announce_trade consume_contra reduce_contra
execute-no_rejection cs r order h =
    rest_cases (λ r. has_rejection r.emitted ≡ false) _ _ matched (λ _. matched)
  where
    matched : has_rejection (match_loop order.remaining_quantity cs r order).0.emitted ≡ false
    matched =
        match_loop_inv (λ r _. has_rejection r.emitted ≡ false) cs
          (λ r incoming contra _ g.
            fill_cases (λ r. has_rejection r.emitted ≡ false) cs r incoming contra g (λ _. g))
          order.remaining_quantity r order h

module _ (e : MatchingEngine) where
  -- What the events say of the run: if one of them is a rejection, the engine is untouched.
  abbrev Honest : Run → Type 0
  Honest r = has_rejection r.emitted ≡ true → IsUntouched e r

  pub untouched :
      (event : ExchangeEvent)
      → IsUntouched e (record {
        engine = record e { next_event_sequence = inc64 e.next_event_sequence };
        emitted = event ∷ [];
      })
  untouched event = record {
    one_event = refl;
    same_engine = refl;
    same_books = refl;
    same_orders = refl;
    same_order_id = refl;
    same_priority = refl;
    same_ids = refl;
  }

clash {ℓ} : {A : Type ℓ} {b : Bool} → b ≡ true → b ≡ false → A
clash p q = absurd (cc)

absurd_of {ℓ} : {A : Type ℓ} → false ≡ true → A
absurd_of p = absurd (cc)

-- If one of a command's events is a rejection, it is the only one, and the whole engine (books,
-- orders, the directories by id and its counters) is as it was, except that the next event number,
-- which the rejection took, is one further.
pub process-IsUntouched :
    (e : MatchingEngine) (command : ExchangeCommand)
    → has_rejection (process e command).emitted ≡ true
    → IsUntouched e (process e command)
unfolding process process_command reject_new_order accept_new_order announce_accepted cancel_live
    reject_replace_order replace_in_place replace_anew take_ids announce_replaced
process-IsUntouched e (new_order cmd) =
    new_order_cases (Honest e) cmd _ (λ _ _ _. untouched e _)
      (λ _ b. clash b (execute-no_rejection cmd.command_sequence _ _ refl))
process-IsUntouched e (cancel_order cmd) =
    cancel_cases (Honest e) cmd _ (λ _ _. untouched e _) (λ _ _ b. absurd_of b)
process-IsUntouched e (replace_order cmd) =
    replace_cases (Honest e) cmd _ (λ _ _. untouched e _)
      λ ref _ _ _.
        replace_live_cases (Honest e) cmd ref _ (λ _ b. absurd_of b)
          (λ _ b. clash b (execute-no_rejection cmd.command_sequence _ _ refl))
