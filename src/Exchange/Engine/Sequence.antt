-- ===== src/Exchange/Engine/Sequence.antt =====
-- The event numbers of mdh/src/exchange/matching/matching_engine.cpp: one sequence with no gap.
use cpp_projects.Base.{ℕ, ◌≡◌, refl, List, [], ◌∷◌}
use cpp_projects.Base.Word.{inc64}
use cpp_projects.Exchange.Core.{
  ExchangeCommand, new_order, cancel_order, replace_order, ExchangeRestingOrder, BookOrder,
}
use cpp_projects.Exchange.Events.{ExchangeEvent, event_sequence}
use cpp_projects.Exchange.Engine.State.{MatchingEngine, Run, reject_new_order, reject_replace_order}
use cpp_projects.Exchange.Engine.Match.{
  announce_trade, consume_contra, reduce_contra, fill, match_loop, match_and_rest, rest_order,
}
use cpp_projects.Exchange.Engine.Cases.{
  fill_cases, rest_cases, new_order_cases, cancel_cases, replace_cases, replace_live_cases,
  match_loop_inv,
}
use cpp_projects.Exchange.Engine.Process.{
  take_ids, execute, accept_new_order, cancel_live, replace_in_place, replace_anew, process_command,
  process, announce_replaced,
}

-- `events`, the newest first, carry the numbers from `first` up to before `next`.
abbrev pub Numbered : ℕ → List ExchangeEvent → ℕ → Type 0
Numbered first [] next = next ≡ first
Numbered first (event ∷ older) next =
    (next ≡ inc64 (event_sequence event)) × Numbered first older (event_sequence event)

-- What the run has emitted so far is numbered from `first`.
abbrev pub IsNumbered : ℕ → Run → Type 0
IsNumbered first r = Numbered first r.emitted r.engine.next_event_sequence

module _ (first : ℕ) where
  fill-IsNumbered :
      (cs : ℕ) (r : Run) (incoming : ExchangeRestingOrder) (contra : BookOrder)
      → IsNumbered first r
      → IsNumbered first (fill cs r incoming contra)
  unfolding announce_trade consume_contra reduce_contra
  fill-IsNumbered cs r incoming contra h =
      fill_cases (IsNumbered first) cs r incoming contra (refl, (refl, h)) (λ _. (refl, (refl, h)))

  execute-IsNumbered :
      (cs : ℕ) (r : Run) (order : ExchangeRestingOrder)
      → IsNumbered first r
      → IsNumbered first (execute cs r order)
  unfolding execute match_and_rest rest_order
  execute-IsNumbered cs r order h = rest_cases (IsNumbered first) _ _ matched (λ _. (refl, matched))
    where
      matched : IsNumbered first (match_loop order.remaining_quantity cs r order).0
      matched =
          match_loop_inv (λ r _. IsNumbered first r) cs
            (λ r incoming contra _. fill-IsNumbered cs r incoming contra) order.remaining_quantity r
            order h

  process_command-IsNumbered :
      (command : ExchangeCommand) (r : Run)
      → IsNumbered first r
      → IsNumbered first (process_command command r)
  unfolding process_command reject_new_order accept_new_order cancel_live reject_replace_order
      replace_in_place replace_anew take_ids announce_replaced
  process_command-IsNumbered (new_order cmd) r h =
      new_order_cases (IsNumbered first) cmd r (λ _ _. (refl, h))
        (λ _. execute-IsNumbered cmd.command_sequence _ _ (refl, h))
  process_command-IsNumbered (cancel_order cmd) r h =
      cancel_cases (IsNumbered first) cmd r (λ _. (refl, h)) (λ _ _. (refl, (refl, h)))
  process_command-IsNumbered (replace_order cmd) r h =
      replace_cases (IsNumbered first) cmd r (λ _. (refl, h))
        λ ref _ _ _.
          replace_live_cases (IsNumbered first) cmd ref r (λ _. (refl, (refl, h)))
            (λ _. execute-IsNumbered cmd.command_sequence _ _ (refl, (refl, h)))

-- The events of one command, in the order of emission, carry consecutive numbers modulo 2 ^ 64,
-- the first of them the engine's next number, and the engine's counter goes past the last.
pub process-Numbered :
    (e : MatchingEngine) (command : ExchangeCommand)
    → Numbered e.next_event_sequence
        (process e command).emitted
        (process e command).engine.next_event_sequence
unfolding process
process-Numbered e command = process_command-IsNumbered e.next_event_sequence command _ refl
