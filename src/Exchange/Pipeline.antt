-- ===== src/Exchange/Pipeline.antt =====
-- mdh/src/exchange/sequencing/command_sequencer.cpp and matching_pipeline.cpp: numbering commands and
-- the queue between the submitting thread and the matching thread. The queue is the bounded queue that
-- SpscQueue implements. What the matching thread does with a command is a parameter.
use cpp_projects.Base.{ℕ, Bool, true, false, Option, none, some, length, leb, if◌then◌else◌}
use cpp_projects.Base.Word.{inc64}
use cpp_projects.Exchange.Core.{ExchangeCommand, new_order, cancel_order, replace_order}
use cpp_projects.Queue.Bounded.{BoundedQueue, bounded_push, bounded_pop}
mod Numbering
mod Tests

-- The command with a number in place of its own.
abbrev pub numbered : ℕ → ExchangeCommand → ExchangeCommand
numbered sequence (new_order c) = new_order (record c { command_sequence = sequence })
numbered sequence (cancel_order c) = cancel_order (record c { command_sequence = sequence })
numbered sequence (replace_order c) = replace_order (record c { command_sequence = sequence })

-- CommandSequencer::sequence, with the sequencer's next number.
abbrev pub sequence_command : ℕ → ExchangeCommand → ExchangeCommand × ℕ
sequence_command next_sequence command = (numbered next_sequence command, inc64 next_sequence)

-- MatchingPipeline, its processor's state being `S`.
pub record MatchingPipeline (S : Type 0) : Type 0 where
  pub queue : BoundedQueue ExchangeCommand
  pub next_sequence : ℕ
  pub commands_rejected : ℕ
  pub commands_processed : ℕ
  pub state : S

module _ {S : Type 0} where
  -- The size that submit reads is that of the list; the matching thread only makes it smaller.
  unfoldable pub submit : MatchingPipeline S → ExchangeCommand → MatchingPipeline S × Bool
  unfolding bounded_push
  submit p command =
      let (sequenced, next) = sequence_command p.next_sequence command in
      let (queue, pushed) = bounded_push p.queue sequenced in
      if leb p.queue.capacity (length p.queue.items)
      then (record p { commands_rejected = inc64 p.commands_rejected }, false)
      else if pushed
      then (record p { queue = queue; next_sequence = next }, true)
      else (record p { commands_rejected = inc64 p.commands_rejected; next_sequence = next }, false)

  -- One round of the matching thread's loop.
  unfoldable pub process_next : (S → ExchangeCommand → S) → MatchingPipeline S → MatchingPipeline S
  unfolding bounded_pop
  process_next processor p =
      let (command, queue) = bounded_pop p.queue in
      elim command [
        | none ↦ p
        | some c ↦ record p {
          queue = queue;
          state = processor p.state c;
          commands_processed = inc64 p.commands_processed;
        }
      ]
