-- ===== src/Exchange/Pipeline/Numbering.antt =====
-- mdh/src/exchange/sequencing: the numbers of the commands that wait for the matching thread.
use cpp_projects.Base.{
  ℕ, suc, ◌+◌, ◌<◌, ◌^◌, ◌≡◌, ◌⊎◌, refl, ap, ◌∙◌, Bool, true, false, ◌≤◌, Bool-cases, inl, inr,
  List, [], ◌∷◌, ◌++◌, arith, length, leb, ltb, length-append,
}
use cpp_projects.Base.Word.{inc64}
use cpp_projects.Exchange.Core.{ExchangeCommand, new_order, cancel_order, replace_order}
use cpp_projects.Queue.Bounded.{bounded_push, bounded_pop}
use cpp_projects.Exchange.Pipeline.{numbered, MatchingPipeline, submit, process_next}

abbrev pub sequence_of : ExchangeCommand → ℕ
sequence_of (new_order c) = c.command_sequence
sequence_of (cancel_order c) = c.command_sequence
sequence_of (replace_order c) = c.command_sequence

-- The commands carry the numbers from `first` on.
abbrev pub NumberedFrom : ℕ → List ExchangeCommand → Type 0
NumberedFrom first [] = Unit
NumberedFrom first (c ∷ cs) = (sequence_of c ≡ first) × NumberedFrom (suc first) cs

sequence_of-numbered : (n : ℕ) (c : ExchangeCommand) → sequence_of (numbered n c) ≡ n
sequence_of-numbered n (new_order c) = refl
sequence_of-numbered n (cancel_order c) = refl
sequence_of-numbered n (replace_order c) = refl

NumberedFrom-append :
    (first : ℕ) (cs : List ExchangeCommand) (c : ExchangeCommand)
    → NumberedFrom first cs
    → sequence_of c ≡ first + length cs
    → NumberedFrom first (cs ++ (c ∷ []))
NumberedFrom-append first [] c h e = (omega arith, tt)
NumberedFrom-append first (d ∷ cs) c h e =
    (h.0, NumberedFrom-append (suc first) cs c h.1 (omega arith))

module _ {S : Type 0} where
  -- The waiting commands carry the numbers behind the next one that is given out, beginning with the
  -- one that the matching thread expects.
  abbrev pub IsGapless : ℕ → MatchingPipeline S → Type 0
  IsGapless expected p =
      NumberedFrom expected p.queue.items × (p.next_sequence ≡ expected + length p.queue.items)

  -- The pipeline after a command waits in it behind the others, with the next number.
  abbrev enqueued : MatchingPipeline S → ExchangeCommand → MatchingPipeline S
  enqueued p command = record p {
    queue = record {
      capacity = p.queue.capacity;
      items = p.queue.items ++ (numbered p.next_sequence command ∷ []);
    };
    next_sequence = p.next_sequence + 1;
  }

  -- The answer is true and the command waits behind the others with the number that was next, or it
  -- is false, the ring is full, and all that changes is the count of refusals.
  abbrev pub Submits : MatchingPipeline S → ExchangeCommand → MatchingPipeline S × Bool → Type 0
  Submits p command (p', answer) =
      ((answer ≡ true) × (p' ≡ enqueued p command))
      ⊎ ((answer ≡ false)
          × (p.queue.capacity ≤ length p.queue.items)
          × (p' ≡ record p { commands_rejected = inc64 p.commands_rejected }))

  -- Submitting a command to a pipeline whose waiting commands carry consecutive numbers, before the
  -- number 2 ^ 64 - 1: the answer is true, and the command waits behind the others with the number
  -- that was next; or the answer is false, the ring is full and nothing changes but the count of
  -- refusals. Either way the numbers that wait stay consecutive.
  pub submit-IsGapless :
      (p : MatchingPipeline S) (expected : ℕ) (command : ExchangeCommand)
      → p.next_sequence + 1 < 2 ^ 64
      → IsGapless expected p
      → Submits p command (submit p command) × IsGapless expected (submit p command).0
  unfolding submit bounded_push
  submit-IsGapless p expected command few h =
      elim (Bool-cases (leb p.queue.capacity (length p.queue.items))) [
        | inl full ↦ rw (full) (inr (refl, ground arith, refl), h)
        | inr room ↦
            let fits : ltb (length p.queue.items) p.queue.capacity ≡ true = ground arith in
            let next_number : inc64 p.next_sequence ≡ p.next_sequence + 1 = ground arith in
            rw (room, fits)
              (
                inl (
                  refl,
                  ap (λ (n : ℕ). record (enqueued p command) { next_sequence = n }) next_number,
                ),
                (
                  NumberedFrom-append expected p.queue.items _ h.0
                      (sequence_of-numbered p.next_sequence command ∙ h.1),
                  omega (
                    arith,
                    h.1,
                    length-append p.queue.items (numbered p.next_sequence command ∷ []),
                  ),
                ),
              )
      ]

  -- A round with nothing waiting does nothing; any other takes the command that is expected and hands
  -- it to the processor.
  abbrev pub Takes : (S → ExchangeCommand → S) → ℕ → MatchingPipeline S → Type 0
  Takes processor expected p =
      ((process_next processor p ≡ p) × (p.queue.items ≡ []))
      ⊎ ((c : ExchangeCommand) × (sequence_of c ≡ expected)
          × ((process_next processor p).state ≡ processor p.state c)
          × IsGapless (suc expected) (process_next processor p))

  waiting_cases :
      (processor : S → ExchangeCommand → S) (p : MatchingPipeline S) (expected : ℕ)
      (items : List ExchangeCommand)
      → let p' = record p { queue = record { capacity = p.queue.capacity; items = items } } in
        IsGapless expected p' → Takes processor expected p'
  unfolding process_next bounded_pop
  waiting_cases processor p expected [] h = inl (refl, refl)
  waiting_cases processor p expected (c ∷ cs) h = inr (c, h.0.0, refl, (h.0.1, omega (arith, h.1)))

  -- While the waiting commands are numbered without a gap, a round of the matching thread does nothing
  -- if none waits, and otherwise processes the one with the expected number and leaves the rest so.
  pub process_next-Takes :
      (processor : S → ExchangeCommand → S) (p : MatchingPipeline S) (expected : ℕ)
      → IsGapless expected p
      → Takes processor expected p
  process_next-Takes processor p expected h = waiting_cases processor p expected p.queue.items h
