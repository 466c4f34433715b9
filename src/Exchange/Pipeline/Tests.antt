-- ===== src/Exchange/Pipeline/Tests.antt =====
-- A pipeline that has numbered one command and is given another.
use cpp_projects.Base.{ℕ, refl, List, [], ◌∷◌, arith}
use cpp_projects.Exchange.Core.{ExchangeCommand, cancel_order}
use cpp_projects.Exchange.Pipeline.{MatchingPipeline, submit}
use cpp_projects.Exchange.Pipeline.Numbering.{
  IsGapless, Submits, Takes, sequence_of, submit-IsGapless, process_next-Takes,
}

-- The sequence is what the submitter happens to have put there.
abbrev cancel : ℕ → ℕ → ExchangeCommand
cancel sequence client_order_id = cancel_order (record {
  command_sequence = sequence;
  account_id = 1;
  client_order_id = client_order_id;
  instrument_id = 3;
})

-- The matching thread's state is the numbers that it has seen.
abbrev note : List ℕ → ExchangeCommand → List ℕ
note seen c = sequence_of c ∷ seen

abbrev waiting : MatchingPipeline (List ℕ)
waiting = record {
  queue = record { capacity = 4; items = cancel 5 11 ∷ [] };
  next_sequence = 6;
  commands_rejected = 0;
  commands_processed = 4;
  state = [];
}

submit-IsGapless_example :
    Submits waiting (cancel 0 12) (submit waiting (cancel 0 12))
    × IsGapless 5 (submit waiting (cancel 0 12)).0
submit-IsGapless_example = submit-IsGapless waiting 5 (cancel 0 12) (omega arith) ((refl, tt), refl)

process_next-Takes_example : Takes note 5 waiting
process_next-Takes_example = process_next-Takes note waiting 5 ((refl, tt), refl)
