-- ===== src/Feed/Sequence.antt =====
-- mdh/include/common/sequence_validator.hpp, mdh/src/common/sequence_validator.cpp and
-- mdh/include/net/packet_sequence_tracker.hpp: gaps and repeats in a stream of sequence numbers.
use cpp_projects.Base.{
  ℕ, ◌+◌, ◌^◌, ◌<◌, ◌≡◌, inl, inr, Bool, true, false, Bool-cases, Option, none, some, List, [], ◌∷◌,
  ◌==◌, ltb, if◌then◌else◌, arith,
}
use cpp_projects.Base.Word.{inc64}

pub data SequenceOutcome : Type 0 where
  in_order duplicate out_of_order missing : SequenceOutcome

pub record SequenceCheck : Type 0 where
  pub outcome : SequenceOutcome
  pub observed : ℕ
  pub expected : ℕ

-- SequenceValidator: the number seen last.
abbrev pub SequenceValidator : Type 0
SequenceValidator = Option ℕ

abbrev pub outcome_after : ℕ → ℕ → SequenceCheck
outcome_after last seq =
    if seq == inc64 last
    then record { outcome = in_order; observed = seq; expected = 0 }
    else if seq == last
    then record { outcome = duplicate; observed = seq; expected = 0 }
    else if ltb seq last
    then record { outcome = out_of_order; observed = seq; expected = 0 }
    else record { outcome = missing; observed = seq; expected = inc64 last }

-- Whether the validator takes the number as the last one.
abbrev pub takes : SequenceOutcome → Bool
takes in_order = true
takes missing = true
takes _ = false

unfoldable pub check_sequence : SequenceValidator → ℕ → SequenceCheck × SequenceValidator
check_sequence none seq = (record { outcome = in_order; observed = seq; expected = 0 }, some seq)
check_sequence (some last) seq =
    let result = outcome_after last seq in
    (result, if takes result.outcome then some seq else some last)

abbrev pub reset : SequenceValidator → ℕ → SequenceValidator
reset v seq = some seq

pub record PacketSequenceStats : Type 0 where
  pub packets_seen : ℕ
  pub in_order_count : ℕ
  pub duplicate_count : ℕ
  pub out_of_order_count : ℕ
  pub missing_events : ℕ

pub record PacketSequenceTracker : Type 0 where
  pub validator : SequenceValidator
  pub stats : PacketSequenceStats

abbrev pub count : SequenceOutcome → PacketSequenceStats → PacketSequenceStats
count in_order s = record s { in_order_count = inc64 s.in_order_count }
count duplicate s = record s { duplicate_count = inc64 s.duplicate_count }
count out_of_order s = record s { out_of_order_count = inc64 s.out_of_order_count }
count missing s = record s { missing_events = inc64 s.missing_events }

unfoldable pub observe : PacketSequenceTracker → ℕ → SequenceCheck × PacketSequenceTracker
unfolding check_sequence
observe t seq =
    let (result, validator) = check_sequence t.validator seq in
    (
      result,
      record {
        validator = validator;
        stats = count result.outcome (record t.stats { packets_seen = inc64 t.stats.packets_seen });
      },
    )

-- The numbers of a stream that the validator takes as the last one.
abbrev pub taken : SequenceValidator → List ℕ → List ℕ
taken v [] = []
taken v (seq ∷ seqs) =
    let rest = taken (check_sequence v seq).1 seqs in
    if takes (check_sequence v seq).0.outcome then seq ∷ rest else rest

-- Each number is above the bound and above the ones before it.
abbrev pub RisesAbove : ℕ → List ℕ → Type 0
RisesAbove bound [] = Unit
RisesAbove bound (seq ∷ seqs) = (bound < seq) × RisesAbove seq seqs

-- Numbers of 64 bits short of the last.
abbrev pub Fits : List ℕ → Type 0
Fits [] = Unit
Fits (seq ∷ seqs) = (seq + 1 < 2 ^ 64) × Fits seqs

taken_rise :
    (last seq : ℕ) → last + 1 < 2 ^ 64 → takes (outcome_after last seq).outcome ≡ true → last < seq
taken_rise last seq few h = ground arith

-- The numbers that the validator takes after a first one rise strictly, whatever is repeated, late or
-- left out of the stream, while they are below 2 ^ 64 - 1.
pub taken-RisesAbove :
    (last : ℕ) (seqs : List ℕ)
    → last + 1 < 2 ^ 64
    → Fits seqs
    → RisesAbove last (taken (some last) seqs)
unfolding check_sequence
taken-RisesAbove last [] few fits = tt
taken-RisesAbove last (seq ∷ seqs) few fits =
    elim (Bool-cases (takes (outcome_after last seq).outcome)) [
      | inl newer ↦
          rw (newer) (taken_rise last seq few newer, taken-RisesAbove seq seqs fits.0 fits.1)
      | inr older ↦ rw (older) (taken-RisesAbove last seqs few fits.1)
    ]
