-- ===== src/Feed/Replay/Gaps.antt =====
-- mdh/src/replay/replay_engine.cpp: run_replay with stop_on_sequence_error and no recovery snapshot.
use mathlib.Core.Path.{subst}
use cpp_projects.Base.{
  ℕ, zero, suc, ◌≡◌, ◌⊎◌, refl, ap, ◌∙◌, true, false, Bool-cases, Option-cases, inl, inr, Option,
  none, some, List, [], ◌∷◌, ◌++◌, arith, ◌==◌, ltb, length, if◌then◌else◌,
}
use cpp_projects.Base.Result.{Result, ok, err}
use cpp_projects.Base.Word.{inc64}
use cpp_projects.Wire.MarketData.{Event, DecodeError}
use cpp_projects.Feed.Sequence.{SequenceValidator, check_sequence}
use cpp_projects.Feed.Manager.{no_books}
use cpp_projects.Feed.Replay.{
  ReplayOptions, ReplayOutcome, Applied, new_outcome, sequence_of, process, apply_frame_result,
  next, replay_loop, run_replay,
}
use cpp_projects.Feed.Replay.Streams.{
  put, rebuild, IsNext, Consecutive, last_of, with_frame, events_in, apply_event-books,
}

-- An outcome whose books and last number are those of another.
abbrev Keeps : ReplayOutcome → ReplayOutcome → Type 0
Keeps o o' = (o'.books ≡ o.books) × (o'.last_sequence_number ≡ o.last_sequence_number)

abbrev Puts : Event → ReplayOutcome → ReplayOutcome → Type 0
Puts e o o' = (o'.books ≡ put e o.books) × (o'.last_sequence_number ≡ some (sequence_of e))

process-Puts : (e : Event) (v : SequenceValidator) (o : ReplayOutcome) → Puts e o (process e v o).2
unfolding process
process-Puts e v o = (apply_event-books e o.books _ _, refl)

-- The events that a replay from an outcome put on the books: a first part of those in the file, each with the
-- number behind the one before it.
abbrev Prefix : List Event → SequenceValidator → ReplayOutcome → ReplayOutcome → Type 0
Prefix events v o result =
    (es : List Event) × ((rest : List Event) × (events ≡ es ++ rest))
    × Consecutive v es
    × (result.books ≡ rebuild es o.books)
    × (result.last_sequence_number ≡ last_of o.last_sequence_number es)

nothing_more :
    (events : List Event) (v : SequenceValidator) (o o' : ReplayOutcome)
    → Keeps o o'
    → Prefix events v o o'
nothing_more events v o o' (books, last) = ([], (events, refl), tt, books, last)

module _ (options : ReplayOptions) (stops : options.stop_on_sequence_error ≡ true)
    (alone : options.recovery_snapshot ≡ none) where
  -- A frame is dropped, stops the replay, or is the next event.
  abbrev Step : Result DecodeError Event → SequenceValidator → ReplayOutcome → Applied → Type 0
  Step (err e) v o (stop, v', o') = (v' ≡ v) × Keeps o o'
  Step (ok event) v o (stop, v', o') =
      ((stop ≡ true) × Keeps o o')
      ⊎ ((stop ≡ false)
          × (v' ≡ some (sequence_of event))
          × IsNext v (sequence_of event)
          × Puts event o o')

  apply_frame_result-Step :
      (frame : Result DecodeError Event) (v : SequenceValidator) (o : ReplayOutcome)
      → Step frame v o (apply_frame_result options frame v o)
  unfolding apply_frame_result check_sequence process
  apply_frame_result-Step (err e) v o = elim (Bool-cases options.stop_on_decode_error) [
    | inl on ↦ rw (apply_frame_result, on) (refl, (refl, refl))
    | inr off ↦ rw (apply_frame_result, off) (refl, (refl, refl))
  ]
  apply_frame_result-Step (ok event) none o = inr (refl, refl, tt, process-Puts event none o)
  apply_frame_result-Step (ok event) (some last) o =
      elim (Bool-cases (sequence_of event == inc64 last)) [
        | inl follows ↦
            rw (apply_frame_result, check_sequence, follows)
              (inr (refl, refl, (ground (arith, follows)), process-Puts event none o))
        | inr differs ↦ elim (Bool-cases (sequence_of event == last)) [
          | inl again ↦
              rw (apply_frame_result, check_sequence, differs, again, stops)
                (inl (refl, (refl, refl)))
          | inr other ↦ elim (Bool-cases (ltb (sequence_of event) last)) [
            | inl late ↦
                rw (apply_frame_result, check_sequence, differs, other, late, stops)
                  (inl (refl, (refl, refl)))
            | inr early ↦
                rw (apply_frame_result, check_sequence, differs, other, early, alone, stops)
                  (inl (refl, (refl, refl)))
          ]
        ]
      ]

  with_frame-Prefix :
      (frame : Result DecodeError Event) (events : List Event) (v : SequenceValidator)
      (o : ReplayOutcome)
      → (r : Applied) (result : ReplayOutcome) → Step frame v o r
      → (r.0 ≡ true → result ≡ r.2)
      → (r.0 ≡ false → Prefix events r.1 r.2 result)
      → Prefix (with_frame frame events) v o result
  with_frame-Prefix (err e) events v o (stop, v', o') result (same, (books, last)) stopped on =
      elim (Bool-cases stop) [
        | inl yes_stop ↦ rw (stopped yes_stop) (nothing_more events v o o' (books, last))
        | inr no_stop ↦
            let (es, part, numbers, after, final) = on no_stop in
            (
              es,
              part,
              subst (λ (u : SequenceValidator). Consecutive u es) same numbers,
              after ∙ ap (rebuild es) books,
              final ∙ ap (λ (n : Option ℕ). last_of n es) last,
            )
      ]
  with_frame-Prefix (ok event) events v o (stop, v', o') result (inl (halts, kept)) stopped on =
      rw (stopped halts) (nothing_more (event ∷ events) v o o' kept)
  with_frame-Prefix (ok event) events v o (stop, v', o') result
        (inr (goes, newer, follows, (books, last))) stopped on =
      let (es, (rest, part), numbers, after, final) = on goes in
      (
        event ∷ es,
        (rest, ap (λ l. event ∷ l) part),
        (follows, subst (λ (u : SequenceValidator). Consecutive u es) newer numbers),
        after ∙ ap (rebuild es) books,
        final ∙ ap (λ (n : Option ℕ). last_of n es) last,
      )

  replay_loop-Prefix :
      (fuel : ℕ) (file : List ℕ) (v : SequenceValidator) (o : ReplayOutcome)
      → Prefix (events_in fuel file) v o (replay_loop options fuel file v o)
  unfolding replay_loop events_in
  replay_loop-Prefix zero file v o = nothing_more [] v o o (refl, refl)
  replay_loop-Prefix (suc fuel) file v o = elim (Option-cases (next file)) [
    | inl ended ↦ rw (replay_loop, events_in, ended) (nothing_more [] v o o (refl, refl))
    | inr ((frame, rest), more) ↦
        let r : Applied = apply_frame_result options frame v o in
        rw (replay_loop, events_in, more)
          (with_frame-Prefix frame (events_in fuel rest) v o r
            (if r.0 then r.2 else replay_loop options fuel rest r.1 r.2)
            (apply_frame_result-Step frame v o) (λ halts. rw (halts) refl)
            (λ goes. rw (goes) (replay_loop-Prefix fuel rest r.1 r.2)))
  ]

-- What a replay has put on the books: a first part of the events of the file.
abbrev pub ReplayedInOrder : List ℕ → ReplayOutcome → Type 0
ReplayedInOrder file o =
    (es : List Event) × ((rest : List Event) × (events_in (suc (length file)) file ≡ es ++ rest))
    × Consecutive none es
    × (o.books ≡ rebuild es no_books)
    × (o.last_sequence_number ≡ last_of none es)

-- A replay that stops on sequence errors and has no recovery snapshot puts on the books a first part of the
-- events that decode in the file, in their order, each with the number behind that of the one before it,
-- whatever the file holds; the last number that it reports is that of the last event on the books.
pub run_replay-ReplayedInOrder :
    (options : ReplayOptions) (file : List ℕ)
    → options.stop_on_sequence_error ≡ true
    → options.recovery_snapshot ≡ none
    → ReplayedInOrder file (run_replay options file)
unfolding run_replay
run_replay-ReplayedInOrder options file stops alone =
    replay_loop-Prefix options stops alone (suc (length file)) file none new_outcome
