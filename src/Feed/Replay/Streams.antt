-- ===== src/Feed/Replay/Streams.antt =====
-- mdh/src/replay/replay_engine.cpp: the events of a file, and streams of events put on the books.
use cpp_projects.Base.{ℕ, zero, suc, ◌≡◌, refl, Option, none, some, List, [], ◌∷◌}
use cpp_projects.Base.Result.{Result, ok, err}
use cpp_projects.Base.Word.{inc64}
use cpp_projects.Wire.MarketData.{Event, DecodeError}
use cpp_projects.Feed.Sequence.{SequenceValidator}
use cpp_projects.Feed.Manager.{BookManager}
use cpp_projects.Feed.Replay.{ReplayStats, new_outcome, sequence_of, apply_event, next}

-- An event on the books.
abbrev pub put : Event → BookManager → BookManager
put e m = (apply_event e m new_outcome.stats).0

abbrev pub rebuild : List Event → BookManager → BookManager
rebuild [] m = m
rebuild (e ∷ es) m = rebuild es (put e m)

-- Each event has the number behind the one before it.
abbrev pub IsNext : SequenceValidator → ℕ → Type 0
IsNext none seq = Unit
IsNext (some last) seq = seq ≡ inc64 last

abbrev pub Consecutive : SequenceValidator → List Event → Type 0
Consecutive v [] = Unit
Consecutive v (e ∷ es) = IsNext v (sequence_of e) × Consecutive (some (sequence_of e)) es

-- The number of the last event, or the one before them all.
abbrev pub last_of : Option ℕ → List Event → Option ℕ
last_of n [] = n
last_of n (e ∷ es) = last_of (some (sequence_of e)) es

abbrev pub with_frame : Result DecodeError Event → List Event → List Event
with_frame (err e) es = es
with_frame (ok event) es = event ∷ es

-- The events that a file holds, frames that do not decode left out.
unfoldable pub events_in : ℕ → List ℕ → List Event
events_in zero file = []
events_in (suc fuel) file = elim (next file) [
  | none ↦ []
  | some (frame, rest) ↦ with_frame frame (events_in fuel rest)
]

-- What an event does to the books does not depend on the counters.
pub apply_event-books :
    (e : Event) (m : BookManager) (s t : ReplayStats)
    → (apply_event e m s).0 ≡ (apply_event e m t).0
unfolding apply_event
apply_event-books (Event.add_order e) m s t = refl
apply_event-books (Event.cancel_order e) m s t = refl
apply_event-books (Event.modify_order e) m s t = refl
apply_event-books (Event.trade e) m s t = refl
apply_event-books (Event.clear_book e) m s t = refl
