-- ===== src/Exchange/Persistence.antt =====
-- mdh/src/exchange/persistence/command_journal_writer.cpp, command_journal_reader.cpp, command_replay.cpp and
-- mdh/include/exchange/persistence/command_replay.hpp: the journal of a session and its replay. A file is its
-- bytes; the text of a stop reason is left out.
mod Recovery
mod Tests
use cpp_projects.Base.{
  ℕ, zero, suc, Bool, true, false, Option, none, some, List, [], ◌∷◌, ◌++◌, length, if◌then◌else◌,
}
use cpp_projects.Base.Result.{Result, ok, err}
use cpp_projects.Base.Word.{inc64}
use cpp_projects.Exchange.Core.{ExchangeCommand}
use cpp_projects.Exchange.Events.{ExchangeEvent}
use cpp_projects.Exchange.Engine.State.{MatchingEngine, create, register_instrument, Run}
use cpp_projects.Exchange.Engine.Process.{process}
use cpp_projects.Wire.FileReader.{next_frame}
use cpp_projects.Wire.Journal as Journal
use cpp_projects.Wire.Journal.{
  CommandDecodeError, JournalFrame, journal_format, truncated_header, encode_command,
  encode_register_instrument,
}

-- The constructor of CommandJournalWriter: the frames of the instruments, in one buffer.
unfoldable pub register_frames : List ℕ → List ℕ → List ℕ
unfolding encode_register_instrument
register_frames [] buffer = buffer
register_frames (instrument_id ∷ ids) buffer =
    register_frames ids (encode_register_instrument instrument_id buffer)

-- CommandJournalWriter::write, on the bytes of the file.
unfoldable pub write_command : ExchangeCommand → List ℕ → List ℕ
unfolding encode_command
write_command c file = file ++ encode_command c []

unfoldable pub write_commands : List ExchangeCommand → List ℕ → List ℕ
unfolding write_command
write_commands [] file = file
write_commands (c ∷ cs) file = write_commands cs (write_command c file)

-- The file of a session.
abbrev pub journal_of : List ℕ → List ExchangeCommand → List ℕ
journal_of ids cs = write_commands cs (register_frames ids [])

-- CommandJournalReader::next, with what is left of the file.
abbrev pub next : List ℕ → Option (Result CommandDecodeError JournalFrame × List ℕ)
next file = next_frame journal_format truncated_header file

-- The events with the newest first.
pub record CommandReplayOutcome : Type 0 where
  pub engine : MatchingEngine
  pub events : List ExchangeEvent
  pub commands_processed : ℕ
  pub instruments_registered : ℕ
  pub stopped_early : Bool
  pub stop_reason : Option CommandDecodeError

abbrev pub new_outcome : CommandReplayOutcome
new_outcome = record {
  engine = create [];
  events = [];
  commands_processed = 0;
  instruments_registered = 0;
  stopped_early = false;
  stop_reason = none;
}

abbrev pub on_decode_error :
    Bool → CommandDecodeError → CommandReplayOutcome → Bool × CommandReplayOutcome
on_decode_error true e o = (true, record o { stop_reason = some e; stopped_early = true })
on_decode_error false e o = (false, record o { stop_reason = some e })

abbrev pub on_registration : Bool × MatchingEngine → CommandReplayOutcome → CommandReplayOutcome
on_registration (fresh, e) o = record o {
  engine = e;
  instruments_registered =
      if fresh then inc64 o.instruments_registered else o.instruments_registered;
}

abbrev pub on_command : Run → CommandReplayOutcome → CommandReplayOutcome
on_command r o = record o {
  engine = r.engine;
  events = r.emitted ++ o.events;
  commands_processed = inc64 o.commands_processed;
}

-- The body of the loop behind a frame, and whether it breaks.
unfoldable pub on_frame :
    Bool
    → Result CommandDecodeError JournalFrame
    → CommandReplayOutcome
    → Bool × CommandReplayOutcome
on_frame stops (err e) o = on_decode_error stops e o
on_frame stops (ok (JournalFrame.register_instrument instrument_id)) o =
    (false, on_registration (register_instrument o.engine instrument_id) o)
on_frame stops (ok (JournalFrame.command c)) o = (false, on_command (process o.engine c) o)

-- The loop of run_command_replay. Every frame takes bytes of the file, so one round more than it has bytes is
-- enough.
unfoldable pub replay_loop : Bool → ℕ → List ℕ → CommandReplayOutcome → CommandReplayOutcome
unfolding on_frame
replay_loop stops zero file o = o
replay_loop stops (suc fuel) file o = elim (next file) [
  | none ↦ o
  | some (frame, rest) ↦
      let (breaks, o') = on_frame stops frame o in
      let on = replay_loop stops fuel rest o' in if breaks then o' else on
]

-- run_command_replay of a file that opens, with its option stop_on_decode_error.
unfoldable pub run_command_replay : Bool → List ℕ → CommandReplayOutcome
unfolding replay_loop
run_command_replay stops file = replay_loop stops (suc (length file)) file new_outcome
