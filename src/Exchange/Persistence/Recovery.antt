-- ===== src/Exchange/Persistence/Recovery.antt =====
-- mdh/src/exchange/persistence/command_replay.cpp: the replay of the journal of a session.
use cpp_projects.Base.{
  ℕ, zero, suc, ◌+◌, ◌≤◌, ◌<◌, ◌%◌, ◌^◌, ◌≡◌, refl, sym, ap, ◌∙◌, Bool, false, none, some, List, [],
  ◌∷◌, ◌++◌, append-nil, append_assoc, arith, length, length-append,
}
use cpp_projects.Base.Result.{ok}
use cpp_projects.Exchange.Core.{ExchangeCommand}
use cpp_projects.Exchange.Engine.State.{
  MatchingEngine, create, register_instrument, register_all, Run,
}
use cpp_projects.Exchange.Engine.Process.{process}
use cpp_projects.Wire.Bytes.{put_u8, put_u16, put_u32, put_u64}
use cpp_projects.Wire.FileReader.{next_frame, next_frame-IsFrame}
use cpp_projects.Wire.Journal.{
  JournalFrame, journal_format, truncated_header, encode_command, encode_register_instrument,
}
use cpp_projects.Wire.JournalPayloads.{FitsCommand}
use cpp_projects.Wire.JournalRoundTrip.{HasParts, command-IsFrame, register_instrument-IsFrame}
use cpp_projects.Exchange.Persistence.{
  register_frames, write_command, write_commands, journal_of, next, CommandReplayOutcome,
  new_outcome, on_registration, on_command, on_frame, replay_loop, run_command_replay,
}

encode_register_instrument-append :
    (id : ℕ) (out : List ℕ)
    → encode_register_instrument id out ≡ out ++ encode_register_instrument id []
unfolding encode_register_instrument put_u8 put_u16 put_u32 put_u64
encode_register_instrument-append id out = simp (append_assoc)

-- The frames one behind the other.
abbrev frames_of : List ℕ → List ExchangeCommand → List ℕ
frames_of [] [] = []
frames_of [] (c ∷ cs) = encode_command c [] ++ frames_of [] cs
frames_of (id ∷ ids) cs = encode_register_instrument id [] ++ frames_of ids cs

write_commands-frames_of :
    (cs : List ExchangeCommand) (file : List ℕ) → write_commands cs file ≡ file ++ frames_of [] cs
unfolding write_commands write_command
write_commands-frames_of [] file = sym (append-nil file)
write_commands-frames_of (c ∷ cs) file =
    write_commands-frames_of cs (file ++ encode_command c [])
    ∙ append_assoc file (encode_command c []) (frames_of [] cs)

journal_of-frames_of :
    (ids : List ℕ) (cs : List ExchangeCommand) (file : List ℕ)
    → write_commands cs (register_frames ids file) ≡ file ++ frames_of ids cs
unfolding register_frames
journal_of-frames_of [] cs file = write_commands-frames_of cs file
journal_of-frames_of (id ∷ ids) cs file =
    journal_of-frames_of ids cs (encode_register_instrument id file)
    ∙ ap (λ b. b ++ frames_of ids cs) (encode_register_instrument-append id file)
    ∙ append_assoc file (encode_register_instrument id []) (frames_of ids cs)

next-HasParts :
    (bytes rest : List ℕ) (frame : JournalFrame)
    → HasParts bytes frame
    → next (bytes ++ rest) ≡ some (ok frame, rest)
next-HasParts bytes rest frame (header, (payload, (h, parts, w))) =
    ap (λ b. next (b ++ rest)) parts
    ∙ ap next (append_assoc header payload rest)
    ∙ next_frame-IsFrame journal_format truncated_header header payload rest (omega arith) w

abbrev pub AllIds : List ℕ → Type 0
AllIds [] = Unit
AllIds (id ∷ ids) = (id < 2 ^ 32) × AllIds ids

abbrev pub AllCommands : List ExchangeCommand → Type 0
AllCommands [] = Unit
AllCommands (c ∷ cs) = FitsCommand c × AllCommands cs

-- The session: the instruments, then the commands in a row.
abbrev registered : List ℕ → CommandReplayOutcome → CommandReplayOutcome
registered [] o = o
registered (id ∷ ids) o = registered ids (on_registration (register_instrument o.engine id) o)

abbrev processed : List ExchangeCommand → CommandReplayOutcome → CommandReplayOutcome
processed [] o = o
processed (c ∷ cs) o = processed cs (on_command (process o.engine c) o)

replay_loop-commands :
    (stops : Bool) (cs : List ExchangeCommand) (fuel : ℕ) (o : CommandReplayOutcome)
    → length cs < fuel
    → AllCommands cs
    → replay_loop stops fuel (frames_of [] cs) o ≡ processed cs o
unfolding replay_loop on_frame
replay_loop-commands stops cs zero o enough w = absurd (omega arith)
replay_loop-commands stops [] (suc fuel) o enough w = unfold next_frame in refl
replay_loop-commands stops (c ∷ cs) (suc fuel) o enough w =
    rw
      (
        replay_loop,
        next-HasParts (encode_command c []) (frames_of [] cs) (JournalFrame.command c)
            (command-IsFrame c w.0),
      )
      (replay_loop-commands stops cs fuel (on_command (process o.engine c) o) (omega arith) w.1)

replay_loop-frames_of :
    (stops : Bool) (ids : List ℕ) (cs : List ExchangeCommand) (fuel : ℕ) (o : CommandReplayOutcome)
    → length ids + length cs < fuel
    → AllIds ids
    → AllCommands cs
    → replay_loop stops fuel (frames_of ids cs) o ≡ processed cs (registered ids o)
unfolding replay_loop on_frame
replay_loop-frames_of stops ids cs zero o enough v w = absurd (omega arith)
replay_loop-frames_of stops [] cs (suc fuel) o enough v w =
    replay_loop-commands stops cs (suc fuel) o (omega (arith, enough)) w
replay_loop-frames_of stops (id ∷ ids) cs (suc fuel) o enough v w =
    rw
      (
        replay_loop,
        next-HasParts (encode_register_instrument id []) (frames_of ids cs)
            (JournalFrame.register_instrument id) (register_instrument-IsFrame id v.0),
      )
      (replay_loop-frames_of stops ids cs fuel (on_registration (register_instrument o.engine id) o)
        (omega (arith, enough)) v.1 w)

-- A frame is not empty.
HasParts-length : (bytes : List ℕ) (frame : JournalFrame) → HasParts bytes frame → 1 ≤ length bytes
HasParts-length bytes frame (header, (payload, (h, parts, w))) =
    omega (arith, ap length parts, length-append header payload, w.header_length)

length-frames_of :
    (ids : List ℕ) (cs : List ExchangeCommand)
    → AllIds ids
    → AllCommands cs
    → length ids + length cs ≤ length (frames_of ids cs)
length-frames_of [] [] v w = omega arith
length-frames_of [] (c ∷ cs) v w = omega (
  arith,
  length-append (encode_command c []) (frames_of [] cs),
  length-frames_of [] cs v w.1,
  HasParts-length (encode_command c []) (JournalFrame.command c) (command-IsFrame c w.0),
)
length-frames_of (id ∷ ids) cs v w = omega (
  arith,
  length-append (encode_register_instrument id []) (frames_of ids cs),
  length-frames_of ids cs v.1 w,
  HasParts-length (encode_register_instrument id []) (JournalFrame.register_instrument id)
      (register_instrument-IsFrame id v.0),
)

-- The engine of the session: commands in a row, with all their events.
abbrev pub run_all : List ExchangeCommand → Run → Run
run_all [] r = r
run_all (c ∷ cs) r =
    let next_run : Run = process r.engine c in
    run_all cs (record { engine = next_run.engine; emitted = next_run.emitted ++ r.emitted })

-- What the replay of a journal has rebuilt: the engine of the session with its events, all the commands and no
-- stop.
pub record Recovers (start : MatchingEngine) (cs : List ExchangeCommand) (o : CommandReplayOutcome)
    : Type 0 where
  pub engine : o.engine ≡ (run_all cs (record { engine = start; emitted = [] })).engine
  pub events : o.events ≡ (run_all cs (record { engine = start; emitted = [] })).emitted
  pub commands_processed : o.commands_processed ≡ length cs % 2 ^ 64
  pub goes_on : o.stopped_early ≡ false
  pub stop_reason : o.stop_reason ≡ none

processed-run_all :
    (cs : List ExchangeCommand) (o : CommandReplayOutcome)
    → ((processed cs o).engine
        ≡ (run_all cs (record { engine = o.engine; emitted = o.events })).engine)
      × ((processed cs o).events
          ≡ (run_all cs (record { engine = o.engine; emitted = o.events })).emitted)
      × ((processed cs o).stopped_early ≡ o.stopped_early)
      × ((processed cs o).stop_reason ≡ o.stop_reason)
processed-run_all [] o = (refl, refl, refl, refl)
processed-run_all (c ∷ cs) o = processed-run_all cs (on_command (process o.engine c) o)

commands_processed-processed :
    (cs : List ExchangeCommand) (o : CommandReplayOutcome)
    → o.commands_processed < 2 ^ 64
    → (processed cs o).commands_processed ≡ (o.commands_processed + length cs) % 2 ^ 64
commands_processed-processed [] o small = omega (arith, small)
commands_processed-processed (c ∷ cs) o small =
    commands_processed-processed cs (on_command (process o.engine c) o) (omega arith) ∙ omega arith

registered-register_all :
    (ids : List ℕ) (o : CommandReplayOutcome)
    → ((registered ids o).engine ≡ register_all o.engine ids)
      × ((registered ids o).events ≡ o.events)
      × ((registered ids o).commands_processed ≡ o.commands_processed)
      × ((registered ids o).stopped_early ≡ o.stopped_early)
      × ((registered ids o).stop_reason ≡ o.stop_reason)
unfolding register_all
registered-register_all [] o = (refl, refl, refl, refl, refl)
registered-register_all (id ∷ ids) o =
    registered-register_all ids (on_registration (register_instrument o.engine id) o)

run_command_replay-processed :
    (stops : Bool) (ids : List ℕ) (cs : List ExchangeCommand)
    → AllIds ids
    → AllCommands cs
    → run_command_replay stops (journal_of ids cs) ≡ processed cs (registered ids new_outcome)
unfolding run_command_replay
run_command_replay-processed stops ids cs v w =
    let file : journal_of ids cs ≡ frames_of ids cs = journal_of-frames_of ids cs [] in
    rw (file) (
      replay_loop-frames_of stops ids cs (suc (length (frames_of ids cs))) new_outcome
        (omega (arith, length-frames_of ids cs v w)) v w)

-- The journal of a session is enough to recover it: where ids and the values of the commands are in the ranges
-- of their C++ types, the replay of the file that the writer made of the instruments and the commands registers
-- the instruments with an empty engine and takes all the commands, in their order. Its engine and its events
-- are those of an engine that was given the same directly, and it neither stops nor meets a bad frame.
pub run_command_replay-Recovers :
    (stops : Bool) (ids : List ℕ) (cs : List ExchangeCommand)
    → AllIds ids
    → AllCommands cs
    → Recovers (register_all (create []) ids) cs (run_command_replay stops (journal_of ids cs))
run_command_replay-Recovers stops ids cs v w =
    let o : CommandReplayOutcome = registered ids new_outcome in
    let (start, no_events, none_yet, going, no_reason) = registered-register_all ids new_outcome in
    let (engine, events, goes_on, reason) = processed-run_all cs o in
    let now : Run = record { engine = o.engine; emitted = o.events } in
    let first : Run = record { engine = register_all (create []) ids; emitted = [] } in
    let begin : now ≡ first = cc in
    rw (run_command_replay-processed stops ids cs v w) (record {
      engine = engine ∙ ap (λ (r : Run). (run_all cs r).engine) begin;
      events = events ∙ ap (λ (r : Run). (run_all cs r).emitted) begin;
      commands_processed =
          commands_processed-processed cs o (omega (arith, none_yet)) ∙ omega (arith, none_yet);
      goes_on = goes_on ∙ going;
      stop_reason = reason ∙ no_reason;
    })
