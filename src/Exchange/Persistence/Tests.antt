-- ===== src/Exchange/Persistence/Tests.antt =====
-- mdh/src/exchange/persistence/command_replay.cpp: the replay of a short session.
use cpp_projects.Base.{true, List, [], ◌∷◌, arith}
use cpp_projects.Base.Int.{pos}
use cpp_projects.Base.Word.{pos_fits}
use cpp_projects.Types.{buy}
use cpp_projects.Exchange.Core.{ExchangeCommand, new_order, cancel_order, limit, gtc}
use cpp_projects.Exchange.Engine.State.{create, register_all}
use cpp_projects.Exchange.Persistence.{journal_of, run_command_replay}
use cpp_projects.Exchange.Persistence.Recovery.{Recovers, run_command_replay-Recovers}

-- An order on instrument 3, and its cancellation.
abbrev commands : List ExchangeCommand
commands =
    new_order (record {
      command_sequence = 1;
      account_id = 7;
      client_order_id = 5;
      instrument_id = 3;
      side = buy;
      price = pos 100;
      quantity = 5;
      order_type = limit;
      time_in_force = gtc;
    })
    ∷ cancel_order
        (record { command_sequence = 2; account_id = 7; client_order_id = 5; instrument_id = 3 })
    ∷ []

run_command_replay-Recovers_example :
    Recovers
      (register_all (create []) (3 ∷ []))
      commands
      (run_command_replay true (journal_of (3 ∷ []) commands))
run_command_replay-Recovers_example =
    run_command_replay-Recovers true (3 ∷ []) commands (omega arith, tt)
      (
        record {
          sequence_fits = omega arith;
          account_fits = omega arith;
          client_order_fits = omega arith;
          instrument_fits = omega arith;
          price_fits = pos_fits (omega arith);
          quantity_fits = omega arith;
        },
        (
          record {
            sequence_fits = omega arith;
            account_fits = omega arith;
            client_order_fits = omega arith;
            instrument_fits = omega arith;
          },
          tt,
        ),
      )
