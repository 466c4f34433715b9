-- ===== src/Exchange/Risk/Tests.antt =====
-- A funded account's order through the risk checks.
use cpp_projects.Base.{[], ◌∷◌}
use cpp_projects.Base.Int.{pos}
use cpp_projects.Types.{buy}
use cpp_projects.Exchange.Core.{ExchangeCommand, new_order, limit, gtc}
use cpp_projects.Exchange.Engine.State.{MatchingEngine, create}
use cpp_projects.Exchange.Ledger.{Ledger, deposit_cash}

abbrev opened_account : Ledger
opened_account = deposit_cash (record { accounts = []; holds = [] }) 1 (pos 1000)

abbrev venue : MatchingEngine
venue = create (7 ∷ [])

abbrev bid : ExchangeCommand
bid = new_order (record {
  command_sequence = 1;
  account_id = 1;
  client_order_id = 10;
  instrument_id = 7;
  side = buy;
  price = pos 20;
  quantity = 30;
  order_type = limit;
  time_in_force = gtc;
})
