-- ===== src/Trader/Risk/Tests.antt =====
-- A buy that the cash covers.
use cpp_projects.Base.{◌≡◌, ◌⊎◌, true, none, some, [], ◌∷◌}
use cpp_projects.Base.Int.{pos}
use cpp_projects.Types.{buy}
use cpp_projects.Exchange.Core.{limit, gtc}
use cpp_projects.Trader.Oms.{Sender, submit_new_order}
use cpp_projects.Trader.Risk.{TraderRiskGatedOms, gated_submit, is_refusal}
use cpp_projects.Trader.Risk.Gate.{IsCovered, gated_submit-cases}

abbrev trader : TraderRiskGatedOms
trader = record {
  account_id = 7;
  limits = record { max_order_quantity = 1000 };
  positions = (7, record { cash = pos 900; holdings = [] }) ∷ [];
  oms = record {
    account_id = 7;
    next_client_order_id = 1;
    orders = [];
    sent = [];
    updates = [];
    fills = [];
  };
}

abbrev connected : Sender
connected m = true

gated_submit-cases_example :
    (((gated_submit connected 3 buy (pos 100) 5 limit gtc trader).0.client_order_id ≡ none)
      × (is_refusal
            (gated_submit connected 3 buy (pos 100) 5 limit gtc trader).0.local_reject_reason
          ≡ true)
      × ((gated_submit connected 3 buy (pos 100) 5 limit gtc trader).1 ≡ trader))
    ⊎ (((gated_submit connected 3 buy (pos 100) 5 limit gtc trader).0.client_order_id
          ≡ some (submit_new_order connected 3 buy (pos 100) 5 limit gtc trader.oms).0)
        × ((gated_submit connected 3 buy (pos 100) 5 limit gtc trader).1 ≡ record trader {
          oms = (submit_new_order connected 3 buy (pos 100) 5 limit gtc trader.oms).1;
        })
        × IsCovered trader 3 buy (pos 100) 5)
gated_submit-cases_example = gated_submit-cases connected 3 buy (pos 100) 5 limit gtc trader
