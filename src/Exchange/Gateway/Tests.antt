-- ===== src/Exchange/Gateway/Tests.antt =====
-- A connection that sends an order and gets the report, and streams cut in two.
use cpp_projects.Base.{ℕ, ◌≡◌, refl, List, [], ◌∷◌, ◌++◌, arith, length, take, drop}
use cpp_projects.Base.Int.{pos}
use cpp_projects.Base.Result.{err}
use cpp_projects.Types.{buy}
use cpp_projects.Exchange.Core.{limit, gtc}
use cpp_projects.Exchange.Events.{ExchangeEvent, order_accepted}
use cpp_projects.Exchange.Gateway.{OrderEntryGateway, connection}
use cpp_projects.Exchange.Gateway.Frames.{after, drain-append, unknown_type-drain}
use cpp_projects.Exchange.Gateway.Privacy.{Mail}
use cpp_projects.Exchange.Gateway.PrivateSteps.{
  Reach, start, next, here, accept, read_bytes, route, private_reports,
}
use cpp_projects.Exchange.Gateway.Reader.{drain, receive}
use cpp_projects.Exchange.Gateway.Routing.{route_event}
use cpp_projects.Exchange.Gateway.Sessions.{accept_connection}
use cpp_projects.Wire.Bytes.{◌>>=◌, get_u8, get_u16}
use cpp_projects.Wire.OrderEntry.{
  NewOrder, new_order, encode_message, decode_header, invalid_message_type,
}

abbrev order : NewOrder
order = record {
  account_id = 7;
  client_order_id = 1;
  instrument_id = 3;
  side = buy;
  price = pos 100;
  quantity = 5;
  order_type = limit;
  time_in_force = gtc;
}

abbrev order_event : ExchangeEvent
order_event = order_accepted (record {
  event_sequence = 1;
  command_sequence = 1;
  account_id = 7;
  client_order_id = 1;
  exchange_order_id = 40;
  instrument_id = 3;
  side = buy;
  price = pos 100;
  quantity = 5;
  order_type = limit;
  time_in_force = gtc;
})

abbrev connected : OrderEntryGateway
connected = accept_connection (start 4) 8

abbrev ordered : OrderEntryGateway
ordered = receive connected 0 (encode_message (new_order order) [])

-- The ledger does not show here.
abbrev reported : OrderEntryGateway
reported =
    route_event (record ordered { ledger = record { accounts = []; holds = [] } }) order_event

reported-reached : Reach (start 4) reported
unfolding accept_connection
reported-reached =
    next
      (next (next here (accept 8))
        (read_bytes 0 (encode_message (new_order order) []) (omega arith)))
      (route order_event (record { accounts = []; holds = [] }))

private_reports_example : Mail (connection reported 0)
private_reports_example = private_reports 4 reported reported-reached 0

abbrev unknown : List ℕ
unknown = 9 ∷ 0 ∷ 0 ∷ []

unknown_is_invalid : decode_header unknown ≡ err invalid_message_type
unfolding decode_header ◌>>=◌ get_u8 get_u16
unknown_is_invalid = refl

unknown_type-drain_example : drain 4 (unknown ++ (1 ∷ [])) ≡ ([], unknown ++ (1 ∷ []))
unknown_type-drain_example = unknown_type-drain unknown (1 ∷ []) unknown_is_invalid

-- The order in two reads.
abbrev first_read : List ℕ
first_read = take 10 (encode_message (new_order order) [])

abbrev second_read : List ℕ
second_read = drop 10 (encode_message (new_order order) [])

drain-append_example :
    drain (length (first_read ++ second_read)) (first_read ++ second_read)
    ≡ after (drain (length first_read) first_read).0 (
        drain
          (length ((drain (length first_read) first_read).1 ++ second_read))
          ((drain (length first_read) first_read).1 ++ second_read))
drain-append_example = drain-append first_read second_read
