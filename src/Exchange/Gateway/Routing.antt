-- ===== src/Exchange/Gateway/Routing.antt =====
-- mdh/src/exchange/gateway/order_entry_gateway.cpp: which connection an event's reports go to. The
-- ledger has seen the event before it gets here.
use cpp_projects.Base.{
  ℕ, Bool, true, false, Option, none, some, List, [], ◌∷◌, ◌++◌, ◌==◌, leb, length, if◌then◌else◌,
}
use cpp_projects.Base.Map.{ℕ_key, pair_key, find, insert_or_assign, erase}
use cpp_projects.Exchange.Events.{
  ExchangeEvent, order_rejected, order_cancelled, order_replaced, trade_executed, TradeCounterparty,
}
use cpp_projects.Exchange.Gateway.{
  Connection, OrderEntryGateway, OrderKey, connection, put_connection,
}
use cpp_projects.Exchange.Gateway.Reports.{to_execution_reports}
use cpp_projects.Exchange.Gateway.Sessions.{entries}
use cpp_projects.Exchange.Ledger.{find_hold}
use cpp_projects.Queue.Bounded.{bounded_push, bounded_pop}
use cpp_projects.Wire.OrderEntry.{Message}

unfoldable pub deliver : OrderEntryGateway → ℕ → Message → OrderEntryGateway
unfolding bounded_push
deliver g c message =
    let conn = connection g c in
    put_connection g c (record conn { outbound = (bounded_push conn.outbound message).0 })

-- The first connection of the list that is not closed.
abbrev pub first_open : OrderEntryGateway → List ℕ → Option ℕ
first_open g [] = none
first_open g (c ∷ cs) = if (connection g c).closed then first_open g cs else some c

-- The owner of the order, while it is open.
abbrev pub open_owner : OrderEntryGateway → OrderKey → Option ℕ
open_owner g key = elim (find key g.order_owner) [
  | none ↦ none
  | some c ↦ if (connection g c).closed then none else some c
]

-- Where a report goes: the order's owner, or else another session of the account.
unfoldable pub recipient : OrderEntryGateway → OrderKey → Option ℕ
unfolding find
recipient g key = elim (open_owner g key) [
  | some c ↦ some c
  | none ↦ first_open g (entries (find key.0 g.account_sessions))
]

-- `pop_front` where the queue is full, which drops the oldest.
abbrev pub make_room : ℕ → List Message → List Message
make_room capacity [] = []
make_room capacity (m ∷ ms) = if leb capacity (length (m ∷ ms)) then ms else m ∷ ms

unfoldable pub keep_pending : OrderEntryGateway → ℕ → Message → OrderEntryGateway
unfolding find insert_or_assign
keep_pending g account_id message =
    let pending =
      make_room g.pending_report_capacity (entries (find account_id g.pending_reports)) in
    if g.pending_report_capacity == 0 then g else record g {
      pending_reports = insert_or_assign account_id (pending ++ (message ∷ [])) g.pending_reports;
    }

unfoldable pub route_report : OrderEntryGateway → OrderKey × Message → OrderEntryGateway
unfolding recipient deliver keep_pending
route_report g (key, message) = elim (recipient g key) [
  | some c ↦ deliver g c message
  | none ↦ keep_pending g key.0 message
]

abbrev pub route_reports : OrderEntryGateway → List (OrderKey × Message) → OrderEntryGateway
route_reports g [] = g
route_reports g (report ∷ reports) = route_reports (route_report g report) reports

-- An order that is filled has no owner.
abbrev pub disown_filled : List (OrderKey × ℕ) → TradeCounterparty → List (OrderKey × ℕ)
disown_filled owners side =
    if side.remaining_quantity == 0
    then erase (side.account_id, side.client_order_id) owners
    else owners

abbrev pub owners_after : OrderEntryGateway → ExchangeEvent → List (OrderKey × ℕ)
owners_after g (order_rejected ev) = elim (find_hold g.ledger ev.account_id ev.client_order_id) [
  | none ↦ erase (ev.account_id, ev.client_order_id) g.order_owner
  | some hold ↦ g.order_owner
]
owners_after g (order_cancelled ev) = erase (ev.account_id, ev.client_order_id) g.order_owner
owners_after g (order_replaced ev) =
    elim (find (ev.account_id, ev.original_client_order_id) g.order_owner) [
      | none ↦ g.order_owner
      | some c ↦
          erase (ev.account_id, ev.original_client_order_id)
            (insert_or_assign (ev.account_id, ev.new_client_order_id) c g.order_owner)
    ]
owners_after g (trade_executed ev) = disown_filled (disown_filled g.order_owner ev.buyer) ev.seller
owners_after g _ = g.order_owner

unfoldable pub update_order_ownership : OrderEntryGateway → ExchangeEvent → OrderEntryGateway
unfolding find insert_or_assign erase find_hold
update_order_ownership g event = record g { order_owner = owners_after g event }

abbrev pub no_reports : List (OrderKey × Message) → Bool
no_reports [] = true
no_reports (report ∷ reports) = false

unfoldable pub route_event : OrderEntryGateway → ExchangeEvent → OrderEntryGateway
unfolding route_report update_order_ownership to_execution_reports
route_event g event =
    if no_reports (to_execution_reports event)
    then g
    else update_order_ownership (route_reports g (to_execution_reports event)) event

-- What the writer's loop sends next, and the connection without it: the backlog, the gateway's own
-- replies, then the reports.
unfoldable pub next_message : Connection → Option Message × Connection
unfolding bounded_pop
next_message conn = elim conn.replay_backlog [
  | message ∷ rest ↦ (some message, record conn { replay_backlog = rest })
  | [] ↦
      let (reply, session_outbound) = bounded_pop conn.session_outbound in
      let (report, outbound) = bounded_pop conn.outbound in
      elim reply [
        | some message ↦ (some message, record conn { session_outbound = session_outbound })
        | none ↦ (report, record conn { outbound = outbound })
      ]
]
