-- ===== src/Exchange/Gateway/Sessions.antt =====
-- mdh/src/exchange/gateway/order_entry_gateway.cpp: binding a connection to an account, owning orders.
use cpp_projects.Base.{
  ℕ, Bool, true, false, Option, none, some, List, [], ◌∷◌, ◌++◌, ◌==◌, if◌then◌else◌,
}
use cpp_projects.Base.Array.{push_back}
use cpp_projects.Base.Word.{inc64}
use cpp_projects.Base.Map.{ℕ_key, pair_key, find, insert_or_assign, erase, try_emplace}
use cpp_projects.Exchange.Core
use cpp_projects.Exchange.Core.{ExchangeCommand, account_mismatch}
use cpp_projects.Exchange.Gateway.{
  Connection, OrderEntryGateway, OrderKey, connection, put_connection,
}
use cpp_projects.Queue.Bounded.{BoundedQueue, bounded_push}
use cpp_projects.Wire.OrderEntry.{
  Message, new_order, cancel_order, replace_order, accepted, rejected, cancelled, replaced,
  trade_report,
}

-- What `map[key]` default-constructs where the key is missing.
abbrev pub entries : {A : Type 0} → Option (List A) → List A
entries none = []
entries (some xs) = xs

-- The new connection of accept_loop: bound to nothing yet.
unfoldable pub accept_connection : OrderEntryGateway → ℕ → OrderEntryGateway
accept_connection g outbound_queue_capacity =
    let empty : BoundedQueue Message = record { capacity = outbound_queue_capacity; items = [] } in
    record g {
      next_session_id = inc64 g.next_session_id;
      connections = push_back g.connections (record {
        session_id = g.next_session_id;
        read_buffer = [];
        outbound = empty;
        session_outbound = empty;
        replay_backlog = [];
        account_id = none;
        closed = false;
      });
    }

-- The waiting reports of the account become the connection's backlog, and are forgotten.
abbrev pub take_pending : OrderEntryGateway → Connection → ℕ → Connection × List (ℕ × List Message)
take_pending g conn account_id = elim (find account_id g.pending_reports) [
  | none ↦ (conn, g.pending_reports)
  | some reports ↦ (record conn { replay_backlog = reports }, erase account_id g.pending_reports)
]

unfoldable pub bind_session : OrderEntryGateway → ℕ → ℕ → OrderEntryGateway
unfolding find insert_or_assign erase
bind_session g c account_id =
    let sessions = entries (find account_id g.account_sessions) ++ (c ∷ []) in
    let (conn, pending) = take_pending g (connection g c) account_id in
    put_connection
      (record g {
        account_sessions = insert_or_assign account_id sessions g.account_sessions;
        pending_reports = pending;
      })
      c (record conn { account_id = some account_id })

-- `std::remove` of one connection from a list of them.
abbrev pub without : ℕ → List ℕ → List ℕ
without c [] = []
without c (d ∷ ds) = if d == c then without c ds else d ∷ without c ds

-- The loop that erases the connection's orders.
abbrev pub disown : ℕ → List (OrderKey × ℕ) → List (OrderKey × ℕ)
disown c [] = []
disown c ((key, d) ∷ rest) = if d == c then disown c rest else (key, d) ∷ disown c rest

abbrev pub is_empty : List ℕ → Bool
is_empty [] = true
is_empty (d ∷ ds) = false

abbrev pub drop_session : OrderEntryGateway → ℕ → ℕ → List (ℕ × List ℕ)
drop_session g c account_id = elim (find account_id g.account_sessions) [
  | none ↦ g.account_sessions
  | some bound ↦
      if is_empty (without c bound)
      then erase account_id g.account_sessions
      else insert_or_assign account_id (without c bound) g.account_sessions
]

unfoldable pub unbind_session : OrderEntryGateway → ℕ → OrderEntryGateway
unfolding find insert_or_assign erase
unbind_session g c = elim (connection g c).account_id [
  | none ↦ g
  | some account_id ↦ record g {
    account_sessions = drop_session g c account_id;
    order_owner = disown c g.order_owner;
  }
]

-- The end of connection_reader_loop.
unfoldable pub close_connection : OrderEntryGateway → ℕ → OrderEntryGateway
unfolding unbind_session
close_connection g c =
    unbind_session (put_connection g c (record (connection g c) { closed = true })) c

-- `account_id` and `client_order_id` of the rejection.
abbrev pub rejection : ExchangeCommand → Message
rejection (Core.new_order cmd) = rejected (record {
  account_id = cmd.account_id;
  client_order_id = cmd.client_order_id;
  instrument_id = cmd.instrument_id;
  reason = account_mismatch;
})
rejection (Core.cancel_order cmd) = rejected (record {
  account_id = cmd.account_id;
  client_order_id = cmd.client_order_id;
  instrument_id = cmd.instrument_id;
  reason = account_mismatch;
})
rejection (Core.replace_order cmd) = rejected (record {
  account_id = cmd.account_id;
  client_order_id = cmd.original_client_order_id;
  instrument_id = cmd.instrument_id;
  reason = account_mismatch;
})

unfoldable pub reject_account_mismatch : OrderEntryGateway → ℕ → ExchangeCommand → OrderEntryGateway
unfolding bounded_push
reject_account_mismatch g c command =
    let conn = connection g c in
    put_connection g c (record conn {
      session_outbound = (bounded_push conn.session_outbound (rejection command)).0;
    })

unfoldable pub claim_order_ownership : OrderEntryGateway → ℕ → ℕ → Message → OrderEntryGateway
unfolding try_emplace
claim_order_ownership g c account_id (new_order m) = record g {
  order_owner = try_emplace (account_id, m.client_order_id) c g.order_owner;
}
claim_order_ownership g c account_id (cancel_order m) = record g {
  order_owner = try_emplace (account_id, m.client_order_id) c g.order_owner;
}
claim_order_ownership g c account_id (replace_order m) = record g {
  order_owner = try_emplace (account_id, m.original_client_order_id) c g.order_owner;
}
claim_order_ownership g c account_id (accepted m) = g
claim_order_ownership g c account_id (rejected m) = g
claim_order_ownership g c account_id (cancelled m) = g
claim_order_ownership g c account_id (replaced m) = g
claim_order_ownership g c account_id (trade_report m) = g
