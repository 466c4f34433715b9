-- ===== src/Exchange/Gateway/PrivateSteps.antt =====
-- mdh/src/exchange/gateway/order_entry_gateway.cpp: the threads as steps in any order. A step is the
-- work on one message, one event or one connection; the messages of a read may also come together.
use cpp_projects.Base.{
  ℕ, ◌<◌, ◌≡◌, refl, true, Bool-cases, Option-cases, inl, inr, none, List, [], ◌∷◌, ◌++◌, arith,
  ◌==◌, length,
}
use cpp_projects.Base.Array.{assign}
use cpp_projects.Base.Entries.{AllItems, AllItems-mono, AllEntries-mono}
use cpp_projects.Exchange.Events.{ExchangeEvent}
use cpp_projects.Exchange.Gateway.{Connection, OrderEntryGateway, connection, put_connection}
use cpp_projects.Exchange.Gateway.Privacy.{
  Belongs, IsOwn, Mail, IsPrivate, put_connection-IsPrivate, same_account-keeps,
}
use cpp_projects.Exchange.Gateway.PrivateRouting.{route_event-IsPrivate}
use cpp_projects.Exchange.Gateway.PrivateSessions.{
  handle_message-IsPrivate, unbind_session-IsPrivate,
}
use cpp_projects.Exchange.Gateway.Reader.{
  drain, handle_message, handle_messages, submit_message, receive,
}
use cpp_projects.Exchange.Gateway.Reports.{message_account, to_command}
use cpp_projects.Exchange.Gateway.Routing.{route_event, next_message}
use cpp_projects.Exchange.Gateway.Sessions.{
  accept_connection, bind_session, reject_account_mismatch, claim_order_ownership, unbind_session,
}
use cpp_projects.Exchange.Ledger.{Ledger}
use cpp_projects.Queue.Bounded.{BoundedQueue, bounded_pop, pop_items}
use cpp_projects.Wire.OrderEntry.{
  Message, new_order, cancel_order, replace_order, accepted, rejected, cancelled, replaced,
  trade_report,
}

-- What connection_writer_loop leaves behind once it has taken the next message.
abbrev pub send_next : OrderEntryGateway → ℕ → OrderEntryGateway
send_next g c = put_connection g c (next_message (connection g c)).1

pub data Step : OrderEntryGateway → OrderEntryGateway → Type 0 where
  accept : {g : OrderEntryGateway} (capacity : ℕ) → Step g (accept_connection g capacity)
  read_bytes :
      {g : OrderEntryGateway} (c : ℕ) (chunk : List ℕ)
      → c < g.connections.size
      → Step g (receive g c chunk)
  handle :
      {g : OrderEntryGateway} (c : ℕ) (m : Message)
      → c < g.connections.size
      → Step g (handle_message g c m)
  mark_closed :
      {g : OrderEntryGateway} (c : ℕ)
      → Step g (put_connection g c (record (connection g c) { closed = true }))
  unbind : {g : OrderEntryGateway} (c : ℕ) → Step g (unbind_session g c)
  route :
      {g : OrderEntryGateway} (event : ExchangeEvent) (ledger : Ledger)
      → Step g (route_event (record g { ledger = ledger }) event)
  send : {g : OrderEntryGateway} (c : ℕ) → c < g.connections.size → Step g (send_next g c)

pub data Reach (g : OrderEntryGateway) : OrderEntryGateway → Type 0 where
  here : Reach g g
  next : {g' g'' : OrderEntryGateway} → Reach g g' → Step g' g'' → Reach g g''

abbrev pub no_connection : Connection
no_connection = record {
  session_id = 0;
  read_buffer = [];
  outbound = record { capacity = 0; items = [] };
  session_outbound = record { capacity = 0; items = [] };
  replay_backlog = [];
  account_id = none;
  closed = true;
}

-- The gateway before its first connection.
abbrev pub start : ℕ → OrderEntryGateway
start pending_report_capacity = record {
  connections = assign 0 no_connection;
  account_sessions = [];
  order_owner = [];
  pending_reports = [];
  pending_report_capacity = pending_report_capacity;
  next_session_id = 1;
  ledger = record { accounts = []; holds = [] };
  submitted = [];
}

start-IsPrivate : (n : ℕ) → IsPrivate (start n)
start-IsPrivate n = record { sessions = tt; owners = tt; pending = tt; mail = λ c. (tt, tt) }

accept_connection-IsPrivate :
    (g : OrderEntryGateway) (capacity : ℕ) → IsPrivate g → IsPrivate (accept_connection g capacity)
unfolding accept_connection
accept_connection-IsPrivate g capacity w = record {
  sessions =
      AllEntries-mono _ _ g.account_sessions (λ a cs. AllItems-mono _ _ cs (keep a)) w.sessions;
  owners = AllEntries-mono _ _ g.order_owner (λ key d. keep key.0 d) w.owners;
  pending = w.pending;
  mail = λ d. mail_cases d;
}
  where
    keep : (a d : ℕ) → Belongs g a d → Belongs (accept_connection g capacity) a d
    keep a d h = elim (Bool-cases (g.connections.size == d)) [
      | inl new ↦ ground (arith, new)
      | inr old ↦ rw (old) (omega (arith, h.0), h.1)
    ]

    mail_cases : (d : ℕ) → Mail (connection (accept_connection g capacity) d)
    mail_cases d = elim (Bool-cases (g.connections.size == d)) [
      | inl new ↦ rw (new) (tt, tt)
      | inr old ↦ rw (old) (w.mail d)
    ]

size-claim_order_ownership :
    (g : OrderEntryGateway) (c a : ℕ) (m : Message)
    → (claim_order_ownership g c a m).connections.size ≡ g.connections.size
unfolding claim_order_ownership
size-claim_order_ownership g c a (new_order m) = refl
size-claim_order_ownership g c a (cancel_order m) = refl
size-claim_order_ownership g c a (replace_order m) = refl
size-claim_order_ownership g c a (accepted m) = refl
size-claim_order_ownership g c a (rejected m) = refl
size-claim_order_ownership g c a (cancelled m) = refl
size-claim_order_ownership g c a (replaced m) = refl
size-claim_order_ownership g c a (trade_report m) = refl

size-handle_message :
    (g : OrderEntryGateway) (c : ℕ) (m : Message)
    → (handle_message g c m).connections.size ≡ g.connections.size
unfolding handle_message submit_message reject_account_mismatch bind_session
size-handle_message g c m = elim (Option-cases (to_command m)) [
  | inl ignored ↦ rw (handle_message, ignored) refl
  | inr (command, asked) ↦ elim (Option-cases (connection g c).account_id) [
    | inl unbound ↦
        rw (handle_message, asked, unbound)
          (size-claim_order_ownership (bind_session g c (message_account m)) c _ m)
    | inr (a, bound) ↦ elim (Bool-cases (a == message_account m)) [
      | inl same ↦ rw (handle_message, asked, bound, same) (size-claim_order_ownership g c _ m)
      | inr other ↦ rw (handle_message, asked, bound, other) refl
    ]
  ]
]

handle_messages-IsPrivate :
    (g : OrderEntryGateway) (c : ℕ) (ms : List Message)
    → c < g.connections.size
    → IsPrivate g
    → IsPrivate (handle_messages g c ms)
handle_messages-IsPrivate g c [] inside w = w
handle_messages-IsPrivate g c (m ∷ ms) inside w =
    handle_messages-IsPrivate (handle_message g c m) c ms
      (omega (arith, inside, size-handle_message g c m)) (handle_message-IsPrivate g c m inside w)

receive-IsPrivate :
    (g : OrderEntryGateway) (c : ℕ) (chunk : List ℕ)
    → c < g.connections.size
    → IsPrivate g
    → IsPrivate (receive g c chunk)
unfolding receive
receive-IsPrivate g c chunk inside w =
    let buffer = (connection g c).read_buffer ++ chunk in
    handle_messages-IsPrivate _ c (drain (length buffer) buffer).0 inside
      (put_connection-IsPrivate g c _ (same_account-keeps g c _ refl) (w.mail c) w)

pop_items-AllItems :
    (P : Message → Type 0) (ms : List Message) → AllItems P ms → AllItems P (pop_items ms).1
pop_items-AllItems P [] h = tt
pop_items-AllItems P (m ∷ ms) h = h.1

next_message_cases :
    (conn : Connection) (backlog replies : List Message)
    → AllItems (IsOwn conn.account_id) conn.outbound.items
    → AllItems (IsOwn conn.account_id) backlog
    → let session_outbound : BoundedQueue Message = record {
      capacity = conn.session_outbound.capacity;
      items = replies;
    } in
      let conn' = record conn { replay_backlog = backlog; session_outbound = session_outbound } in
      Mail (next_message conn').1 × ((next_message conn').1.account_id ≡ conn.account_id)
unfolding next_message bounded_pop
next_message_cases conn (m ∷ ms) replies h k = ((h, k.1), refl)
next_message_cases conn [] (reply ∷ replies) h k = ((h, tt), refl)
next_message_cases conn [] [] h k = ((pop_items-AllItems _ conn.outbound.items h, tt), refl)

-- Sending keeps the account, and what is left to send is part of what there was.
next_message-Mail :
    (conn : Connection)
    → Mail conn
    → Mail (next_message conn).1 × ((next_message conn).1.account_id ≡ conn.account_id)
next_message-Mail conn h =
    next_message_cases conn conn.replay_backlog conn.session_outbound.items h.0 h.1

route-IsPrivate :
    (g : OrderEntryGateway) (event : ExchangeEvent) (ledger : Ledger)
    → IsPrivate g
    → IsPrivate (route_event (record g { ledger = ledger }) event)
route-IsPrivate g event ledger w =
    route_event-IsPrivate _ event
      (record { sessions = w.sessions; owners = w.owners; pending = w.pending; mail = w.mail })

Step-IsPrivate : {g g' : OrderEntryGateway} → Step g g' → IsPrivate g → IsPrivate g'
Step-IsPrivate {g} (accept capacity) w = accept_connection-IsPrivate g capacity w
Step-IsPrivate {g} (read_bytes c chunk inside) w = receive-IsPrivate g c chunk inside w
Step-IsPrivate {g} (handle c m inside) w = handle_message-IsPrivate g c m inside w
Step-IsPrivate {g} (mark_closed c) w =
    put_connection-IsPrivate g c _ (same_account-keeps g c _ refl) (w.mail c) w
Step-IsPrivate {g} (unbind c) w = unbind_session-IsPrivate g c w
Step-IsPrivate {g} (route event ledger) w = route-IsPrivate g event ledger w
Step-IsPrivate {g} (send c inside) w =
    let kept = next_message-Mail (connection g c) (w.mail c) in
    put_connection-IsPrivate g c _ (same_account-keeps g c _ kept.1) kept.0 w

Reach-IsPrivate : (n : ℕ) (g : OrderEntryGateway) → Reach (start n) g → IsPrivate g
Reach-IsPrivate n g here = start-IsPrivate n
Reach-IsPrivate n g (next r s) = Step-IsPrivate s (Reach-IsPrivate n _ r)

-- However connections are accepted, bytes read, events routed, messages sent and connections closed,
-- every report that waits on a connection, live or left over from before it was bound, is of the
-- account that the connection is bound to.
pub private_reports :
    (pending_report_capacity : ℕ) (g : OrderEntryGateway)
    → Reach (start pending_report_capacity) g
    → (c : ℕ) → Mail (connection g c)
private_reports pending_report_capacity g r c = (Reach-IsPrivate pending_report_capacity g r).mail c
