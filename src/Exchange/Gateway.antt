-- ===== src/Exchange/Gateway.antt =====
-- mdh/src/exchange/gateway/order_entry_gateway.cpp: sessions between TCP connections and the matching
-- pipeline. A `Connection*` is the position of the connection in `connections`, which only grows. The
-- outbound queues are the bounded queues that SpscQueue implements. Threads, sockets and wake-ups do not
-- show: each handler is one step, as the source's locks make it.
pub mod Reports
pub mod Sessions
pub mod Routing
pub mod Reader
mod Privacy
mod PrivateRouting
mod PrivateSessions
mod PrivateSteps
mod Frames
mod Tests
use cpp_projects.Base.{ℕ, Bool, Option, List}
use cpp_projects.Base.Array.{Array, write}
use cpp_projects.Exchange.Ledger.{Ledger}
use cpp_projects.Exchange.Core.{ExchangeCommand}
use cpp_projects.Queue.Bounded.{BoundedQueue}
use cpp_projects.Wire.OrderEntry.{Message}

pub record Connection : Type 0 where
  pub session_id : ℕ
  pub read_buffer : List ℕ
  pub outbound : BoundedQueue Message
  pub session_outbound : BoundedQueue Message
  pub replay_backlog : List Message
  pub account_id : Option ℕ
  pub closed : Bool

-- `OrderKey`: account id and client order id.
abbrev pub OrderKey : Type 0
OrderKey = ℕ × ℕ

pub record OrderEntryGateway : Type 0 where
  pub connections : Array Connection
  pub account_sessions : List (ℕ × List ℕ)
  pub order_owner : List (OrderKey × ℕ)
  pub pending_reports : List (ℕ × List Message)
  pub pending_report_capacity : ℕ
  pub next_session_id : ℕ
  pub ledger : Ledger
  -- What submit_command was called with, the newest first.
  pub submitted : List ExchangeCommand

-- `*conn`, and a write through it.
abbrev pub connection : OrderEntryGateway → ℕ → Connection
connection g c = g.connections.at c

abbrev pub put_connection : OrderEntryGateway → ℕ → Connection → OrderEntryGateway
put_connection g c conn = record g { connections = write g.connections c conn }
