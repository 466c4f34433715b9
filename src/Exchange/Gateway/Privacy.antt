-- ===== src/Exchange/Gateway/Privacy.antt =====
-- mdh/src/exchange/gateway/order_entry_gateway.cpp: whose reports wait on a connection.
use cpp_projects.Base.{
  ℕ, ◌<◌, ◌≡◌, Bool-cases, Option-cases, inl, inr, Option, none, some, List, [], ◌∷◌, arith, ◌==◌,
  ltb, length,
}
use cpp_projects.Base.Entries.{
  AllItems, AllItems-append, AllItems-mono, AllEntries, AllEntries-mono, AllEntries-find,
}
use cpp_projects.Base.Map.{ℕ_key, pair_key, find}
use cpp_projects.Exchange.Gateway.{Connection, OrderEntryGateway, connection, put_connection}
use cpp_projects.Exchange.Gateway.Reports.{message_account}
use cpp_projects.Exchange.Gateway.Sessions.{entries}
use cpp_projects.Queue.Bounded.{BoundedQueue, bounded_push}
use cpp_projects.Wire.OrderEntry.{Message}

-- The connection exists and is bound to the account.
abbrev pub Belongs : OrderEntryGateway → ℕ → ℕ → Type 0
Belongs g account_id c = (c < g.connections.size) × ((connection g c).account_id ≡ some account_id)

-- A message of the account that the connection is bound to.
abbrev pub IsOwn : Option ℕ → Message → Type 0
IsOwn account_id m = account_id ≡ some (message_account m)

-- The message is of the account.
abbrev pub OfAccount : ℕ → Message → Type 0
OfAccount a m = message_account m ≡ a

-- Every report and backlog message that waits on the connection is of its own account.
abbrev pub Mail : Connection → Type 0
Mail conn =
    AllItems (IsOwn conn.account_id) conn.outbound.items
    × AllItems (IsOwn conn.account_id) conn.replay_backlog

pub record IsPrivate (g : OrderEntryGateway) : Type 0 where
  pub sessions : AllEntries (λ a cs. AllItems (Belongs g a) cs) g.account_sessions
  pub owners : AllEntries (λ key c. Belongs g key.0 c) g.order_owner
  pub pending : AllEntries (λ a ms. AllItems (OfAccount a) ms) g.pending_reports
  pub mail : (c : ℕ) → Mail (connection g c)

-- A write to a connection that keeps the bindings of all keeps privacy if the mail is its own.
pub put_connection-IsPrivate :
    (g : OrderEntryGateway) (c : ℕ) (conn : Connection)
    → ((a d : ℕ) → Belongs g a d → Belongs (put_connection g c conn) a d)
    → Mail conn
    → IsPrivate g
    → IsPrivate (put_connection g c conn)
put_connection-IsPrivate g c conn keep own w = record {
  sessions =
      AllEntries-mono _ _ g.account_sessions (λ a cs. AllItems-mono _ _ cs (keep a)) w.sessions;
  owners = AllEntries-mono _ _ g.order_owner (λ key d. keep key.0 d) w.owners;
  pending = w.pending;
  mail = λ d. mail_cases d;
}
  where
    mail_cases : (d : ℕ) → Mail (connection (put_connection g c conn) d)
    mail_cases d = elim (Bool-cases (c == d)) [
      | inl same ↦ rw (same) own
      | inr other ↦ rw (other) (w.mail d)
    ]

-- A connection that stays bound as it was.
pub same_account-keeps :
    (g : OrderEntryGateway) (c : ℕ) (conn : Connection)
    → conn.account_id ≡ (connection g c).account_id
    → (a d : ℕ) → Belongs g a d
    → Belongs (put_connection g c conn) a d
same_account-keeps g c conn same a d h = (h.0, ground arith)

-- A connection that was bound to nothing.
pub unbound-keeps :
    (g : OrderEntryGateway) (c : ℕ) (conn : Connection)
    → (connection g c).account_id ≡ none
    → (a d : ℕ) → Belongs g a d
    → Belongs (put_connection g c conn) a d
unbound-keeps g c conn unbound a d h = (h.0, ground arith)

module _ {A : Type 0} (P : ℕ → A → Type 0) where
  -- What is found under an account.
  pub entries-find :
      (a : ℕ) (m : List (ℕ × List A))
      → AllEntries (λ a cs. AllItems (P a) cs) m
      → AllItems (P a) (entries (find a m))
  entries-find a m h = elim (Option-cases (find a m)) [
    | inl missing ↦ rw (missing) tt
    | inr (cs, found) ↦ rw (found) (AllEntries-find (λ a cs. AllItems (P a) cs) a m cs h found)
  ]

-- A message that gets into a bounded queue is of the account that the queue is for.
pub bounded_push-IsOwn :
    (a : Option ℕ) (b : BoundedQueue Message) (m : Message)
    → AllItems (IsOwn a) b.items
    → IsOwn a m
    → AllItems (IsOwn a) (bounded_push b m).0.items
unfolding bounded_push
bounded_push-IsOwn a b m h own = elim (Bool-cases (ltb (length b.items) b.capacity)) [
  | inl room ↦ rw (room) (AllItems-append (IsOwn a) b.items (m ∷ []) h (own, tt))
  | inr full ↦ rw (full) h
]
