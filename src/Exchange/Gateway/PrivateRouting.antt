-- ===== src/Exchange/Gateway/PrivateRouting.antt =====
-- mdh/src/exchange/gateway/order_entry_gateway.cpp: what routing an event does to what Privacy
-- requires.
use cpp_projects.Base.{
  ℕ, ◌≡◌, refl, Bool-cases, Option-cases, inl, inr, some, List, [], ◌∷◌, arith, ◌==◌, leb, length,
}
use mathlib.Core.Path.{subst}
use cpp_projects.Base.Entries.{
  AllItems, AllItems-append, AllEntries, AllEntries-find, AllEntries-insert, AllEntries-erase,
}
use cpp_projects.Base.Map.{ℕ_key, pair_key, find}
use cpp_projects.Exchange.Events.{
  ExchangeEvent, order_accepted, order_rejected, order_cancelled, order_replaced, trade_executed,
  TradeCounterparty,
}
use cpp_projects.Exchange.Gateway.{OrderEntryGateway, OrderKey, connection}
use cpp_projects.Exchange.Gateway.Privacy.{
  OfAccount, Belongs, IsPrivate, put_connection-IsPrivate, same_account-keeps, entries-find,
  bounded_push-IsOwn,
}
use cpp_projects.Exchange.Gateway.Reports.{message_account, trade_side, to_execution_reports}
use cpp_projects.Exchange.Gateway.Routing.{
  deliver, first_open, open_owner, recipient, make_room, keep_pending, route_report, route_reports,
  disown_filled, owners_after, update_order_ownership, no_reports, route_event,
}
use cpp_projects.Exchange.Gateway.Sessions.{entries}
use cpp_projects.Exchange.Ledger.{find_hold}
use cpp_projects.Wire.OrderEntry.{Message}

deliver-IsPrivate :
    (g : OrderEntryGateway) (c : ℕ) (m : Message)
    → Belongs g (message_account m) c
    → IsPrivate g
    → IsPrivate (deliver g c m)
unfolding deliver
deliver-IsPrivate g c m bound w =
    put_connection-IsPrivate g c _ (same_account-keeps g c _ refl)
      (bounded_push-IsOwn _ (connection g c).outbound m (w.mail c).0 bound.1, (w.mail c).1) w

first_open-Belongs :
    (g : OrderEntryGateway) (a : ℕ) (cs : List ℕ) (c : ℕ)
    → AllItems (Belongs g a) cs
    → first_open g cs ≡ some c
    → Belongs g a c
first_open-Belongs g a [] c h e = cc
first_open-Belongs g a (d ∷ ds) c h e = elim (Bool-cases (connection g d).closed) [
  | inl closed ↦ first_open-Belongs g a ds c h.1 (ground (arith, closed))
  | inr alive ↦ let same : d ≡ c = ground (arith, alive) in rw (← same) h.0
]

open_owner-Belongs :
    (g : OrderEntryGateway) (key : OrderKey) (c : ℕ)
    → IsPrivate g
    → open_owner g key ≡ some c
    → Belongs g key.0 c
open_owner-Belongs g key c w e = elim (Option-cases (find key g.order_owner)) [
  | inl missing ↦ cc
  | inr (d, found) ↦ elim (Bool-cases (connection g d).closed) [
    | inl closed ↦ ground (arith, closed)
    | inr alive ↦
        let same : d ≡ c = ground (arith, alive) in
        rw (← same)
          (AllEntries-find (λ key c. Belongs g key.0 c) key g.order_owner d w.owners found)
  ]
]

pub recipient-Belongs :
    (g : OrderEntryGateway) (key : OrderKey) (c : ℕ)
    → IsPrivate g
    → recipient g key ≡ some c
    → Belongs g key.0 c
unfolding recipient
recipient-Belongs g key c w e = elim (Option-cases (open_owner g key)) [
  | inl unowned ↦
      first_open-Belongs g key.0 (entries (find key.0 g.account_sessions)) c
        (entries-find (Belongs g) key.0 g.account_sessions w.sessions) (ground (arith, unowned))
  | inr (d, owned) ↦ open_owner-Belongs g key c w (ground (arith, owned))
]

make_room-AllItems :
    (P : Message → Type 0) (capacity : ℕ) (ms : List Message)
    → AllItems P ms
    → AllItems P (make_room capacity ms)
make_room-AllItems P capacity [] h = tt
make_room-AllItems P capacity (m ∷ ms) h = elim (Bool-cases (leb capacity (length (m ∷ ms)))) [
  | inl full ↦ rw (full) h.1
  | inr room ↦ rw (room) h
]

keep_pending-IsPrivate :
    (g : OrderEntryGateway) (m : Message)
    → IsPrivate g
    → IsPrivate (keep_pending g (message_account m) m)
unfolding keep_pending
keep_pending-IsPrivate g m w = elim (Bool-cases (g.pending_report_capacity == 0)) [
  | inl forgets ↦ rw (forgets) w
  | inr keeps ↦
      let a = message_account m in
      let waiting = entries (find a g.pending_reports) in
      let same =
        make_room-AllItems (OfAccount a) g.pending_report_capacity waiting
          (entries-find OfAccount a g.pending_reports w.pending) in
      rw (keeps) (record {
        sessions = w.sessions;
        owners = w.owners;
        pending =
            AllEntries-insert (λ a ms. AllItems (OfAccount a) ms) a _ g.pending_reports
              (AllItems-append (OfAccount a) (make_room g.pending_report_capacity waiting) (m ∷ [])
                same (refl, tt))
              w.pending;
        mail = w.mail;
      })
]

-- The report's key names the account of the message.
abbrev IsAddressed : OrderKey × Message → Type 0
IsAddressed (key, m) = key.0 ≡ message_account m

to_execution_reports-IsAddressed :
    (event : ExchangeEvent) → AllItems IsAddressed (to_execution_reports event)
unfolding to_execution_reports trade_side
to_execution_reports-IsAddressed (order_accepted ev) = (refl, tt)
to_execution_reports-IsAddressed (order_rejected ev) = (refl, tt)
to_execution_reports-IsAddressed (order_cancelled ev) = (refl, tt)
to_execution_reports-IsAddressed (order_replaced ev) = (refl, tt)
to_execution_reports-IsAddressed (trade_executed ev) = (refl, (refl, tt))
to_execution_reports-IsAddressed _ = tt

route_report-IsPrivate :
    (g : OrderEntryGateway) (key : OrderKey) (m : Message)
    → IsAddressed (key, m)
    → IsPrivate g
    → IsPrivate (route_report g (key, m))
unfolding route_report
route_report-IsPrivate g key m same w = elim (Option-cases (recipient g key)) [
  | inl nobody ↦ rw (route_report, nobody, same) (keep_pending-IsPrivate g m w)
  | inr (c, found) ↦
      rw (route_report, found)
        (deliver-IsPrivate g c m
          (subst (λ a. Belongs g a c) same (recipient-Belongs g key c w found)) w)
]

route_reports-IsPrivate :
    (g : OrderEntryGateway) (reports : List (OrderKey × Message))
    → AllItems IsAddressed reports
    → IsPrivate g
    → IsPrivate (route_reports g reports)
route_reports-IsPrivate g [] h w = w
route_reports-IsPrivate g ((key, m) ∷ reports) h w =
    route_reports-IsPrivate (route_report g (key, m)) reports h.1
      (route_report-IsPrivate g key m h.0 w)

module _ (P : OrderKey → ℕ → Type 0) where
  disown_filled-AllEntries :
      (owners : List (OrderKey × ℕ)) (side : TradeCounterparty)
      → AllEntries P owners
      → AllEntries P (disown_filled owners side)
  disown_filled-AllEntries owners side h = elim (Bool-cases (side.remaining_quantity == 0)) [
    | inl filled ↦ rw (filled) (AllEntries-erase P _ owners h)
    | inr rests ↦ rw (rests) h
  ]

owners_after-AllEntries :
    (g : OrderEntryGateway) (event : ExchangeEvent)
    → AllEntries (λ key c. Belongs g key.0 c) g.order_owner
    → AllEntries (λ key c. Belongs g key.0 c) (owners_after g event)
owners_after-AllEntries g (order_rejected ev) h =
    elim (Option-cases (find_hold g.ledger ev.account_id ev.client_order_id)) [
      | inl none_held ↦ rw (owners_after, none_held) (AllEntries-erase _ _ g.order_owner h)
      | inr (hold, held) ↦ rw (owners_after, held) h
    ]
owners_after-AllEntries g (order_cancelled ev) h = AllEntries-erase _ _ g.order_owner h
owners_after-AllEntries g (order_replaced ev) h =
    elim (Option-cases (find (ev.account_id, ev.original_client_order_id) g.order_owner)) [
      | inl missing ↦ rw (owners_after, missing) h
      | inr (c, found) ↦
          let P : OrderKey → ℕ → Type 0 = λ key c. Belongs g key.0 c in
          rw (owners_after, found)
            (AllEntries-erase P _ _ (
              AllEntries-insert P (ev.account_id, ev.new_client_order_id) c g.order_owner
                (AllEntries-find P (ev.account_id, ev.original_client_order_id) g.order_owner c h
                  found)
                h))
    ]
owners_after-AllEntries g (trade_executed ev) h =
    disown_filled-AllEntries _ _ ev.seller (disown_filled-AllEntries _ g.order_owner ev.buyer h)
owners_after-AllEntries g _ h = h

update_order_ownership-IsPrivate :
    (g : OrderEntryGateway) (event : ExchangeEvent)
    → IsPrivate g
    → IsPrivate (update_order_ownership g event)
unfolding update_order_ownership
update_order_ownership-IsPrivate g event w = record {
  sessions = w.sessions;
  owners = owners_after-AllEntries g event w.owners;
  pending = w.pending;
  mail = w.mail;
}

pub route_event-IsPrivate :
    (g : OrderEntryGateway) (event : ExchangeEvent) → IsPrivate g → IsPrivate (route_event g event)
unfolding route_event
route_event-IsPrivate g event w = elim (Bool-cases (no_reports (to_execution_reports event))) [
  | inl nothing ↦ rw (route_event, nothing) w
  | inr some_reports ↦
      rw (route_event, some_reports)
        (update_order_ownership-IsPrivate _ event (
          route_reports-IsPrivate g (to_execution_reports event)
            (to_execution_reports-IsAddressed event) w))
]
