-- ===== src/Exchange/Gateway/PrivateSessions.antt =====
-- mdh/src/exchange/gateway/order_entry_gateway.cpp: what binding, claiming and unbinding do to what Privacy requires.
use mathlib.Core.Path.{subst}
use cpp_projects.Base.{
  ℕ, ◌<◌, ◌≡◌, refl, sym, ap, ◌∙◌, Bool-cases, Option-cases, inl, inr, none, some, List, [], ◌∷◌,
  ◌++◌, arith, ◌==◌,
}
use cpp_projects.Base.Entries.{
  AllItems, AllItems-append, AllItems-mono, AllEntries, AllEntries-find, AllEntries-insert,
  AllEntries-erase, AllEntries-try_emplace,
}
use cpp_projects.Base.Map.{ℕ_key, pair_key, find, insert_or_assign, erase, try_emplace}
use cpp_projects.Exchange.Core.{ExchangeCommand}
use cpp_projects.Exchange.Gateway.{OrderEntryGateway, OrderKey, connection, put_connection}
use cpp_projects.Exchange.Gateway.Privacy.{
  Belongs, IsOwn, IsPrivate, put_connection-IsPrivate, same_account-keeps, unbound-keeps,
  entries-find, OfAccount,
}
use cpp_projects.Exchange.Gateway.Reports.{message_account, to_command}
use cpp_projects.Exchange.Gateway.Sessions.{
  entries, take_pending, bind_session, without, disown, is_empty, drop_session, unbind_session,
  reject_account_mismatch, claim_order_ownership,
}
use cpp_projects.Exchange.Gateway.Reader.{submit_message, handle_message}
use cpp_projects.Wire.OrderEntry.{
  Message, new_order, cancel_order, replace_order, accepted, rejected, cancelled, replaced,
  trade_report,
}

without-AllItems :
    (P : ℕ → Type 0) (c : ℕ) (ds : List ℕ) → AllItems P ds → AllItems P (without c ds)
without-AllItems P c [] h = tt
without-AllItems P c (d ∷ ds) h = elim (Bool-cases (d == c)) [
  | inl same ↦ rw (same) (without-AllItems P c ds h.1)
  | inr other ↦ rw (other) (h.0, without-AllItems P c ds h.1)
]

disown-AllEntries :
    (P : OrderKey → ℕ → Type 0) (c : ℕ) (m : List (OrderKey × ℕ))
    → AllEntries P m
    → AllEntries P (disown c m)
disown-AllEntries P c [] h = tt
disown-AllEntries P c ((key, d) ∷ m) h = elim (Bool-cases (d == c)) [
  | inl same ↦ rw (same) (disown-AllEntries P c m h.1)
  | inr other ↦ rw (other) (h.0, disown-AllEntries P c m h.1)
]

drop_session-AllEntries :
    (P : ℕ → ℕ → Type 0) (g : OrderEntryGateway) (c a : ℕ)
    → AllEntries (λ a cs. AllItems (P a) cs) g.account_sessions
    → AllEntries (λ a cs. AllItems (P a) cs) (drop_session g c a)
drop_session-AllEntries P g c a h = elim (Option-cases (find a g.account_sessions)) [
  | inl missing ↦ rw (drop_session, missing) h
  | inr (bound, found) ↦
      let Q : ℕ → List ℕ → Type 0 = λ a cs. AllItems (P a) cs in
      let rest =
        without-AllItems (P a) c bound (AllEntries-find Q a g.account_sessions bound h found) in
      elim (Bool-cases (is_empty (without c bound))) [
        | inl nobody ↦ rw (drop_session, found, nobody) (AllEntries-erase Q a g.account_sessions h)
        | inr others ↦
            rw (drop_session, found, others)
              (AllEntries-insert Q a (without c bound) g.account_sessions rest h)
      ]
]

pub unbind_session-IsPrivate :
    (g : OrderEntryGateway) (c : ℕ) → IsPrivate g → IsPrivate (unbind_session g c)
unfolding unbind_session
unbind_session-IsPrivate g c w = elim (Option-cases (connection g c).account_id) [
  | inl unbound ↦ rw (unbind_session, unbound) w
  | inr (a, bound) ↦
      rw (unbind_session, bound)
        (record {
          sessions = drop_session-AllEntries (Belongs g) g c a w.sessions;
          owners = disown-AllEntries (λ key c. Belongs g key.0 c) c g.order_owner w.owners;
          pending = w.pending;
          mail = w.mail;
        })
]

reject_account_mismatch-IsPrivate :
    (g : OrderEntryGateway) (c : ℕ) (command : ExchangeCommand)
    → IsPrivate g
    → IsPrivate (reject_account_mismatch g c command)
unfolding reject_account_mismatch
reject_account_mismatch-IsPrivate g c command w =
    put_connection-IsPrivate g c _ (same_account-keeps g c _ refl) (w.mail c) w

owned-IsPrivate :
    (g : OrderEntryGateway) (c a order : ℕ)
    → Belongs g a c
    → IsPrivate g
    → IsPrivate (record g { order_owner = try_emplace (a, order) c g.order_owner })
owned-IsPrivate g c a order bound w = record {
  sessions = w.sessions;
  owners =
      AllEntries-try_emplace (λ key c. Belongs g key.0 c) (a, order) c g.order_owner bound w.owners;
  pending = w.pending;
  mail = w.mail;
}

claim_order_ownership-IsPrivate :
    (g : OrderEntryGateway) (c a : ℕ) (m : Message)
    → Belongs g a c
    → IsPrivate g
    → IsPrivate (claim_order_ownership g c a m)
unfolding claim_order_ownership
claim_order_ownership-IsPrivate g c a (new_order m) bound w =
    owned-IsPrivate g c a m.client_order_id bound w
claim_order_ownership-IsPrivate g c a (cancel_order m) bound w =
    owned-IsPrivate g c a m.client_order_id bound w
claim_order_ownership-IsPrivate g c a (replace_order m) bound w =
    owned-IsPrivate g c a m.original_client_order_id bound w
claim_order_ownership-IsPrivate g c a (accepted m) bound w = w
claim_order_ownership-IsPrivate g c a (rejected m) bound w = w
claim_order_ownership-IsPrivate g c a (cancelled m) bound w = w
claim_order_ownership-IsPrivate g c a (replaced m) bound w = w
claim_order_ownership-IsPrivate g c a (trade_report m) bound w = w

submit_message-IsPrivate :
    (g : OrderEntryGateway) (c : ℕ) (m : Message) (command : ExchangeCommand)
    → Belongs g (message_account m) c
    → IsPrivate g
    → IsPrivate (submit_message g c m command)
unfolding submit_message
submit_message-IsPrivate g c m command bound w =
    let w' = claim_order_ownership-IsPrivate g c (message_account m) m bound w in
    record { sessions = w'.sessions; owners = w'.owners; pending = w'.pending; mail = w'.mail }

-- What waits on a connection that is bound to nothing would be anyone's: nothing does.
unbound-AllItems :
    (P : Message → Type 0) (ms : List Message) → AllItems (IsOwn none) ms → AllItems P ms
unbound-AllItems P ms h = AllItems-mono (IsOwn none) P ms (λ m own. cc) h

binding-IsPrivate :
    (g : OrderEntryGateway) (c a : ℕ) (backlog : List Message) (pending : List (ℕ × List Message))
    → c < g.connections.size
    → (connection g c).account_id ≡ none
    → AllItems (OfAccount a) backlog
    → AllEntries (λ a ms. AllItems (OfAccount a) ms) pending
    → IsPrivate g
    → let g' = record g {
      account_sessions =
          insert_or_assign a (entries (find a g.account_sessions) ++ (c ∷ [])) g.account_sessions;
      pending_reports = pending;
    } in
      let g'' =
        put_connection g' c
          (record (connection g c) { replay_backlog = backlog; account_id = some a }) in
      IsPrivate g'' × Belongs g'' a c
binding-IsPrivate g c a backlog pending inside unbound own_backlog own_pending w =
    let conn = record (connection g c) { replay_backlog = backlog; account_id = some a } in
    let nothing =
      subst (λ o. AllItems (IsOwn o) (connection g c).outbound.items) unbound (w.mail c).0 in
    let w' =
      put_connection-IsPrivate g c conn (unbound-keeps g c conn unbound)
        (
          unbound-AllItems _ (connection g c).outbound.items nothing,
          AllItems-mono (OfAccount a) (IsOwn (some a)) backlog (λ m own. ap some (sym own))
              own_backlog,
        )
        w in
    let p = put_connection g c conn in
    let bound : Belongs p a c = (inside, ground arith) in
    let sessions =
      AllItems-append (Belongs p a) (entries (find a g.account_sessions)) (c ∷ [])
        (entries-find (Belongs p) a g.account_sessions w'.sessions) (bound, tt) in
    (
      record {
        sessions =
            AllEntries-insert (λ a cs. AllItems (Belongs p a) cs) a _ g.account_sessions sessions
              w'.sessions;
        owners = w'.owners;
        pending = own_pending;
        mail = w'.mail;
      },
      bound,
    )

bind_session-IsPrivate :
    (g : OrderEntryGateway) (c a : ℕ)
    → c < g.connections.size
    → (connection g c).account_id ≡ none
    → IsPrivate g
    → IsPrivate (bind_session g c a) × Belongs (bind_session g c a) a c
unfolding bind_session
bind_session-IsPrivate g c a inside unbound w = elim (Option-cases (find a g.pending_reports)) [
  | inl missing ↦
      let nothing =
        subst (λ o. AllItems (IsOwn o) (connection g c).replay_backlog) unbound (w.mail c).1 in
      rw (bind_session, take_pending, missing)
        (binding-IsPrivate g c a (connection g c).replay_backlog g.pending_reports inside unbound
          (unbound-AllItems _ (connection g c).replay_backlog nothing) w.pending w)
  | inr (reports, found) ↦
      let P : ℕ → List Message → Type 0 = λ a ms. AllItems (OfAccount a) ms in
      rw (bind_session, take_pending, found)
        (binding-IsPrivate g c a reports (erase a g.pending_reports) inside unbound
          (AllEntries-find P a g.pending_reports reports w.pending found)
          (AllEntries-erase P a g.pending_reports w.pending) w)
]

pub handle_message-IsPrivate :
    (g : OrderEntryGateway) (c : ℕ) (m : Message)
    → c < g.connections.size
    → IsPrivate g
    → IsPrivate (handle_message g c m)
unfolding handle_message
handle_message-IsPrivate g c m inside w = elim (Option-cases (to_command m)) [
  | inl ignored ↦ rw (handle_message, ignored) w
  | inr (command, asked) ↦ elim (Option-cases (connection g c).account_id) [
    | inl unbound ↦
        let bound = bind_session-IsPrivate g c (message_account m) inside unbound w in
        rw (handle_message, asked, unbound) (submit_message-IsPrivate _ c m command bound.1 bound.0)
    | inr (a, bound) ↦ elim (Bool-cases (a == message_account m)) [
      | inl same ↦
          let own : a ≡ message_account m = ground (arith, same) in
          rw (handle_message, asked, bound, same)
            (submit_message-IsPrivate g c m command (inside, bound ∙ ap some own) w)
      | inr other ↦
          rw (handle_message, asked, bound, other) (reject_account_mismatch-IsPrivate g c command w)
    ]
  ]
]
