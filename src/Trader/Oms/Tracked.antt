-- ===== src/Trader/Oms/Tracked.antt =====
-- mdh/src/trader/oms/order_management_system.cpp: orders of one account that wait for an answer, and a locked
-- section on one of them.
use mathlib.Core.Path.{subst}
use cpp_projects.Base.{
  ℕ, ◌≤◌, if◌then◌else◌, ◌<◌, ◌≡◌, ◌⊎◌, refl, sym, ◌∙◌, true, false, Bool-cases, Option, none, some,
  Option-cases, inl, inr, arith,
}
use cpp_projects.Base.Entries.{AllItems, AllEntries, AllEntries-find, AllEntries-insert}
use cpp_projects.Base.Map.{ℕ_key}
use cpp_projects.Trader.Oms.{
  ClientOrder, ClientOrderState, pending_new, live, partially_filled, filled, rejected, cancelled,
  replaced, is_live, OrderManagementSystem, no_action, is_pending_new, Sender, order, send, notify,
  change, change_and_notify, with_action,
}
use cpp_projects.Trader.Oms.Changes.{change-missing, change-found, ids-change}
use cpp_projects.Wire.OrderEntry.{Message}

abbrev pub AllAnswered : Option ClientOrder → Type 0
AllAnswered none = Unit
AllAnswered (some c) = is_pending_new c.state ≡ false

pub live_ne_pending : (s : ClientOrderState) → is_live s ≡ true → is_pending_new s ≡ false
live_ne_pending pending_new h = cc
live_ne_pending live h = refl
live_ne_pending partially_filled h = refl
live_ne_pending filled h = refl
live_ne_pending rejected h = refl
live_ne_pending cancelled h = refl
live_ne_pending replaced h = refl

pub rejected-answered :
    (s : ClientOrderState) → is_pending_new (if is_pending_new s then rejected else s) ≡ false
rejected-answered s = elim (Bool-cases (is_pending_new s)) [
  | inl pending ↦ rw (pending) refl
  | inr other ↦ rw (other) other
]

-- A pending order has not been answered.
abbrev pub IsUnanswered : ClientOrder → Type 0
IsUnanswered c =
    (is_pending_new c.state ≡ false)
    ⊎ ((c.exchange_order_id ≡ none)
        × (c.pending_action ≡ no_action)
        × (c.remaining_quantity ≡ c.quantity))

-- An order of the account under an id that was given out.
pub record IsTracked (account_id next id : ℕ) (c : ClientOrder) : Type 0 where
  pub given_out : id < next
  pub own_id : c.client_order_id ≡ id
  pub own_account : c.account_id ≡ account_id
  pub unanswered : IsUnanswered c

pub record IsConsistent (o : OrderManagementSystem) : Type 0 where
  pub orders : AllEntries (IsTracked o.account_id o.next_client_order_id) o.orders
  pub updates :
      AllItems (λ c. IsTracked o.account_id o.next_client_order_id c.client_order_id c) o.updates
  pub fills :
      AllItems
        (λ fill. (fill.account_id ≡ o.account_id) × fill.client_order_id < o.next_client_order_id)
        o.fills

-- A change of the order that keeps its ids, and leaves it unanswered if it leaves it pending.
abbrev pub Keeps : (ClientOrder → ClientOrder) → ClientOrder → Type 0
Keeps f c =
    (IsUnanswered c → IsUnanswered (f c))
    × ((f c).client_order_id ≡ c.client_order_id)
    × ((f c).account_id ≡ c.account_id)

pub Keeps-IsTracked :
    (f : ClientOrder → ClientOrder) (a n id : ℕ) (c : ClientOrder)
    → Keeps f c
    → IsTracked a n id c
    → IsTracked a n id (f c)
Keeps-IsTracked f a n id c keeps w = record {
  given_out = w.given_out;
  own_id = keeps.1 ∙ w.own_id;
  own_account = keeps.2 ∙ w.own_account;
  unanswered = keeps.0 w.unanswered;
}

pub cleared : (c : ClientOrder) → IsUnanswered c → IsUnanswered (with_action no_action c)
cleared c (inl answered) = inl answered
cleared c (inr (new, idle, whole)) = inr (new, refl, whole)

-- The copy that a locked section takes out is tracked.
abbrev pub CopyIsTracked : ℕ → ℕ → ℕ → Option ClientOrder → Type 0
CopyIsTracked a n id none = Unit
CopyIsTracked a n id (some c) = IsTracked a n id c

pub change-IsConsistent :
    (id : ℕ) (f : ClientOrder → ClientOrder) (o : OrderManagementSystem)
    → ((c : ClientOrder) → order o id ≡ some c → Keeps f c)
    → IsConsistent o
    → IsConsistent (change id f o).0
      × CopyIsTracked o.account_id o.next_client_order_id id (change id f o).1
unfolding change
change-IsConsistent id f o keeps w = elim (Option-cases (order o id)) [
  | inl missing ↦ rw (change-missing id f o missing) (w, tt)
  | inr (c, found) ↦
      let T = IsTracked o.account_id o.next_client_order_id in
      let kept =
        Keeps-IsTracked f o.account_id o.next_client_order_id id c (keeps c found)
          (AllEntries-find T id o.orders c w.orders found) in
      rw (change-found id f o c found) (
        record {
          orders = AllEntries-insert T id (f c) o.orders kept w.orders;
          updates = w.updates;
          fills = w.fills;
        },
        kept,
      )
]

pub notify-IsConsistent :
    (a n id : ℕ) (updated : Option ClientOrder) (o : OrderManagementSystem)
    → (o.account_id ≡ a) × (o.next_client_order_id ≡ n)
    → CopyIsTracked a n id updated
    → IsConsistent o
    → IsConsistent (notify updated o)
notify-IsConsistent a n id none o same h w = w
notify-IsConsistent a n id (some c) o same h w = record {
  orders = w.orders;
  updates = (
    record {
      given_out =
          subst (λ i. i < o.next_client_order_id) (sym h.own_id)
            (omega (arith, same.1, h.given_out));
      own_id = refl;
      own_account = h.own_account ∙ sym same.0;
      unanswered = h.unanswered;
    },
    w.updates,
  );
  fills = w.fills;
}

pub change_and_notify-IsConsistent :
    (id : ℕ) (f : ClientOrder → ClientOrder) (o : OrderManagementSystem)
    → ((c : ClientOrder) → Keeps f c)
    → IsConsistent o
    → IsConsistent (change_and_notify id f o)
change_and_notify-IsConsistent id f o keeps w =
    let h = change-IsConsistent id f o (λ c found. keeps c) w in
    notify-IsConsistent _ _ id (change id f o).1 (change id f o).0 (ids-change id f o) h.1 h.0

pub send-IsConsistent :
    (sender : Sender) (m : Message) (o : OrderManagementSystem)
    → IsConsistent o
    → IsConsistent (send sender m o)
send-IsConsistent sender m o w = elim (Bool-cases (sender m)) [
  | inl out ↦ rw (out) (record { orders = w.orders; updates = w.updates; fills = w.fills })
  | inr lost ↦ rw (lost) w
]

pub IsTracked-later :
    (a n m id : ℕ) (c : ClientOrder) → n ≤ m → IsTracked a n id c → IsTracked a m id c
IsTracked-later a n m id c h w = record {
  given_out = omega (arith, w.given_out);
  own_id = w.own_id;
  own_account = w.own_account;
  unanswered = w.unanswered;
}
