-- ===== src/Exchange/Engine/Cases.antt =====
-- Case rules for the handlers of mdh/src/exchange/matching/matching_engine.cpp, and the invariant
-- rule of the matching loop: every property of a command goes through these.
use cpp_projects.Base.{
  ℕ, zero, suc, ◌≡◌, refl, true, false, inl, inr, none, some, ◌-◌, ◌==◌, Bool-cases, Option-cases,
}
use cpp_projects.Base.Int.{pos, leb_ℤ}
use cpp_projects.Exchange.Core.{
  NewOrderCommand, CancelOrderCommand, ReplaceOrderCommand, RejectReason, invalid_instrument,
  unknown_order_id, invalid_replacement, ExchangeRestingOrder, BookOrder, is_gtc,
}
use cpp_projects.Exchange.Book
use cpp_projects.Exchange.Engine.State.{
  OrderRef, Run, reject_new_order, reject_replace_order, knows_instrument, book_for,
}
use cpp_projects.Exchange.Engine.Match.{
  next_contra, announce_trade, consume_contra, reduce_contra, fill, traded, reduce_incoming,
  match_loop, rest_order, rest_remainder_if_applicable,
}
use cpp_projects.Exchange.Engine.Process.{
  new_order_fault, accept_new_order, process_new_order, find_live, reject_cancel, cancel_live,
  process_cancel, preserves_priority, replace_in_place, replace_anew, replace_live, process_replace,
}

module _ {ℓ} (P : Run → Type ℓ) where
  pub fill_cases :
      (cs : ℕ) (r : Run) (incoming : ExchangeRestingOrder) (contra : BookOrder)
      → P (consume_contra (announce_trade cs r incoming contra) incoming contra)
      → ((contra.remaining_quantity - traded incoming contra == 0) ≡ false
          → P (
              reduce_contra
                (announce_trade cs r incoming contra)
                incoming
                contra
                (contra.remaining_quantity - traded incoming contra)))
      → P (fill cs r incoming contra)
  unfolding fill
  fill_cases cs r incoming contra consumed reduced =
      elim (Bool-cases (contra.remaining_quantity - traded incoming contra == 0)) [
        | inl e ↦ rw (e, fill) consumed
        | inr e ↦ rw (e, fill) (reduced e)
      ]

  pub rest_cases :
      (r : Run) (order : ExchangeRestingOrder)
      → P r
      → ((order.remaining_quantity == 0) ≡ false → P (rest_order r order))
      → P (rest_remainder_if_applicable r order)
  unfolding rest_remainder_if_applicable
  rest_cases r order dropped rested = elim (Bool-cases (order.remaining_quantity == 0)) [
    | inl e ↦ elim (Bool-cases (is_gtc order.time_in_force)) [
      | inl g ↦ rw (g, e) dropped
      | inr g ↦ rw g dropped
    ]
    | inr e ↦ elim (Bool-cases (is_gtc order.time_in_force)) [
      | inl g ↦ rw (g, e) (rested e)
      | inr g ↦ rw g dropped
    ]
  ]

  pub new_order_cases :
      (cmd : NewOrderCommand) (r : Run)
      → ((reason : RejectReason)
          → new_order_fault r.engine cmd ≡ some reason
          → P (reject_new_order cmd reason r))
      → (new_order_fault r.engine cmd ≡ none → P (accept_new_order cmd r))
      → P (process_new_order cmd r)
  unfolding process_new_order
  new_order_cases cmd r refused taken = elim (Option-cases (new_order_fault r.engine cmd)) [
    | inl e ↦ rw (e, process_new_order) (taken e)
    | inr (reason, e) ↦ rw (e, process_new_order) (refused reason e)
  ]

  pub cancel_cases :
      (cmd : CancelOrderCommand) (r : Run)
      → ((reason : RejectReason) → P (reject_cancel cmd reason r))
      → ((ref : OrderRef)
          → find_live r.engine cmd.account_id cmd.client_order_id cmd.instrument_id ≡ some ref
          → P (cancel_live cmd ref r))
      → P (process_cancel cmd r)
  unfolding process_cancel
  cancel_cases cmd r refused live =
      elim (Bool-cases (knows_instrument r.engine cmd.instrument_id)) [
        | inr e ↦ rw e (refused invalid_instrument)
        | inl e ↦
            rw e
              (elim (Option-cases
                (find_live r.engine cmd.account_id cmd.client_order_id cmd.instrument_id)) [
                  | inl f ↦ rw (f, process_cancel) (refused unknown_order_id)
                  | inr (ref, f) ↦ rw (f, process_cancel) (live ref f)
                ])
      ]

  pub replace_live_cases :
      (cmd : ReplaceOrderCommand) (ref : OrderRef) (r : Run)
      → (preserves_priority cmd (Book.order_at (book_for r.engine cmd.instrument_id) ref.handle)
            ≡ true
          → P (replace_in_place cmd ref r))
      → (preserves_priority cmd (Book.order_at (book_for r.engine cmd.instrument_id) ref.handle)
            ≡ false
          → P (replace_anew cmd ref r))
      → P (replace_live cmd ref r)
  unfolding replace_live
  replace_live_cases cmd ref r kept moved =
      elim (Bool-cases
        (preserves_priority cmd (Book.order_at (book_for r.engine cmd.instrument_id) ref.handle))) [
          | inl e ↦ rw e (kept e)
          | inr e ↦ rw e (moved e)
        ]

  pub replace_cases :
      (cmd : ReplaceOrderCommand) (r : Run)
      → ((reason : RejectReason) → P (reject_replace_order cmd reason r))
      → ((ref : OrderRef)
          → (leb_ℤ cmd.new_price (pos 0) ≡ false)
          → ((cmd.new_quantity == 0) ≡ false)
          → find_live r.engine cmd.account_id cmd.original_client_order_id cmd.instrument_id
            ≡ some ref
          → P (replace_live cmd ref r))
      → P (process_replace cmd r)
  unfolding process_replace
  replace_cases cmd r refused live =
      elim (Bool-cases (knows_instrument r.engine cmd.instrument_id)) [
        | inr e ↦ rw e (refused invalid_instrument)
        | inl e ↦ rw e (elim (Bool-cases (leb_ℤ cmd.new_price (pos 0))) [
          | inl p ↦ rw p (refused invalid_replacement)
          | inr p ↦ rw p (elim (Bool-cases (cmd.new_quantity == 0)) [
            | inl q ↦ rw q (refused invalid_replacement)
            | inr q ↦ rw q (found p q)
          ])
        ])
      ]
    where
      found :
          (leb_ℤ cmd.new_price (pos 0) ≡ false)
          → ((cmd.new_quantity == 0) ≡ false)
          → P
              (elim (find_live r.engine cmd.account_id cmd.original_client_order_id
                cmd.instrument_id) [
                  | none ↦ reject_replace_order cmd unknown_order_id r
                  | some ref ↦ replace_live cmd ref r
                ])
      found p q =
          elim (Option-cases
            (find_live r.engine cmd.account_id cmd.original_client_order_id cmd.instrument_id)) [
              | inl f ↦ rw (f) (refused unknown_order_id)
              | inr (ref, f) ↦ rw (f) (live ref p q f)
            ]

-- The loop at rest, and one round of it.
pub match_loop-done :
    (fuel cs : ℕ) (r : Run) (incoming : ExchangeRestingOrder)
    → next_contra r incoming ≡ none
    → match_loop fuel cs r incoming ≡ (r, incoming)
unfolding match_loop
match_loop-done zero cs r incoming e = refl
match_loop-done (suc fuel) cs r incoming e = rw (e, match_loop) refl

pub match_loop-round :
    (fuel cs : ℕ) (r : Run) (incoming : ExchangeRestingOrder) (contra : BookOrder)
    → next_contra r incoming ≡ some contra
    → match_loop (suc fuel) cs r incoming
      ≡ match_loop fuel cs (fill cs r incoming contra) (reduce_incoming incoming contra)
unfolding match_loop
match_loop-round fuel cs r incoming contra e = rw (e, match_loop) refl

-- The loop keeps what every round keeps.
pub match_loop_inv {ℓ} :
    (P : Run → ExchangeRestingOrder → Type ℓ) (cs : ℕ)
    → ((r : Run) (incoming : ExchangeRestingOrder) (contra : BookOrder)
        → next_contra r incoming ≡ some contra
        → P r incoming
        → P (fill cs r incoming contra) (reduce_incoming incoming contra))
    → (fuel : ℕ) (r : Run) (incoming : ExchangeRestingOrder) → P r incoming
    → P (match_loop fuel cs r incoming).0 (match_loop fuel cs r incoming).1
unfolding match_loop
match_loop_inv P cs keep zero r incoming h = h
match_loop_inv P cs keep (suc fuel) r incoming h = elim (Option-cases (next_contra r incoming)) [
  | inl e ↦ rw (e, match_loop) h
  | inr (contra, e) ↦
      rw (e, match_loop)
        (match_loop_inv P cs keep fuel (fill cs r incoming contra) (reduce_incoming incoming contra)
          (keep r incoming contra e h))
]
