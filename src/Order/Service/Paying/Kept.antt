-- ===== src/Order/Service/Paying/Kept.antt =====
-- What the steps of MarkOrderPaid that save nothing (order/pkg/service/service.go) leave of the repository.
use schick.Prelude.{
  ℕ, ◌≡◌, sym, subst, ℤ, true, not, List, [], ◌∷◌, Option, Text, arith, trim, is_empty, eqb_ℤ,
  eq_iff, if_rule,
}
use schick.Order.{Error, Order}
use schick.Order.Lifecycle.{mark_paid, is_pending, is_canceled, reinstate_for_late_payment}
use schick.Order.Repository.{Repository, mark_outbox_published, record_outbox_attempt}
use schick.Order.Repository.Rows.{order_outbox}
use schick.Order.Repository.Updates.{Stands}
use schick.Order.World.{Env}
use schick.Order.World.Holds.{
  HoldsOf, Yields, Yields-bind, Yields-pure, Yields-lift, Yields-any, Yields-or_undo,
}
use schick.Order.World.Keeps.{
  Keeps, IsPolite, keeps_rules, Keeps-access, Keeps-bind, Keeps-pure, Keeps-attempt,
}
use schick.Order.World.Ensures.{IsAlone}
use schick.Order.Service.{
  already_paid, returned, outbox_events, marshal_order_event, drained, try_drain_outbox,
  reinstate_canceled_order,
}
use schick.Order.Service.Closing.Left.{with_rows_orders}
use schick.Order.Service.Paying.{drop_reinstated, marked_paid, paid_events}
use schick.Outbox.Draining.{drain_keeps}

-- What the steps that do not save leave of an order.
module _ (env : Env) (alone : IsAlone env) (id : Text) (o : Order) where
  alone-IsPolite : IsPolite env (Stands id o)
  alone-IsPolite n r h = subst (Stands id o) (sym (alone.others n r)) h

  drained-Stands : (tick : ℕ) (r : Repository) → Stands id o r → Stands id o (drained env tick r).0
  unfolding mark_outbox_published record_outbox_attempt
  drained-Stands tick r h =
      drain_keeps order_outbox env.describe (Stands id o) (λ s n k. rw (with_rows_orders s _) k)
        (λ s n m k. rw (with_rows_orders s _) k) _ r h

  pub try_drain_Keeps : Keeps (Stands id o) (try_drain_outbox env)
  unfolding try_drain_outbox
  try_drain_Keeps = record {
    at = λ w.
        (Keeps-bind _ _
            (Keeps-attempt _ (Keeps-access env _ alone-IsPolite (drained-Stands w.tick)))
            (λ _. Keeps-pure tt)).at
          w;
  }

module _ (env : Env) {P : Repository → Type 0} where
  marshal_Keeps : (subject : Text) (order : Order) → Keeps P (marshal_order_event env subject order)
  unfolding marshal_order_event
  marshal_Keeps subject order = search keeps_rules

  events_Keeps : (order : Order) (subjects : List Text) → Keeps P (outbox_events env order subjects)
  unfolding outbox_events
  events_Keeps order [] = Keeps-pure []
  events_Keeps order (subject ∷ subjects) =
      Keeps-bind _ _ (marshal_Keeps subject order)
        (λ payload. Keeps-bind _ _ (events_Keeps order subjects) (λ rest. Keeps-pure _))

  pub paid_events-Keeps : (order : Order) → Keeps P (paid_events env order)
  unfolding paid_events
  paid_events-Keeps order = events_Keeps order _

  pub reinstate_Keeps : (order : Order) → Keeps P (reinstate_canceled_order env order)
  unfolding reinstate_canceled_order
  reinstate_Keeps order = search keeps_rules

  pub marked_Keeps : (order : Order) (p : Text) (a : ℤ) → Keeps P (marked_paid env order p a)
  unfolding marked_paid
  marked_Keeps order p a = search keeps_rules

  pub drop_Keeps : (reservation : Text) → Keeps P (drop_reinstated env reservation)
  unfolding drop_reinstated
  drop_Keeps reservation = search keeps_rules

-- A reinstated order keeps its id.
reinstated_id :
    (id : Text) (order : Order) (reservation : Text) (now : ℕ)
    → order.id ≡ id
    → HoldsOf
        (λ (o : Order). o.id ≡ id)
        (returned (reinstate_for_late_payment order reservation now))
unfolding reinstate_for_late_payment
reinstated_id id order reservation now h =
    let Q : Order × Option Error → Type 0 = λ x. HoldsOf (λ (o : Order). o.id ≡ id) (returned x) in
    if_rule Q (not (is_canceled order.status)) tt (if_rule Q (is_empty (trim reservation)) tt h)

pub reinstate_Yields :
    (env : Env) (id : Text) (order : Order)
    → order.id ≡ id
    → Yields (λ (x : Order × Text). x.0.id ≡ id) (reinstate_canceled_order env order)
unfolding reinstate_canceled_order
reinstate_Yields env id order h =
    Yields-bind _ _ (λ _. Unit {0}) _ (Yields-any _)
      (λ reservation _.
        Yields-bind _ _ (λ _. Unit {0}) _ (Yields-any _)
          (λ now _.
            Yields-bind _ _ (λ (o : Order). o.id ≡ id) _
              (Yields-or_undo (λ (o : Order). o.id ≡ id) env _ _
                (Yields-lift (λ (o : Order). o.id ≡ id) _
                  (reinstated_id id order reservation now h)))
              (λ reinstated e.
                Yields-pure (λ (x : Order × Text). x.0.id ≡ id) (reinstated, reservation) e)))

-- The order of an id, paid by the payment and not pending.
abbrev pub IsPaid : Text → Text → Order → Type 0
IsPaid id p m = (m.id ≡ id) × (already_paid m p ≡ true)

module _ (env : Env) (id p : Text) (a : ℤ) (trimmed : trim p ≡ p) where
  returned_IsPaid :
      (order : Order) (now : ℕ)
      → order.id ≡ id
      → HoldsOf (IsPaid id p) (returned (mark_paid order p a now))
  unfolding mark_paid already_paid
  returned_IsPaid order now e =
      let Q : Order × Option Error → Type 0 = λ x. HoldsOf (IsPaid id p) (returned x) in
      if_rule Q (not (is_pending order.status)) tt (
        if_rule Q (is_empty (trim p)) tt
          (if_rule Q (not (eqb_ℤ a order.total_cents)) tt (e, ground (arith, eq_iff (trim p) p))))

  pub marked_Yields :
      (order : Order) → order.id ≡ id → Yields (IsPaid id p) (marked_paid env order p a)
  unfolding marked_paid
  marked_Yields order e =
      Yields-bind _ _ (λ _. Unit {0}) _ (Yields-any _)
        (λ now _. Yields-lift (IsPaid id p) _ (returned_IsPaid order now e))
