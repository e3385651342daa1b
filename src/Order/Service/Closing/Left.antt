-- ===== src/Order/Service/Closing/Left.antt =====
-- What the requests of the order service (order/pkg/service) leave of an order whose goods have left.
use schick.Prelude.{
  ℕ, ◌≡◌, refl, ℤ, Bool, true, false, List, [], ◌∷◌, Option, none, some, Text, Result, ok, err,
}
use schick.Order.{Error, Order}
use schick.Order.Shipment.{ShipmentTracking}
use schick.Order.Lifecycle.Invariant.{has_left}
use schick.Order.Repository.{
  ship_if_paid, cancel_if_pending_expired, cancel_if_paid_for_refund, Repository,
  mark_outbox_published, record_outbox_attempt, with_rows,
}
use schick.Order.Repository.Rows.{order_outbox}
use schick.Order.Repository.Updates.{
  Stands, Stands-save_paid_if_pending, Stands-save_paid_if_canceled, Stands-ship_if_paid,
  Stands-cancel_if_pending_expired, Stands-cancel_if_paid_for_refund,
}
use schick.Order.World.{Env, Task, access}
use schick.Order.World.Keeps.{
  Keeps, IsPolite, keeps_rules, Keeps-access, Keeps-bind, Keeps-pure, Keeps-fail, Keeps-attempt,
}
use schick.Order.Service.{
  outbox_events, marshal_order_event, stored_order, drained, try_drain_outbox,
  reinstate_canceled_order, release_reservation_for_cancel, commit_reservation_for_ship, tolerated,
}
use schick.Order.Service.Paying.{
  as_saved, persist_paid, drop_reinstated, marked_paid, paid_events, saved_at_last, pay_again,
  reconcile, after_persist, persist, pay_reinstated, recheck, pay_pending, pay_order,
  mark_order_paid, handle_payment_succeeded,
}
use schick.Order.Service.Closing.{
  as_canceled_order, refuse, updated_events, not_shipped, after_ship, ship_order, after_cancel,
  cancel_expired, cancel_expired_pending_order, expire_each, expire_pending_orders, refund_paid,
  refund_found, cancel_order_for_refund, refund_of, handle_payment_canceled,
}
use schick.Outbox.{Event}
use schick.Outbox.Draining.{drain_keeps}
use schick.Outbox.Memory.{Entry}

pub with_rows_orders :
    (r : Repository) (rows : Option (List Entry)) → (with_rows r rows).0.orders ≡ r.orders
with_rows_orders r none = refl
with_rows_orders r (some es) = refl

module _ (env : Env) (id : Text) (o : Order) (left : has_left o.status ≡ true)
    (polite : IsPolite env (Stands id o)) where
  abbrev Leaves : {A : Type 0} → Task A → Type 0
  Leaves m = Keeps (Stands id o) m

  drained-Stands : (tick : ℕ) (r : Repository) → Stands id o r → Stands id o (drained env tick r).0
  unfolding mark_outbox_published record_outbox_attempt
  drained-Stands tick r h =
      drain_keeps order_outbox env.describe (Stands id o) (λ s n k. rw (with_rows_orders s _) k)
        (λ s n m k. rw (with_rows_orders s _) k) _ r h

  try_drain_Leaves : Leaves (try_drain_outbox env)
  unfolding try_drain_outbox
  try_drain_Leaves = record {
    at = λ w.
        (Keeps-bind _ _ (Keeps-attempt _ (Keeps-access env _ polite (drained-Stands w.tick)))
            (λ _. Keeps-pure tt)).at
          w;
  }

  stored_order-Leaves : (key : Text) → Leaves (stored_order env key)
  unfolding stored_order
  stored_order-Leaves key = Keeps-access env _ polite (λ r h. h)

  marshal_Leaves : (subject : Text) (order : Order) → Leaves (marshal_order_event env subject order)
  unfolding marshal_order_event
  marshal_Leaves subject order = search keeps_rules

  pub outbox_events-Leaves :
      (order : Order) (subjects : List Text) → Leaves (outbox_events env order subjects)
  unfolding outbox_events
  outbox_events-Leaves order [] = Keeps-pure []
  outbox_events-Leaves order (subject ∷ subjects) =
      Keeps-bind _ _ (marshal_Leaves subject order)
        (λ payload. Keeps-bind _ _ (outbox_events-Leaves order subjects) (λ rest. Keeps-pure _))

  reinstate_Leaves : (order : Order) → Leaves (reinstate_canceled_order env order)
  unfolding reinstate_canceled_order
  reinstate_Leaves order = search keeps_rules

  marked_paid-Leaves : (order : Order) (p : Text) (a : ℤ) → Leaves (marked_paid env order p a)
  unfolding marked_paid
  marked_paid-Leaves order p a = search keeps_rules

  drop_Leaves : (reservation : Text) → Leaves (drop_reinstated env reservation)
  unfolding drop_reinstated
  drop_Leaves reservation = search keeps_rules

  paid_events-Leaves : (order : Order) → Leaves (paid_events env order)
  unfolding paid_events
  paid_events-Leaves order = outbox_events-Leaves order _

  persist_paid-Leaves :
      (order : Order) (events : List Event) (b : Bool) → Leaves (persist_paid env order events b)
  unfolding persist_paid
  persist_paid-Leaves order events true =
      Keeps-access env _ polite (Stands-save_paid_if_canceled id o left order events)
  persist_paid-Leaves order events false =
      Keeps-access env _ polite (Stands-save_paid_if_pending id o left order events)

  saved_at_last-Leaves :
      (reservation : Text) (order : Order) (b : Bool)
      → Leaves (saved_at_last env reservation order b)
  saved_at_last-Leaves reservation order true = search (keeps_rules, try_drain_Leaves)
  saved_at_last-Leaves reservation order false = search keeps_rules

  pay_again-Leaves : (p : Text) (a : ℤ) (fresh : Order) → Leaves (pay_again env p a fresh)
  unfolding pay_again
  pay_again-Leaves p a fresh =
      search
        (
          keeps_rules, reinstate_Leaves, marked_paid-Leaves, paid_events-Leaves,
          persist_paid-Leaves, saved_at_last-Leaves,
        )
        depth 12

  reconcile-Leaves :
      (p : Text) (a : ℤ) (reservation : Text) (fresh : Order)
      → Leaves (reconcile env p a reservation fresh)
  unfolding reconcile
  reconcile-Leaves p a reservation fresh = search (keeps_rules, drop_Leaves, pay_again-Leaves)

  after_persist-Leaves :
      (p : Text) (a : ℤ) (reservation : Text) (order : Order) (b : Bool)
      → Leaves (after_persist env p a reservation order b)
  after_persist-Leaves p a reservation order true = search (keeps_rules, try_drain_Leaves)
  after_persist-Leaves p a reservation order false =
      search (keeps_rules, drop_Leaves, stored_order-Leaves, reconcile-Leaves)

  persist-Leaves :
      (p : Text) (a : ℤ) (reservation : Text) (order : Order)
      → Leaves (persist env p a reservation order)
  unfolding persist
  persist-Leaves p a reservation order =
      search
        (keeps_rules, drop_Leaves, paid_events-Leaves, persist_paid-Leaves, after_persist-Leaves)

  pay_reinstated-Leaves :
      (undo : Text → Task (Unit {0})) (p : Text) (a : ℤ) (order : Order)
      → ((reservation : Text) → Leaves (undo reservation))
      → Leaves (pay_reinstated env undo p a order)
  unfolding pay_reinstated
  pay_reinstated-Leaves undo p a order k =
      search (keeps_rules, k, reinstate_Leaves, marked_paid-Leaves, persist-Leaves)

  recheck-Leaves : (p : Text) (a : ℤ) (order fresh : Order) → Leaves (recheck env p a order fresh)
  unfolding recheck
  recheck-Leaves p a order fresh = search (keeps_rules, pay_reinstated-Leaves, persist-Leaves)

  pay_pending-Leaves : (p : Text) (a : ℤ) (order : Order) → Leaves (pay_pending env p a order)
  unfolding pay_pending
  pay_pending-Leaves p a order =
      search (keeps_rules, marked_paid-Leaves, stored_order-Leaves, recheck-Leaves)

  pay_order-Leaves : (p : Text) (a : ℤ) (order : Order) → Leaves (pay_order env p a order)
  unfolding pay_order
  pay_order-Leaves p a order =
      search (keeps_rules, pay_reinstated-Leaves, drop_Leaves, pay_pending-Leaves)

  pub mark_order_paid-Leaves : (key p : Text) (a : ℤ) → Leaves (mark_order_paid env key p a)
  unfolding mark_order_paid
  mark_order_paid-Leaves key p a = search (keeps_rules, stored_order-Leaves, pay_order-Leaves)

  pub handle_payment_succeeded-Leaves :
      (key p : Text) (a : ℤ) → Leaves (handle_payment_succeeded env key p a)
  unfolding handle_payment_succeeded
  handle_payment_succeeded-Leaves key p a = search (keeps_rules, mark_order_paid-Leaves)

  refuse-Leaves : (b : Bool) (e : Error) → Leaves (refuse b e)
  refuse-Leaves b e = search keeps_rules

  updated_events-Leaves : (order : Order) → Leaves (updated_events env order)
  unfolding updated_events
  updated_events-Leaves order = outbox_events-Leaves order _

  tolerated-Leaves : (test : Error → Bool) (r : Result Error (Unit {0})) → Leaves (tolerated test r)
  tolerated-Leaves test (ok _) = Keeps-pure tt
  tolerated-Leaves test (err e) = search keeps_rules

  release_Leaves : (reservation : Text) → Leaves (release_reservation_for_cancel env reservation)
  unfolding release_reservation_for_cancel
  release_Leaves reservation = search (keeps_rules, tolerated-Leaves)

  commit_Leaves : (reservation : Text) → Leaves (commit_reservation_for_ship env reservation)
  unfolding commit_reservation_for_ship
  commit_Leaves reservation = search (keeps_rules, tolerated-Leaves)

  not_shipped-Leaves : (r : Result Error Order) → Leaves (not_shipped env r)
  not_shipped-Leaves (ok fresh) = search keeps_rules
  not_shipped-Leaves (err e) = Keeps-fail _

  after_ship-Leaves : (order : Order) (b : Bool) → Leaves (after_ship env order b)
  after_ship-Leaves order true = search (keeps_rules, try_drain_Leaves)
  after_ship-Leaves order false = search (keeps_rules, stored_order-Leaves, not_shipped-Leaves)

  ship_if_paid-Leaves :
      (order : Order) (events : List Event)
      → Leaves (access env (λ r. as_saved (ship_if_paid r order events)))
  ship_if_paid-Leaves order events =
      Keeps-access env _ polite (Stands-ship_if_paid id o left order events)

  pub ship_order-Leaves :
      (key by : Text) (tracking : ShipmentTracking) → Leaves (ship_order env key by tracking)
  unfolding ship_order
  ship_order-Leaves key by tracking =
      search
        (
          keeps_rules, stored_order-Leaves, refuse-Leaves, commit_Leaves, updated_events-Leaves,
          ship_if_paid-Leaves, after_ship-Leaves,
        )
        depth 20

  after_cancel-Leaves : (answer : Option Order × Bool) → Leaves (after_cancel env answer)
  after_cancel-Leaves (some order, true) = search (keeps_rules, try_drain_Leaves, release_Leaves)
  after_cancel-Leaves (some order, false) = Keeps-pure tt
  after_cancel-Leaves (none, b) = Keeps-pure tt

  cancel_pending_Leaves :
      (key : Text) (now : ℕ) (events : List Event)
      → Leaves (access env (λ r. as_canceled_order (cancel_if_pending_expired r key now events)))
  cancel_pending_Leaves key now events =
      Keeps-access env _ polite (Stands-cancel_if_pending_expired id o left key now events)

  cancel_expired-Leaves :
      (key : Text) (now : ℕ) (order : Order) → Leaves (cancel_expired env key now order)
  unfolding cancel_expired
  cancel_expired-Leaves key now order =
      search (keeps_rules, updated_events-Leaves, cancel_pending_Leaves, after_cancel-Leaves) depth
        12

  cancel_expired_order_Leaves : (key : Text) → Leaves (cancel_expired_pending_order env key)
  unfolding cancel_expired_pending_order
  cancel_expired_order_Leaves key =
      search (keeps_rules, stored_order-Leaves, cancel_expired-Leaves) depth 12

  expire_each-Leaves : (orders : List Order) → Leaves (expire_each env orders)
  unfolding expire_each
  expire_each-Leaves [] = Keeps-pure tt
  expire_each-Leaves (order ∷ orders) =
      Keeps-bind _ _ (Keeps-attempt _ (cancel_expired_order_Leaves order.id))
        (λ _. expire_each-Leaves orders)

  pub expire_Leaves : Leaves (expire_pending_orders env)
  unfolding expire_pending_orders
  expire_Leaves =
      Keeps-bind _ _ (search keeps_rules)
        (λ now. Keeps-bind _ _ (Keeps-access env _ polite (λ r h. h)) expire_each-Leaves)

  cancel_paid_Leaves :
      (key p : Text) (now : ℕ) (events : List Event)
      → Leaves (access env (λ r. as_canceled_order (cancel_if_paid_for_refund r key p now events)))
  cancel_paid_Leaves key p now events =
      Keeps-access env _ polite (Stands-cancel_if_paid_for_refund id o left key p now events)

  refund_paid-Leaves : (p : Text) (order : Order) → Leaves (refund_paid env p order)
  unfolding refund_paid
  refund_paid-Leaves p order =
      search (keeps_rules, updated_events-Leaves, cancel_paid_Leaves, after_cancel-Leaves) depth 12

  refund_found-Leaves : (p : Text) (r : Result Error Order) → Leaves (refund_found env p r)
  refund_found-Leaves p (ok order) = search (keeps_rules, refund_paid-Leaves)
  refund_found-Leaves p (err e) = search keeps_rules

  refund_Leaves :
      (key p : Text) (remaining : ℤ) → Leaves (cancel_order_for_refund env key p remaining)
  unfolding cancel_order_for_refund
  refund_Leaves key p remaining = search (keeps_rules, stored_order-Leaves, refund_found-Leaves)

  refund_of-Leaves : (key p : Text) (remaining : Option ℤ) → Leaves (refund_of env key p remaining)
  refund_of-Leaves key p none = Keeps-pure tt
  refund_of-Leaves key p (some remaining) = refund_Leaves key p remaining

  pub handle_payment_canceled-Leaves :
      (key p : Text) (remaining : Option ℤ) → Leaves (handle_payment_canceled env key p remaining)
  unfolding handle_payment_canceled
  handle_payment_canceled-Leaves key p remaining = search (keeps_rules, refund_of-Leaves)
