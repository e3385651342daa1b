-- ===== src/Order/Service/Paying.antt =====
-- MarkOrderPaid and the consumer of payment.succeeded (order/pkg/service/service.go and
-- payment_consumer.go). The order that a step works on is a copy, so a step that fails drops it.
pub mod Results
pub mod Kept
pub mod Again
use schick.Prelude.{
  ℕ, ℤ, Bool, true, false, not, ◌&&◌, ◌||◌, List, [], ◌∷◌, Text, codes, is_empty, trim,
  if◌then◌else◌, Result, ok, err,
}
use schick.Order.{Error, failed, concurrent_status_change, Order}
use schick.Order.Lifecycle.{is_pending, is_canceled, mark_paid}
use schick.Order.Repository.{Repository, save_paid_if_pending, save_paid_if_canceled}
use schick.Order.World.{
  Env, World, Task, pure, fail, lift, attempt, ◌>>=◌, ◌>>◌, read_clock, access, let_go, or_undo,
}
use schick.Order.Service.{
  order_paid_subject, order_updated_subject, already_paid, returned, outbox_events, stored_order,
  try_drain_outbox, reinstate_canceled_order,
}
use schick.Outbox.{Event}

-- The result of a conditional save.
abbrev pub as_saved : Repository × Bool → Repository × Result Error Bool
as_saved (r, saved) = (r, ok saved)

module _ (env : Env) where
  unfoldable pub persist_paid : Order → List Event → Bool → Task Bool
  persist_paid order events from_canceled = access env λ r.
      if from_canceled
      then as_saved (save_paid_if_canceled r order events)
      else as_saved (save_paid_if_pending r order events)

  -- `if reinstatedReservation != "" { _ = s.stock.ReleaseReservation(…) }`
  unfoldable pub drop_reinstated : Text → Task (Unit {0})
  drop_reinstated reservation_id =
      if not (is_empty reservation_id) then let_go env reservation_id else pure tt

  unfoldable pub marked_paid : Order → Text → ℤ → Task Order
  marked_paid order payment_id amount_cents = do
    now ← read_clock env
    lift (returned (mark_paid order payment_id amount_cents now))

  unfoldable pub paid_events : Order → Task (List Event)
  paid_events order = outbox_events env order (order_paid_subject ∷ order_updated_subject ∷ [])

  -- The last part: the save has found the order in another status, and it is canceled now.
  abbrev pub saved_at_last : Text → Order → Bool → Task Order
  saved_at_last reservation_id order true = try_drain_outbox env >> pure order
  saved_at_last reservation_id order false =
      let_go env reservation_id >> fail concurrent_status_change

  unfoldable pub pay_again : Text → ℤ → Order → Task Order
  pay_again payment_id amount_cents fresh = do
    (order, reservation_id) ← reinstate_canceled_order env fresh
    marked ← or_undo env (let_go env reservation_id) (marked_paid order payment_id amount_cents)
    events ← or_undo env (let_go env reservation_id) (paid_events marked)
    saved ← or_undo env (let_go env reservation_id) (persist_paid marked events true)
    saved_at_last reservation_id marked saved

  unfoldable pub reconcile : Text → ℤ → Text → Order → Task Order
  reconcile payment_id amount_cents reservation_id fresh =
      if already_paid fresh payment_id
      then drop_reinstated reservation_id >> pure fresh
      else if is_canceled fresh.status
      then pay_again payment_id amount_cents fresh
      else drop_reinstated reservation_id >> fail concurrent_status_change

  abbrev pub after_persist : Text → ℤ → Text → Order → Bool → Task Order
  after_persist payment_id amount_cents reservation_id order true =
      try_drain_outbox env >> pure order
  after_persist payment_id amount_cents reservation_id order false =
      or_undo env (drop_reinstated reservation_id) (stored_order env order.id)
      >>= reconcile payment_id amount_cents reservation_id

  unfoldable pub persist : Text → ℤ → Text → Order → Task Order
  persist payment_id amount_cents reservation_id order = do
    events ← or_undo env (drop_reinstated reservation_id) (paid_events order)
    saved ←
        or_undo env (drop_reinstated reservation_id)
          (persist_paid order events (not (is_empty reservation_id)))
    after_persist payment_id amount_cents reservation_id order saved

  -- A canceled order takes stock again, is marked and is saved; `undo` is what a failing MarkPaid does.
  unfoldable pub pay_reinstated : (Text → Task (Unit {0})) → Text → ℤ → Order → Task Order
  pay_reinstated undo payment_id amount_cents canceled = do
    (order, reservation_id) ← reinstate_canceled_order env canceled
    marked ← or_undo env (undo reservation_id) (marked_paid order payment_id amount_cents)
    persist payment_id amount_cents reservation_id marked

  -- The order read again, which the expiry worker may have canceled.
  unfoldable pub recheck : Text → ℤ → Order → Order → Task Order
  recheck payment_id amount_cents order fresh =
      if already_paid fresh payment_id
      then pure fresh
      else if is_canceled fresh.status
      then pay_reinstated (let_go env) payment_id amount_cents fresh
      else persist payment_id amount_cents [] order

  unfoldable pub pay_pending : Text → ℤ → Order → Task Order
  pay_pending payment_id amount_cents order = do
    marked ← marked_paid order payment_id amount_cents
    fresh ← stored_order env marked.id
    recheck payment_id amount_cents marked fresh

  -- The order as it was read, by its status. MarkPaid refuses one that is neither canceled nor pending.
  unfoldable pub pay_order : Text → ℤ → Order → Task Order
  pay_order payment_id amount_cents order =
      if already_paid order payment_id
      then pure order
      else if is_canceled order.status
      then pay_reinstated drop_reinstated payment_id amount_cents order
      else pay_pending payment_id amount_cents order

  unfoldable pub mark_order_paid : Text → Text → ℤ → Task Order
  mark_order_paid order_id payment_id amount_cents = do
    order ← stored_order env (trim order_id)
    pay_order payment_id amount_cents order

  -- The payload that json.Unmarshal makes of the message is given.
  unfoldable pub handle_payment_succeeded : Text → Text → ℤ → Task (Unit {0})
  handle_payment_succeeded order_id payment_id amount_cents =
      if is_empty order_id || is_empty payment_id
      then fail (failed (codes "payment.succeeded missing order_id or payment_id"))
      else mark_order_paid order_id payment_id amount_cents >> pure tt
