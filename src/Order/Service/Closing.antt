-- ===== src/Order/Service/Closing.antt =====
-- ShipOrder, CancelOrder and FulfillOrder of order/pkg/service/service.go, and the cancels of
-- payment_consumer.go: of orders that were not paid in time and of orders whose payment was given back.
-- What the service only writes to its log is left out.
pub mod Left
use schick.Prelude.{
  ℕ, ℤ, pos, ltb_ℤ, Bool, true, false, not, ◌&&◌, ◌||◌, List, [], ◌∷◌, Option, none, some, Text,
  ◌==◌, is_empty, trim, if◌then◌else◌, Result, ok, err,
}
use schick.Order.{
  Error, invalid_order, invalid_transition, concurrent_status_change, OrderStatus, pending, paid,
  in_transit, fulfilled, canceled, Order,
}
use schick.Order.Shipment.{ShipmentTracking, normalize_shipment_tracking}
use schick.Order.Lifecycle.{
  is_pending, is_paid, is_in_transit, is_payment_expired, ship, cancel, fulfill,
}
use schick.Order.Repository.{
  Repository, save_with_outbox, list_pending_payment_expired, cancel_if_pending_expired,
  cancel_if_paid_for_refund, ship_if_paid,
}
use schick.Order.World.{
  Env, World, Task, pure, fail, lift, attempt, ◌>>=◌, ◌>>◌, is_not_found, read_clock, access,
}
use schick.Order.Service.{
  order_updated_subject, returned, outbox_events, stored_order, try_drain_outbox,
  release_reservation_for_cancel, commit_reservation_for_ship,
}
use schick.Order.Service.Paying.{as_saved}
use schick.Outbox.{Event}

abbrev pub refuse : Bool → Error → Task (Unit {0})
refuse test e = if test then fail e else pure tt

-- The result of a conditional cancel.
abbrev pub as_canceled_order :
    Repository × (Option Order × Bool) → Repository × Result Error (Option Order × Bool)
as_canceled_order (r, answer) = (r, ok answer)

module _ (env : Env) where
  unfoldable pub updated_events : Order → Task (List Event)
  updated_events order = outbox_events env order (order_updated_subject ∷ [])

  -- After ShipIfPaid has found the order in another status.
  abbrev pub not_shipped : Result Error Order → Task Order
  not_shipped (err _) = fail concurrent_status_change
  not_shipped (ok fresh) =
      if is_in_transit fresh.status then pure fresh else fail invalid_transition

  abbrev pub after_ship : Order → Bool → Task Order
  after_ship order true = try_drain_outbox env >> pure order
  after_ship order false = attempt (stored_order env order.id) >>= not_shipped

  unfoldable pub ship_order : Text → Text → ShipmentTracking → Task Order
  ship_order order_id shipped_by tracking = do
    order ← stored_order env (trim order_id)
    refuse (is_empty (trim shipped_by)) invalid_order
    normalized ← lift (
        normalize_shipment_tracking tracking.carrier tracking.tracking_number tracking.carrier_note)
    refuse (not (is_paid order.status)) invalid_transition
    commit_reservation_for_ship env order.reservation_id
    now ← read_clock env
    shipped ← lift (returned (ship order (trim shipped_by) normalized now))
    events ← updated_events shipped
    saved ← access env (λ r. as_saved (ship_if_paid r shipped events))
    after_ship shipped saved

  unfoldable pub save_status_change : Order → Task Order
  save_status_change order = do
    events ← updated_events order
    put_at ← read_clock env
    access env (λ r. save_with_outbox r order none events put_at)
    try_drain_outbox env
    pure order

  unfoldable pub cancel_order : Text → Task Order
  cancel_order id = do
    order ← stored_order env (trim id)
    refuse (not (is_pending order.status) && not (is_paid order.status)) invalid_transition
    now ← read_clock env
    called_off ← lift (returned (cancel order now))
    saved ← save_status_change called_off
    attempt (release_reservation_for_cancel env saved.reservation_id)
    pure saved

  unfoldable pub fulfill_order : Text → Task Order
  fulfill_order id = do
    order ← stored_order env (trim id)
    now ← read_clock env
    delivered ← lift (returned (fulfill order now))
    save_status_change delivered

  -- What follows a conditional cancel that went through; of a nil order nothing is read.
  abbrev pub after_cancel : Option Order × Bool → Task (Unit {0})
  after_cancel (some order, true) =
      try_drain_outbox env
      >> (attempt (release_reservation_for_cancel env order.reservation_id) >> pure tt)
  after_cancel _ = pure tt

  unfoldable pub cancel_expired : Text → ℕ → Order → Task (Unit {0})
  cancel_expired order_id now order = do
    called_off ← lift (returned (cancel order now))
    events ← updated_events called_off
    answer ← access env (λ r. as_canceled_order (cancel_if_pending_expired r order_id now events))
    after_cancel answer

  unfoldable pub cancel_expired_pending_order : Text → Task (Unit {0})
  cancel_expired_pending_order order_id = do
    now ← read_clock env
    order ← stored_order env order_id
    if not (is_pending order.status) || not (is_payment_expired order now)
        then pure tt
        else cancel_expired order_id now order

  -- A failure of one order does not keep the worker from the others.
  unfoldable pub expire_each : List Order → Task (Unit {0})
  expire_each [] = pure tt
  expire_each (order ∷ orders) =
      attempt (cancel_expired_pending_order order.id) >> expire_each orders

  unfoldable pub expire_pending_orders : Task (Unit {0})
  expire_pending_orders = do
    now ← read_clock env
    orders ← access env (λ r. (r, ok (list_pending_payment_expired r now)))
    expire_each orders

  unfoldable pub refund_paid : Text → Order → Task (Unit {0})
  refund_paid payment_id order = do
    now ← read_clock env
    called_off ← lift (returned (cancel order now))
    events ← updated_events called_off
    answer ←
        access env
          (λ r. as_canceled_order (cancel_if_paid_for_refund r order.id payment_id now events))
    after_cancel answer

  abbrev pub refund_found : Text → Result Error Order → Task (Unit {0})
  refund_found payment_id (err e) = if is_not_found e then pure tt else fail e
  refund_found payment_id (ok order) =
      if is_empty payment_id || not (order.payment_id == payment_id)
      then pure tt
      else if is_paid order.status
      then refund_paid payment_id order
      else pure tt

  unfoldable pub cancel_order_for_refund : Text → Text → ℤ → Task (Unit {0})
  cancel_order_for_refund order_id payment_id remaining_cents =
      if ltb_ℤ (pos 0) remaining_cents
      then pure tt
      else attempt (stored_order env (trim order_id)) >>= refund_found (trim payment_id)

  -- The payload that json.Unmarshal makes of the message is given; `none` where it has no
  -- remaining_cents.
  abbrev pub refund_of : Text → Text → Option ℤ → Task (Unit {0})
  refund_of order_id payment_id none = pure tt
  refund_of order_id payment_id (some remaining) =
      cancel_order_for_refund order_id payment_id remaining

  unfoldable pub handle_payment_canceled : Text → Text → Option ℤ → Task (Unit {0})
  handle_payment_canceled order_id payment_id remaining_cents =
      if is_empty order_id || is_empty payment_id
      then pure tt
      else refund_of order_id payment_id remaining_cents
