-- ===== src/Order/Service/Placing.antt =====
-- CreateOrder of order/pkg/service/service.go. `cloneOrder` copies an order, which a value needs not.
pub mod Accounts
pub mod Repeats
use schick.Prelude.{
  ℕ, ℤ, pos, leb_ℤ, Bool, true, false, not, ◌&&◌, List, [], ◌∷◌, Option, none, some, Text, ◌==◌,
  is_empty, trim, if◌then◌else◌, Result, ok, err,
}
use schick.Prelude
use schick.Order.{Error, not_found, idempotency_conflict, OrderItem, ShippingAddress, Order}
use schick.Order.Lifecycle.{new_order}
use schick.Order.Shipping.{validate_fulfillment_snapshot, apply_fulfillment, FulfillmentSnapshot}
use schick.Order.Repository.{
  Repository, IdempotencyRecord, next_order_id, save_with_outbox, find_by_idempotency_key, get,
}
use schick.Order.World.{
  Env, World, Task, pure, fail, lift, attempt, ◌>>=◌, ◌>>◌, is_not_found, read_clock, access,
  reserve, let_go, or_undo,
}
use schick.Order.Service.{
  order_created_subject, price_items, stock_items, outbox_events, stored_order, try_drain_outbox,
}
use schick.Order.Service.Fingerprints.{CreateOrderInput, hash_create_order_input}
use schick.Outbox.{Event}

abbrev pub is_no_address : ShippingAddress → Bool
is_no_address a =
    is_empty a.postal_code
    && is_empty a.address_line1
    && is_empty a.address_line2
    && is_empty a.city
    && is_empty a.province
    && is_empty a.pccc

abbrev pub fulfilled_by : Order → Result Error FulfillmentSnapshot → Result Error Order
fulfilled_by order (ok snapshot) = ok (apply_fulfillment order snapshot)
fulfilled_by order (err e) = err e

abbrev pub has_no_recipient : CreateOrderInput → Bool
has_no_recipient input =
    is_empty (trim input.recipient_name)
    && is_empty (trim input.recipient_phone)
    && is_no_address input.shipping_address

abbrev pub snapshot_of : CreateOrderInput → Result Error FulfillmentSnapshot
snapshot_of input =
    validate_fulfillment_snapshot input.recipient_name input.recipient_phone input.shipping_address
      input.source_address_id

unfoldable pub apply_fulfillment_to_order : Order → CreateOrderInput → Result Error Order
apply_fulfillment_to_order order input =
    if has_no_recipient input then ok order else fulfilled_by order (snapshot_of input)

-- `if input.ShippingFeeKRW != nil && *input.ShippingFeeKRW >= 0`
abbrev pub fee_of : ℤ → Option ℤ → ℤ
fee_of default none = default
fee_of default (some fee) = if leb_ℤ (pos 0) fee then fee else default

-- The idempotency record of an order, nil where the request has no key.
abbrev pub idem_record : Text → CreateOrderInput → Text → Order → Option IdempotencyRecord
idem_record key input hash order =
    if not (is_empty key)
    then some (record {
      key = key;
      customer_id = input.customer_id;
      order_id = order.id;
      request_hash = hash;
    })
    else none

abbrev same_request : Text → IdempotencyRecord → Task IdempotencyRecord
same_request hash rec =
    if not (rec.request_hash == hash) then fail idempotency_conflict else pure rec

module _ (env : Env) where
  unfoldable pub load_idempotent_order : Text → Text → Text → Task Order
  load_idempotent_order customer_id key hash = do
    found ← access env (λ r. (r, find_by_idempotency_key r customer_id key))
    rec ← same_request hash found
    stored_order env rec.order_id

  -- What the request's key leads to: `none` where there is nothing yet.
  abbrev pub of_replay : Result Error Order → Task (Option Order)
  of_replay (ok existing) = pure (some existing)
  of_replay (err e) = if is_not_found e then pure none else fail e

  unfoldable pub replayed : CreateOrderInput → Text → Text → Task (Option Order)
  replayed input key hash =
      if not (is_empty key)
      then attempt (load_idempotent_order input.customer_id key hash) >>= of_replay
      else pure none

  -- The order and its events, which any error leaves without the reservation.
  unfoldable pub build_order :
      CreateOrderInput → Text → Text → List OrderItem → Task (Order × List Event)
  build_order input order_id reservation_id priced = do
    now ← read_clock env
    made ← lift (
        new_order order_id input.customer_id reservation_id priced input.coupon_code
          input.discount_cents (fee_of env.shipping_fee_krw input.shipping_fee_krw) now)
    order ← lift (apply_fulfillment_to_order made input)
    events ← outbox_events env order (order_created_subject ∷ [])
    pure (order, events)

  -- After a save that failed, and the release of the reservation.
  abbrev pub of_second_replay : Error → Result Error Order → Task Order
  of_second_replay e (ok existing) = pure existing
  of_second_replay e (err idempotency_conflict) = fail idempotency_conflict
  of_second_replay e (err _) = fail e

  unfoldable pub save_failed : CreateOrderInput → Text → Text → Text → Error → Task Order
  save_failed input key hash reservation_id e =
      let_go env reservation_id
      >> (if not (is_empty key)
          then attempt (load_idempotent_order input.customer_id key hash) >>= of_second_replay e
          else fail e)

  abbrev pub after_save :
      CreateOrderInput → Text → Text → Text → Order → Result Error (Unit {0}) → Task Order
  after_save input key hash reservation_id order (err e) =
      save_failed input key hash reservation_id e
  after_save input key hash reservation_id order (ok _) = try_drain_outbox env >> pure order

  unfoldable pub save_new_order :
      CreateOrderInput → Text → Text → Text → Order × List Event → Task Order
  save_new_order input key hash reservation_id (order, events) = do
    put_at ← read_clock env
    saved ← attempt (
        access env (λ r. save_with_outbox r order (idem_record key input hash order) events put_at))
    after_save input key hash reservation_id order saved

  unfoldable pub place_order : CreateOrderInput → Text → Text → Task Order
  place_order input key hash = do
    priced ← lift (price_items env.product input.items)
    order_id ← access env (λ r. let (s, id) = next_order_id r in (s, ok id))
    reservation_id ← reserve env order_id (stock_items priced)
    built ←
        or_undo env (let_go env reservation_id) (build_order input order_id reservation_id priced)
    save_new_order input key hash reservation_id built

  abbrev pub unless_replayed : Task Order → Option Order → Task Order
  unless_replayed m (some existing) = pure existing
  unless_replayed m none = m

  unfoldable pub create_order : CreateOrderInput → Task Order
  create_order input =
      let key = trim input.idempotency_key in
      let hash = hash_create_order_input env input in
      replayed input key hash >>= unless_replayed (place_order input key hash)
