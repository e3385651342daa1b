-- ===== src/Order/Service.antt =====
-- The steps that the methods of the order service share (order/pkg/service/service.go and
-- unavailable.go): prices from the catalog, events for the outbox, stock reserved and given back.
pub mod Fingerprints
pub mod Placing
pub mod Paying
pub mod Closing
pub mod Sessions
pub mod Requests
mod Tests
use schick.Prelude.{
  ℕ, ℤ, pos, leb_ℤ, Bool, true, false, not, ◌&&◌, List, [], ◌∷◌, ◌++◌, Option, none, some, Text,
  codes, ◌==◌, is_empty, trim, if◌then◌else◌, Result, ok, err, map,
}
use schick.Order.{
  Error, invalid_order, product_unavailable, variants_unavailable, OrderItem, UnavailableItem,
  Order,
}
use schick.Order.Lifecycle.{is_pending, is_canceled, reinstate_for_late_payment, mark_paid}
use schick.Order.Repository.{Repository, get, list_by_customer, list_all}
use schick.Order.Repository.Rows.{order_outbox}
use schick.Order.World.{
  StockItem, VariantInfo, ProductClient, EventItem, OrderEvent, World, Env, Task, pure, fail, lift,
  attempt, ◌>>=◌, ◌>>◌, is_variant_not_found, is_already_released, is_already_committed, read_clock,
  access, reserve, commit_reservation, release_reservation, or_undo, let_go,
}
use schick.Outbox
use schick.Outbox.{Event}

abbrev pub order_created_subject : Text
order_created_subject = codes "order.created"

abbrev pub order_updated_subject : Text
order_updated_subject = codes "order.status_updated"

abbrev pub order_paid_subject : Text
order_paid_subject = codes "order.paid"

abbrev pub reason_variant_not_found : Text
reason_variant_not_found = codes "variant_not_found"

unfoldable pub unavailable_from_order_item : OrderItem → UnavailableItem
unavailable_from_order_item item = record {
  sku_id = trim item.sku_id;
  sku = trim item.sku;
  reason = reason_variant_not_found;
}

-- Every error of the client but ErrVariantNotFound becomes ErrProductUnavailable.
abbrev pub of_client : Result Error VariantInfo → Result Error VariantInfo
of_client (ok info) = ok info
of_client (err e) = if is_variant_not_found e then err e else err product_unavailable

unfoldable pub resolve_variant : ProductClient → OrderItem → Result Error VariantInfo
resolve_variant product item =
    let sku_id = trim item.sku_id in
    let sku = trim item.sku in
    if not (is_empty sku_id)
    then of_client (product.get_variant_by_sku_id sku_id)
    else if not (is_empty sku)
    then of_client (product.get_variant sku)
    else err invalid_order

abbrev pub priced_item : OrderItem → VariantInfo → OrderItem
priced_item item info = record {
  sku_id = info.sku_id;
  sku = info.sku;
  quantity = item.quantity;
  unit_price_cents = info.unit_price_cents;
  product_name = info.product_name;
  image_url = info.image_url;
  available = none;
}

-- One round of the loop of priceItems, with the rounds behind it as a function of what is there.
abbrev pub price_item :
    Result Error VariantInfo
    → OrderItem
    → List OrderItem
    → List UnavailableItem
    → (List OrderItem → List UnavailableItem → Result Error (List OrderItem))
    → Result Error (List OrderItem)
price_item (ok info) item out unavailable rest =
    if leb_ℤ info.unit_price_cents (pos 0)
    then err invalid_order
    else rest (out ++ (priced_item item info ∷ [])) unavailable
price_item (err e) item out unavailable rest =
    if is_variant_not_found e
    then rest out (unavailable ++ (unavailable_from_order_item item ∷ []))
    else err e

abbrev pub priced : List OrderItem → List UnavailableItem → Result Error (List OrderItem)
priced out [] = ok out
priced out (u ∷ us) = err (variants_unavailable (u ∷ us))

unfoldable pub price_loop :
    ProductClient
    → List OrderItem
    → List OrderItem
    → List UnavailableItem
    → Result Error (List OrderItem)
price_loop product [] out unavailable = priced out unavailable
price_loop product (item ∷ items) out unavailable =
    price_item (resolve_variant product item) item out unavailable (price_loop product items)

abbrev pub price_with : ProductClient → List OrderItem → Result Error (List OrderItem)
price_with product [] = err invalid_order
price_with product (item ∷ items) = price_loop product (item ∷ items) [] []

unfoldable pub price_items : Option ProductClient → List OrderItem → Result Error (List OrderItem)
price_items none items = err product_unavailable
price_items (some product) items = price_with product items

unfoldable pub stock_items : List OrderItem → List StockItem
stock_items items =
    map (λ item. record { sku_id = item.sku_id; sku = item.sku; quantity = item.quantity }) items

abbrev pub event_items : List OrderItem → List EventItem
event_items items =
    map
      (λ item. record {
        sku_id = item.sku_id;
        sku = item.sku;
        quantity = item.quantity;
        unit_price_cents = item.unit_price_cents;
      })
      items

unfoldable pub order_event : Text → Order → ℕ → OrderEvent
order_event subject order occurred = record {
  event_type = subject;
  order_id = order.id;
  customer_id = order.customer_id;
  status = order.status;
  subtotal_cents = order.subtotal_cents;
  discount_cents = order.discount_cents;
  shipping_fee_krw = order.shipping_fee_krw;
  total_cents = order.total_cents;
  items = event_items order.items;
  created_at = order.created_at;
  occurred = occurred;
}

-- `order.PaymentID == paymentID && order.Status != domain.StatusPending`
unfoldable pub already_paid : Order → Text → Bool
already_paid order payment_id = order.payment_id == payment_id && not (is_pending order.status)

abbrev pub returned : Order × Option Error → Result Error Order
returned (order, none) = ok order
returned (order, some e) = err e

-- An error that stands for success goes.
abbrev pub tolerated : (Error → Bool) → Result Error (Unit {0}) → Task (Unit {0})
tolerated test (ok _) = pure tt
tolerated test (err e) = if test e then pure tt else fail e

module _ (env : Env) where
  unfoldable pub marshal_order_event : Text → Order → Task Text
  marshal_order_event subject order = do
    occurred ← read_clock env
    lift (env.marshal (order_event subject order occurred))

  unfoldable pub outbox_events : Order → List Text → Task (List Event)
  outbox_events order [] = pure []
  outbox_events order (subject ∷ subjects) = do
    payload ← marshal_order_event subject order
    rest ← outbox_events order subjects
    pure (record { aggregate_id = order.id; subject = subject; payload = payload } ∷ rest)

  -- s.repo.Get
  unfoldable pub stored_order : Text → Task Order
  stored_order id = access env (λ r. (r, get r id))

  abbrev pub drained : ℕ → Repository → Repository × Result Error (Unit {0})
  drained tick r = (
    (Outbox.drain order_outbox env.describe
        (elim env.publisher [ none ↦ none | some publish ↦ some (publish tick) ]) r).0,
    ok tt,
  )

  -- TryDrain logs a failure and goes on. A drain is one step here, which the rows that other requests
  -- write meanwhile do not change.
  unfoldable pub try_drain_outbox : Task (Unit {0})
  try_drain_outbox w = (attempt (access env (drained w.tick)) >> pure tt) w

  unfoldable pub reinstate_canceled_order : Order → Task (Order × Text)
  reinstate_canceled_order order = do
    reservation_id ← reserve env order.id (stock_items order.items)
    now ← read_clock env
    reinstated ←
        or_undo env (let_go env reservation_id)
          (lift (returned (reinstate_for_late_payment order reservation_id now)))
    pure (reinstated, reservation_id)

  unfoldable pub release_reservation_for_cancel : Text → Task (Unit {0})
  release_reservation_for_cancel id =
      attempt (release_reservation env id) >>= tolerated is_already_released

  unfoldable pub commit_reservation_for_ship : Text → Task (Unit {0})
  commit_reservation_for_ship id =
      attempt (commit_reservation env id) >>= tolerated is_already_committed

  -- The reads of the service.
  unfoldable pub get_order : Text → Task Order
  get_order id = stored_order (trim id)

  unfoldable pub list_customer_orders : Text → Task (List Order)
  list_customer_orders customer_id =
      access env (λ r. (r, ok (list_by_customer r (trim customer_id))))

  unfoldable pub list_all_orders : Task (List Order)
  list_all_orders = access env (λ r. (r, ok (list_all r)))
