-- ===== src/Order/Lifecycle.antt =====
-- order/pkg/domain/order.go: an order is priced once, and then moves through its statuses. A method
-- on `*Order` returns the order as it leaves it, and the error if there is one.
pub mod Pricing
pub mod Invariant
pub mod Graph
use schick.Prelude.{
  ℕ, ◌+◌, ℤ, pos, ltb_ℤ, leb_ℤ, eqb_ℤ, Bool, true, false, not, ◌&&◌, ◌||◌, List, [], ◌∷◌, Option,
  none, some, Text, codes, ◌==◌, is_empty, trim, to_upper, ltb, if◌then◌else◌, Result, ok, err,
  ◌>>=◌, ◌>>◌, refuse_if,
}
use schick.Prelude.Word
use schick.Order.{
  Error, invalid_order, invalid_transition, payment_amount_mismatch, invalid_shipment, OrderStatus,
  pending, paid, in_transit, fulfilled, canceled, OrderItem, ShippingAddress, Order,
  default_payment_ttl,
}
use schick.Order.Shipment.{ShipmentTracking, is_valid_carrier, carrier_other}

abbrev pub normalize_item : OrderItem → OrderItem
normalize_item item = record item { sku_id = trim item.sku_id; sku = to_upper (trim item.sku) }

-- The test on a line that NewOrder and the checkout session share.
unfoldable pub is_bad_item : OrderItem → Bool
is_bad_item item =
    (is_empty item.sku && is_empty item.sku_id)
    || leb_ℤ item.quantity (pos 0)
    || ltb_ℤ item.unit_price_cents (pos 0)

abbrev pub line_total : OrderItem → ℤ
line_total item = Word.mul item.quantity item.unit_price_cents

-- The loop of NewOrder over the items, with the subtotal that it has reached.
unfoldable pub copy_items : List OrderItem → ℤ → Result Error (List OrderItem × ℤ)
copy_items [] subtotal = ok ([], subtotal)
copy_items (item ∷ items) subtotal =
    let i = normalize_item item in
    let rest =
      copy_items items (Word.add subtotal (line_total i)) >>= λ (is, total). ok (i ∷ is, total) in
    if is_bad_item i then err invalid_order else rest

abbrev is_nil : List OrderItem → Bool
is_nil [] = true
is_nil (_ ∷ _) = false

abbrev no_address : ShippingAddress
no_address = record {
  postal_code = [];
  address_line1 = [];
  address_line2 = [];
  city = [];
  province = [];
  pccc = [];
}

-- NewOrder, in whole won: subtotal - discount + shipping.
unfoldable pub new_order :
    Text → Text → Text → List OrderItem → Text → ℤ → ℤ → ℕ → Result Error Order
new_order id customer_id reservation_id items coupon_code discount_cents shipping_fee_krw now = do
  let i = trim id
  let c = trim customer_id
  let r = trim reservation_id
  refuse_if (is_empty i || is_empty c || is_empty r) invalid_order
  (copied, subtotal) ← copy_items items (pos 0)
  refuse_if (is_nil copied) invalid_order
  refuse_if (ltb_ℤ discount_cents (pos 0) || ltb_ℤ subtotal discount_cents) invalid_order
  refuse_if (ltb_ℤ shipping_fee_krw (pos 0)) invalid_order
  ok (record {
    id = i;
    customer_id = c;
    reservation_id = r;
    items = copied;
    status = pending;
    coupon_code = to_upper (trim coupon_code);
    subtotal_cents = subtotal;
    discount_cents = discount_cents;
    shipping_fee_krw = shipping_fee_krw;
    total_cents = Word.add (Word.sub subtotal discount_cents) shipping_fee_krw;
    recipient_name = [];
    recipient_phone = [];
    shipping_address = no_address;
    source_address_id = [];
    payment_id = [];
    paid_at = none;
    payment_due_at = now + default_payment_ttl;
    shipped_by = [];
    shipped_at = none;
    carrier = [];
    tracking_number = [];
    carrier_note = [];
    created_at = now;
    updated_at = now;
  })

abbrev pub is_pending : OrderStatus → Bool
is_pending pending = true
is_pending _ = false

abbrev pub is_paid : OrderStatus → Bool
is_paid paid = true
is_paid _ = false

abbrev pub is_in_transit : OrderStatus → Bool
is_in_transit in_transit = true
is_in_transit _ = false

abbrev pub is_canceled : OrderStatus → Bool
is_canceled canceled = true
is_canceled _ = false

unfoldable pub mark_paid : Order → Text → ℤ → ℕ → Order × Option Error
mark_paid o payment_id amount_cents now =
    let p = trim payment_id in
    if not (is_pending o.status)
    then (o, some invalid_transition)
    else if is_empty p
    then (o, some invalid_order)
    else if not (eqb_ℤ amount_cents o.total_cents)
    then (o, some payment_amount_mismatch)
    else (record o { status = paid; payment_id = p; paid_at = some now; updated_at = now }, none)

unfoldable pub ship : Order → Text → ShipmentTracking → ℕ → Order × Option Error
ship o shipped_by tracking now =
    let by = trim shipped_by in
    let other = tracking.carrier == carrier_other in
    if not (is_paid o.status)
    then (o, some invalid_transition)
    else if is_empty by
    then (o, some invalid_order)
    else if is_empty tracking.carrier || is_empty tracking.tracking_number
    then (o, some invalid_shipment)
    else if not (is_valid_carrier tracking.carrier)
    then (o, some invalid_shipment)
    else if other && is_empty (trim tracking.carrier_note)
    then (o, some invalid_shipment)
    else (
      record o {
        status = in_transit;
        shipped_by = by;
        shipped_at = some now;
        carrier = tracking.carrier;
        tracking_number = tracking.tracking_number;
        carrier_note = if other then trim tracking.carrier_note else [];
        updated_at = now;
      },
      none,
    )

unfoldable pub cancel : Order → ℕ → Order × Option Error
cancel o now =
    if not (is_pending o.status) && not (is_paid o.status)
    then (o, some invalid_transition)
    else (record o { status = canceled; updated_at = now }, none)

unfoldable pub reinstate_for_late_payment : Order → Text → ℕ → Order × Option Error
reinstate_for_late_payment o reservation_id now =
    let r = trim reservation_id in
    if not (is_canceled o.status)
    then (o, some invalid_transition)
    else if is_empty r
    then (o, some invalid_order)
    else (
      record o {
        status = pending;
        reservation_id = r;
        payment_due_at = now + default_payment_ttl;
        updated_at = now;
      },
      none,
    )

unfoldable pub fulfill : Order → ℕ → Order × Option Error
fulfill o now =
    if not (is_in_transit o.status)
    then (o, some invalid_transition)
    else (record o { status = fulfilled; updated_at = now }, none)

unfoldable pub is_payment_expired : Order → ℕ → Bool
is_payment_expired o now = is_pending o.status && ltb o.payment_due_at now
