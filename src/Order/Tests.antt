-- ===== src/Order/Tests.antt =====
-- An order from its making to its delivery, and a checkout session.
use schick.Prelude.{
  ℕ, ◌+◌, ◌-◌, ◌/◌, ◌≤◌, ◌≡◌, ◌≢◌, refl, pos, pos_part, ◌+ℤ◌, ◌-ℤ◌, ◌*ℤ◌, Bool, true, false, not,
  List, [], ◌∷◌, none, some, arith, codes, ◌==◌, trim, trim_right, trim_left, is_space, to_lower,
  to_upper, Any, All, Result, ok,
}
use schick.Prelude.Word
use schick.Prelude.Case.{upper_rune, lower_rune}
use schick.Order.{
  Error, session_expired, pending, in_transit, fulfilled, OrderItem, ShippingAddress, Order,
  default_payment_ttl,
}
use schick.Order.Shipment.{
  ShipmentTracking, is_valid_carrier, normalize_note, normalize_shipment_tracking, IsNormal,
  normalize_shipment_tracking-IsNormal,
}
use schick.Order.Shipping.{
  FulfillmentSnapshot, all_digits, is_kr_phone, is_postal_code, is_pccc, normalize_person_name,
  digits_of, normalize_kr_phone, normalize_postal_code, normalize_address_line,
  normalize_optional_line, normalize_pccc, normalize_shipping_address,
  validate_fulfillment_snapshot,
}
use schick.Order.Shipping.Normal.{validate_fulfillment_snapshot_idem}
use schick.Order.Lifecycle.{
  is_bad_item, copy_items, new_order, mark_paid, ship, cancel, reinstate_for_late_payment, fulfill,
}
use schick.Order.Lifecycle.Pricing.{goods, new_order_lem}
use schick.Order.Lifecycle.Invariant
use schick.Order.Lifecycle.Invariant.{
  mark_pays, ships, cancels, fulfills, has_payment, has_left, IsConsistent, Pays,
  new_order-IsConsistent, run-IsConsistent, step_error_unchanged, captured_needs_payment,
}
use schick.Order.Lifecycle.Graph.{◌⟶◌, step-⟶, run-has_left}
use schick.Order.Checkout.{
  Float64, CheckoutSession, is_open, completed, expired, new_checkout_session, ensure_open,
  complete, copy_lines, sum_lines, shipping_fee_for_total, set_items, apply_coupon,
  recalculate_totals, recalculate_totals_with_discount,
}
use schick.Order.Checkout.Calls
use schick.Order.Checkout.Totals.{IsPriced, new_checkout_session-IsPriced}
use schick.Order.Checkout.Calls.{Call, sets_items, applies_coupon, completes, run-IsPriced}
use schick.Order.Checkout.Closing.{Completes, step_late, step-Completes}

-- What the runs compute through.
order_code : Unit {0}
unfolding trim trim_right trim_left is_space to_lower to_upper ◌==◌ ◌+ℤ◌ ◌-ℤ◌ ◌*ℤ◌ Word.add Word.sub
    Word.mul Word.wrap is_valid_carrier normalize_note normalize_shipment_tracking all_digits
    is_kr_phone is_postal_code is_pccc normalize_person_name digits_of normalize_kr_phone
    normalize_postal_code normalize_address_line normalize_optional_line normalize_pccc
    normalize_shipping_address validate_fulfillment_snapshot is_bad_item copy_items new_order
    mark_paid ship cancel reinstate_for_late_payment fulfill Invariant.step Invariant.run
    new_checkout_session ensure_open complete copy_lines sum_lines shipping_fee_for_total set_items
    apply_coupon recalculate_totals recalculate_totals_with_discount Calls.step Calls.run upper_rune
    lower_rune
order_code = tt

abbrev cap : OrderItem
cap = record {
  sku_id = codes "id-A";
  sku = codes "A";
  quantity = pos 2;
  unit_price_cents = pos 500;
  product_name = codes "cap";
  image_url = codes "";
  available = none;
}

abbrev made : Result Error Order
made =
    new_order (codes "o1") (codes "c1") (codes "res_000001") (cap ∷ []) (codes "") (pos 100)
      (pos 30) 7

abbrev no_address : ShippingAddress
no_address = record {
  postal_code = codes "";
  address_line1 = codes "";
  address_line2 = codes "";
  city = codes "";
  province = codes "";
  pccc = codes "";
}

abbrev placed : Order
placed = record {
  id = codes "o1";
  customer_id = codes "c1";
  reservation_id = codes "res_000001";
  items = cap ∷ [];
  status = pending;
  coupon_code = codes "";
  subtotal_cents = pos 1000;
  discount_cents = pos 100;
  shipping_fee_krw = pos 30;
  total_cents = pos 930;
  recipient_name = codes "";
  recipient_phone = codes "";
  shipping_address = no_address;
  source_address_id = codes "";
  payment_id = codes "";
  paid_at = none;
  payment_due_at = 7 + default_payment_ttl;
  shipped_by = codes "";
  shipped_at = none;
  carrier = codes "";
  tracking_number = codes "";
  carrier_note = codes "";
  created_at = 7;
  updated_at = 7;
}

makes : made ≡ ok placed
unfolding order_code
makes = refl

new_order_lem_example :
    (placed.subtotal_cents ≡ pos (goods (cap ∷ [])))
    × (pos_part (pos 100) ≤ goods (cap ∷ []))
    × (placed.total_cents ≡ pos (goods (cap ∷ []) - pos_part (pos 100) + pos_part (pos 30)))
    × (pos_part (pos 30) ≤ pos_part placed.total_cents)
    × All (λ i. is_bad_item i ≡ false) placed.items
    × (placed.items ≢ [])
new_order_lem_example =
    new_order_lem (codes "o1") (codes "c1") (codes "res_000001") (cap ∷ []) (codes "") (pos 100)
      (pos 30) 7 placed (omega arith) makes

placed-IsConsistent : IsConsistent placed
placed-IsConsistent =
    new_order-IsConsistent (codes "o1") (codes "c1") (codes "res_000001") (cap ∷ []) (codes "")
      (pos 100) (pos 30) 7 placed makes

abbrev parcel : ShipmentTracking
parcel = record { carrier = codes "cj"; tracking_number = codes "T9"; carrier_note = codes "" }

abbrev life : List (ℕ × Invariant.Call)
life =
    (8, mark_pays (codes "pay_1") (pos 900))
    ∷ (9, mark_pays (codes "pay_1") (pos 930))
    ∷ (10, ships (codes "m") parcel)
    ∷ (11, cancels)
    ∷ (12, fulfills)
    ∷ []

ends_fulfilled : (Invariant.run placed life).status ≡ fulfilled
unfolding order_code
ends_fulfilled = refl

run-IsConsistent_example : IsConsistent (Invariant.run placed life)
run-IsConsistent_example = run-IsConsistent placed life placed-IsConsistent

captured_needs_payment_example : Any (Pays (pos 930)) life
unfolding order_code
captured_needs_payment_example = captured_needs_payment placed life refl refl

step-⟶_example : pending ⟶ (Invariant.step placed (9, mark_pays (codes "pay_1") (pos 930))).0.status
unfolding order_code
step-⟶_example = step-⟶ placed (9, mark_pays (codes "pay_1") (pos 930)) refl

abbrev sent : Order
sent = record placed { status = in_transit }

run-has_left_example : has_left (Invariant.run sent life).status ≡ true
run-has_left_example = run-has_left sent life refl

abbrev typed : ShipmentTracking
typed = record {
  carrier = codes "other";
  tracking_number = codes "12";
  carrier_note = codes "bike";
}

normalizes : normalize_shipment_tracking (codes " Other ") (codes "12 ") (codes "bike") ≡ ok typed
unfolding order_code
normalizes = refl

normalize_shipment_tracking-IsNormal_example : IsNormal typed
normalize_shipment_tracking-IsNormal_example =
    normalize_shipment_tracking-IsNormal (codes " Other ") (codes "12 ") (codes "bike") typed
      normalizes

abbrev home : ShippingAddress
home = record {
  postal_code = codes "04524";
  address_line1 = codes "1 Sejong";
  address_line2 = codes "";
  city = codes "Seoul";
  province = codes "Seoul";
  pccc = codes "";
}

abbrev to_home : FulfillmentSnapshot
to_home = record {
  recipient_name = codes "Kim";
  recipient_phone = codes "01012345678";
  shipping_address = home;
  source_address_id = codes "a1";
}

validates :
    validate_fulfillment_snapshot (codes " Kim") (codes "010-1234-5678") home (codes "a1 ")
    ≡ ok to_home
unfolding order_code
validates = refl

validate_fulfillment_snapshot_idem_example :
    validate_fulfillment_snapshot (codes "Kim") (codes "01012345678") home (codes "a1") ≡ ok to_home
validate_fulfillment_snapshot_idem_example =
    validate_fulfillment_snapshot_idem (codes " Kim") (codes "010-1234-5678") home (codes "a1 ")
      to_home validates

-- Fractions none and one half.
abbrev halves : Float64
halves = record {
  Value = Bool;
  nought = false;
  gt_zero = λ x. x;
  le_zero = λ x. not x;
  ge_one = λ x. false;
  share = λ n x. pos (pos_part n / 2);
  not_gt_zero = refl;
  share_bounds = λ n x b g l. (omega arith, omega arith);
}

abbrev opened : CheckoutSession
opened = record {
  id = codes "s1";
  customer_id = codes "c1";
  items = [];
  unavailable_items = [];
  status = is_open;
  coupon_code = codes "";
  subtotal_cents = pos 0;
  discount_cents = pos 0;
  shipping_fee_krw = pos 30;
  total_cents = pos 0;
  order_id = codes "";
  expires_at = 107;
  created_at = 7;
  updated_at = 7;
}

opens : new_checkout_session (codes "s1") (codes "c1") 7 (pos 100) (pos 30) ≡ ok opened
unfolding order_code
opens = refl

abbrev shopping : List (ℕ × Call halves)
shopping =
    (8, sets_items (cap ∷ []))
    ∷ (9, applies_coupon (codes "half") true)
    ∷ (10, completes (codes "o1"))
    ∷ []

totals : (Calls.run halves opened shopping).total_cents ≡ pos 530
unfolding order_code
totals = refl

run-IsPriced_example : IsPriced (Calls.run halves opened shopping)
run-IsPriced_example =
    run-IsPriced halves opened shopping
      (new_checkout_session-IsPriced (codes "s1") (codes "c1") 7 (pos 100) (pos 30) opened opens)

abbrev filled : CheckoutSession
filled = record opened { items = cap ∷ [] }

step-Completes_example :
    Completes halves filled
      (10, completes (codes "o1"))
      (Calls.step halves filled (10, completes (codes "o1"))).0
unfolding order_code
step-Completes_example =
    step-Completes halves filled (10, completes (codes "o1")) (λ h. ground (arith, h)) refl

abbrev done : CheckoutSession
done = record filled { status = completed; order_id = codes "o1" }

step_late_example :
    Calls.step halves filled (200, completes (codes "o1"))
    ≡ (record filled { status = expired }, some session_expired)
step_late_example =
    step_late halves filled (200, completes (codes "o1")) (λ h. ground (arith, h)) (omega arith)
