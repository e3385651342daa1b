-- ===== src/Order/Lifecycle/Invariant.antt =====
-- What holds of an order between two calls of its methods, whatever the calls.
use schick.Prelude.{
  ℕ, ◌≡◌, ◌≢◌, inl, inr, ℤ, Bool, true, false, List, [], ◌∷◌, Option, none, some, arith, Text, trim,
  eq_iff, eqb_ℤ_iff, ok, Any, Bool-cases,
}
use schick.Order.{Error, OrderStatus, paid, in_transit, fulfilled, OrderItem, Order}
use schick.Order.Shipment.{ShipmentTracking, is_valid_carrier, carrier_other}
use schick.Order.Lifecycle.{new_order, mark_paid, ship, cancel, reinstate_for_late_payment, fulfill}

-- A call of a method that changes the order.
pub data Call : Type 0 where
  mark_pays : Text → ℤ → Call
  ships : Text → ShipmentTracking → Call
  cancels : Call
  reinstates : Text → Call
  fulfills : Call

unfoldable pub step : Order → ℕ × Call → Order × Option Error
step o (now, mark_pays payment_id amount) = mark_paid o payment_id amount now
step o (now, ships by tracking) = ship o by tracking now
step o (now, cancels) = cancel o now
step o (now, reinstates reservation_id) = reinstate_for_late_payment o reservation_id now
step o (now, fulfills) = fulfill o now

unfoldable pub run : Order → List (ℕ × Call) → Order
run o [] = o
run o (c ∷ cs) = run (step o c).0 cs

abbrev pub has_payment : OrderStatus → Bool
has_payment paid = true
has_payment in_transit = true
has_payment fulfilled = true
has_payment _ = false

abbrev pub has_left : OrderStatus → Bool
has_left in_transit = true
has_left fulfilled = true
has_left _ = false

pub record IsShipped (o : Order) : Type 0 where
  pub sender : o.shipped_by ≢ []
  pub sent : o.shipped_at ≢ none
  pub carrier : is_valid_carrier o.carrier ≡ true
  pub tracked : o.tracking_number ≢ []
  pub noted : o.carrier ≡ carrier_other → o.carrier_note ≢ []
  pub unnoted : o.carrier ≢ carrier_other → o.carrier_note ≡ []

pub record IsConsistent (o : Order) : Type 0 where
  pub reserved : o.reservation_id ≢ []
  pub named : o.payment_id ≢ [] → o.paid_at ≢ none
  pub captured : has_payment o.status ≡ true → o.payment_id ≢ []
  pub shipped : has_left o.status ≡ true → IsShipped o

pub new_order-IsConsistent :
    (id customer reservation : Text) (items : List OrderItem) (coupon : Text) (discount fee : ℤ)
    (now : ℕ) (o : Order)
    → new_order id customer reservation items coupon discount fee now ≡ ok o
    → IsConsistent o
unfolding new_order
new_order-IsConsistent id customer reservation items coupon discount fee now o h = ground arith

ship-IsConsistent :
    (o : Order) (by : Text) (tracking : ShipmentTracking) (now : ℕ)
    → IsConsistent o
    → IsConsistent (ship o by tracking now).0
unfolding ship
ship-IsConsistent o by tracking now h = ground (arith, eq_iff tracking.carrier carrier_other)

-- Whatever is called, and when, an order stays consistent.
pub step-IsConsistent : (o : Order) (c : ℕ × Call) → IsConsistent o → IsConsistent (step o c).0
unfolding step mark_paid cancel reinstate_for_late_payment fulfill
step-IsConsistent o (now, mark_pays p amount) h = ground arith
step-IsConsistent o (now, ships by tracking) h = ship-IsConsistent o by tracking now h
step-IsConsistent o (now, cancels) h = ground arith
step-IsConsistent o (now, reinstates r) h = ground arith
step-IsConsistent o (now, fulfills) h = ground arith

-- An order that NewOrder makes stays consistent through every sequence of calls.
pub run-IsConsistent : (o : Order) (cs : List (ℕ × Call)) → IsConsistent o → IsConsistent (run o cs)
unfolding run
run-IsConsistent o [] h = h
run-IsConsistent o (c ∷ cs) h = run-IsConsistent (step o c).0 cs (step-IsConsistent o c h)

-- A call that returns an error leaves the order as it was.
pub step_error_unchanged :
    (o : Order) (c : ℕ × Call) {e : Error} → (step o c).1 ≡ some e → (step o c).0 ≡ o
unfolding step mark_paid ship cancel reinstate_for_late_payment fulfill
step_error_unchanged o (now, mark_pays p amount) h = ground arith
step_error_unchanged o (now, ships by tracking) h = ground arith
step_error_unchanged o (now, cancels) h = ground arith
step_error_unchanged o (now, reinstates r) h = ground arith
step_error_unchanged o (now, fulfills) h = ground arith

-- What an order costs and what was ordered.
pub record IsSamePrice (o p : Order) : Type 0 where
  pub id : p.id ≡ o.id
  pub customer : p.customer_id ≡ o.customer_id
  pub items : p.items ≡ o.items
  pub subtotal : p.subtotal_cents ≡ o.subtotal_cents
  pub discount : p.discount_cents ≡ o.discount_cents
  pub fee : p.shipping_fee_krw ≡ o.shipping_fee_krw
  pub total : p.total_cents ≡ o.total_cents

step-IsSamePrice : (o : Order) (c : ℕ × Call) → IsSamePrice o (step o c).0
unfolding step mark_paid ship cancel reinstate_for_late_payment fulfill
step-IsSamePrice o (now, mark_pays p amount) = ground arith
step-IsSamePrice o (now, ships by tracking) = ground arith
step-IsSamePrice o (now, cancels) = ground arith
step-IsSamePrice o (now, reinstates r) = ground arith
step-IsSamePrice o (now, fulfills) = ground arith

run-IsSamePrice : (o : Order) (cs : List (ℕ × Call)) → IsSamePrice o (run o cs)
unfolding run
run-IsSamePrice o [] = ground arith
run-IsSamePrice o (c ∷ cs) = ground (arith, step-IsSamePrice o c, run-IsSamePrice (step o c).0 cs)

-- A call that pays the order's total.
abbrev pub Pays : ℤ → ℕ × Call → Type 0
Pays total (now, mark_pays p amount) = (amount ≡ total) × (trim p ≢ [])
Pays total (now, _) = ⊥

step-captures :
    (o : Order) (c : ℕ × Call)
    → has_payment o.status ≡ false
    → has_payment (step o c).0.status ≡ true
    → Pays o.total_cents c
unfolding step mark_paid ship cancel reinstate_for_late_payment fulfill
step-captures o (now, mark_pays p amount) h k = ground (arith, eqb_ℤ_iff amount o.total_cents)
step-captures o (now, ships by tracking) h k = ground arith
step-captures o (now, cancels) h k = ground arith
step-captures o (now, reinstates r) h k = ground arith
step-captures o (now, fulfills) h k = ground arith

-- An order gets to paid, in_transit or fulfilled only by a payment of exactly its total.
pub captured_needs_payment :
    (o : Order) (cs : List (ℕ × Call))
    → has_payment o.status ≡ false
    → has_payment (run o cs).status ≡ true
    → Any (Pays o.total_cents) cs
unfolding run
captured_needs_payment o [] h k = cc
captured_needs_payment o (c ∷ cs) h k = elim (Bool-cases (has_payment (step o c).0.status)) [
  | inl now_paid ↦ inl (step-captures o c h now_paid)
  | inr still ↦
      inr (rw (step-IsSamePrice o c).total at (captured_needs_payment (step o c).0 cs still k))
]
