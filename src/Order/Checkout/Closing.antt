-- ===== src/Order/Checkout/Closing.antt =====
-- The end of a session of order/pkg/domain/checkout_session.go: what a completed one and an expired one
-- still let a caller do.
use schick.Prelude.{ℕ, ◌<◌, ◌≡◌, refl, ◌≢◌, Bool, false, [], Option, some, arith, ltb, trim}
use schick.Order.{Error, session_not_open, session_expired}
use schick.Order.Checkout.{
  Float64, CheckoutSession, when_open, is_open, completed, expired, ensure_open, set_items,
  upsert_item, remove_item, remove_item_by_sku_id, apply_coupon, clear_coupon, complete,
  recalculate_totals, recalculate_totals_with_discount,
}
use schick.Order.Checkout.Calls.{
  Call, sets_items, upserts_item, removes_item, removes_item_by_sku_id, applies_coupon,
  clears_coupon, completes, step,
}

abbrev is_late : CheckoutSession → ℕ → Bool
is_late s now = ltb s.expires_at now

when_open_completed :
    (s : CheckoutSession) (now : ℕ) (rest : CheckoutSession → CheckoutSession × Option Error)
    → s.status ≡ completed
    → when_open s now rest ≡ (s, some session_not_open)
unfolding ensure_open
when_open_completed s now rest h = rw h refl

when_open_late :
    (s : CheckoutSession) (now : ℕ) (rest : CheckoutSession → CheckoutSession × Option Error)
    → s.status ≢ completed
    → s.expires_at < now
    → when_open s now rest ≡ (record s { status = expired }, some session_expired)
unfolding ensure_open
when_open_late s now rest h late = ground (arith, h, late)

module _ (f : Float64) where
  -- A completed session refuses every call and stays as it is.
  pub step_completed :
      (s : CheckoutSession) (c : ℕ × Call f)
      → s.status ≡ completed
      → step f s c ≡ (s, some session_not_open)
  unfolding step set_items upsert_item remove_item remove_item_by_sku_id apply_coupon clear_coupon
      complete
  step_completed s (now, sets_items items) h = when_open_completed s now _ h
  step_completed s (now, upserts_item item) h = when_open_completed s now _ h
  step_completed s (now, removes_item sku) h = when_open_completed s now _ h
  step_completed s (now, removes_item_by_sku_id sku_id) h = when_open_completed s now _ h
  step_completed s (now, applies_coupon code fraction) h = when_open_completed s now _ h
  step_completed s (now, clears_coupon) h = when_open_completed s now _ h
  step_completed s (now, completes order_id) h = when_open_completed s now _ h

  -- Once its time is over, a session that is not completed refuses every call, and all that a call
  -- changes is the status, which becomes expired.
  pub step_late :
      (s : CheckoutSession) (c : ℕ × Call f)
      → s.status ≢ completed
      → s.expires_at < c.0
      → step f s c ≡ (record s { status = expired }, some session_expired)
  unfolding step set_items upsert_item remove_item remove_item_by_sku_id apply_coupon clear_coupon
      complete
  step_late s (now, sets_items items) h late = when_open_late s now _ h late
  step_late s (now, upserts_item item) h late = when_open_late s now _ h late
  step_late s (now, removes_item sku) h late = when_open_late s now _ h late
  step_late s (now, removes_item_by_sku_id sku_id) h late = when_open_late s now _ h late
  step_late s (now, applies_coupon code fraction) h late = when_open_late s now _ h late
  step_late s (now, clears_coupon) h late = when_open_late s now _ h late
  step_late s (now, completes order_id) h late = when_open_late s now _ h late

  abbrev pub Completes : CheckoutSession → ℕ × Call f → CheckoutSession → Type 0
  Completes s (now, completes order_id) t =
      (s.status ≡ is_open)
      × (is_late s now ≡ false)
      × (s.items ≢ [])
      × (trim order_id ≢ [])
      × (t.order_id ≡ trim order_id)
  Completes s (now, _) t = ⊥

  -- A call completes a session that was not completed only when it is Complete, in time, on an open
  -- session with lines, under an order id that is not blank, which the session then carries.
  pub step-Completes :
      (s : CheckoutSession) (c : ℕ × Call f)
      → s.status ≢ completed
      → (step f s c).0.status ≡ completed
      → Completes s c (step f s c).0
  unfolding step set_items upsert_item remove_item remove_item_by_sku_id apply_coupon clear_coupon
      complete ensure_open recalculate_totals recalculate_totals_with_discount
  step-Completes s (now, sets_items items) h k = ground arith
  step-Completes s (now, upserts_item item) h k = ground arith
  step-Completes s (now, removes_item sku) h k = ground arith
  step-Completes s (now, removes_item_by_sku_id sku_id) h k = ground arith
  step-Completes s (now, applies_coupon code fraction) h k = ground arith
  step-Completes s (now, clears_coupon) h k = ground arith
  step-Completes s (now, completes order_id) h k = ground arith
