-- ===== src/Order/Checkout/Calls.antt =====
-- The methods of a session (order/pkg/domain/checkout_session.go), one call after another.
use schick.Prelude.{
  ℕ, trim, to_upper, Option-cases, inl, inr, ◌≡◌, false, List, [], ◌∷◌, Option, arith, Text,
}
use schick.Order.{Error, OrderItem}
use schick.Order.Lifecycle.{normalize_item, is_bad_item}
use schick.Order.Checkout.{
  Float64, CheckoutSession, copy_lines, upsert_line, without_sku, without_sku_id,
  recalculate_totals, set_items, upsert_item, remove_item, remove_item_by_sku_id, apply_coupon,
  clear_coupon, complete,
}
use schick.Order.Checkout.Totals.{
  IsPriced, copy_lines-IsFine, upsert_line-IsFine, without_sku-IsFine, without_sku_id-IsFine,
  when_open_rule, expired-IsPriced, complete-IsPriced, recalculated-IsPriced, relined-IsPriced,
}

module _ (f : Float64) where
  open f use {Value, nought, gt_zero, le_zero, ge_one, share}

  pub data Call : Type 0 where
    sets_items : List OrderItem → Call
    upserts_item : OrderItem → Call
    removes_item : Text → Call
    removes_item_by_sku_id : Text → Call
    applies_coupon : Text → Value → Call
    clears_coupon : Call
    completes : Text → Call

  unfoldable pub step : CheckoutSession → ℕ × Call → CheckoutSession × Option Error
  step s (now, sets_items items) = set_items f s items now
  step s (now, upserts_item item) = upsert_item f s item now
  step s (now, removes_item sku) = remove_item f s sku now
  step s (now, removes_item_by_sku_id sku_id) = remove_item_by_sku_id f s sku_id now
  step s (now, applies_coupon code fraction) = apply_coupon f s code fraction now
  step s (now, clears_coupon) = clear_coupon f s now
  step s (now, completes order_id) = complete s order_id now

  unfoldable pub run : CheckoutSession → List (ℕ × Call) → CheckoutSession
  run s [] = s
  run s (c ∷ cs) = run (step s c).0 cs

  apply_coupon-IsPriced :
      (s : CheckoutSession) (code : Text) (fraction : Value) (now : ℕ)
      → IsPriced s
      → IsPriced (apply_coupon f s code fraction now).0
  unfolding apply_coupon
  apply_coupon-IsPriced s code fraction now h =
      when_open_rule IsPriced s now _ h (expired-IsPriced s h) (
        ground (
          arith,
          recalculated-IsPriced f (record s { coupon_code = to_upper (trim code) }) fraction now
              h.fine,
        ))

  set_items-IsPriced :
      (s : CheckoutSession) (items : List OrderItem) (now : ℕ)
      → IsPriced s
      → IsPriced (set_items f s items now).0
  unfolding set_items
  set_items-IsPriced s items now h =
      when_open_rule IsPriced s now _ h (expired-IsPriced s h)
        (elim (Option-cases (copy_lines items)) [
          | inl e ↦ rw e h
          | inr (copied, e) ↦
              rw e (relined-IsPriced f s copied now (copy_lines-IsFine items copied e))
        ])

  -- Whatever is called, and when, the totals stay those of the lines.
  step-IsPriced : (s : CheckoutSession) (c : ℕ × Call) → IsPriced s → IsPriced (step s c).0
  unfolding step upsert_item remove_item remove_item_by_sku_id clear_coupon recalculate_totals
  step-IsPriced s (now, sets_items items) h = set_items-IsPriced s items now h
  step-IsPriced s (now, upserts_item item) h =
      when_open_rule IsPriced s now _ h (expired-IsPriced s h) (
        ground (
          arith,
          λ (e : is_bad_item (normalize_item item) ≡ false).
              relined-IsPriced f s (upsert_line s.items (normalize_item item)) now
                (upsert_line-IsFine s.items (normalize_item item) h.fine e),
        ))
  step-IsPriced s (now, removes_item sku) h =
      when_open_rule IsPriced s now _ h (expired-IsPriced s h) (
        ground (
          arith,
          relined-IsPriced f s (without_sku (to_upper (trim sku)) s.items) now
              (without_sku-IsFine (to_upper (trim sku)) s.items h.fine),
        ))
  step-IsPriced s (now, removes_item_by_sku_id sku_id) h =
      when_open_rule IsPriced s now _ h (expired-IsPriced s h) (
        ground (
          arith,
          relined-IsPriced f s (without_sku_id (trim sku_id) s.items) now
              (without_sku_id-IsFine (trim sku_id) s.items h.fine),
        ))
  step-IsPriced s (now, applies_coupon code fraction) h =
      apply_coupon-IsPriced s code fraction now h
  step-IsPriced s (now, clears_coupon) h =
      when_open_rule IsPriced s now _ h (expired-IsPriced s h)
        (relined-IsPriced f (record s { coupon_code = [] }) s.items now h.fine)
  step-IsPriced s (now, completes order_id) h = complete-IsPriced s order_id now h

  -- Through every sequence of calls a session that is priced stays priced: its totals are those of its
  -- lines, each of which is in order, and its discount is within the goods while they come to less than
  -- 2^53 won.
  pub run-IsPriced : (s : CheckoutSession) (cs : List (ℕ × Call)) → IsPriced s → IsPriced (run s cs)
  unfolding run
  run-IsPriced s [] h = h
  run-IsPriced s (c ∷ cs) h = run-IsPriced (step s c).0 cs (step-IsPriced s c h)
