-- ===== src/Order/Checkout/Totals.antt =====
-- The totals of a session of order/pkg/domain/checkout_session.go.
use schick.Prelude.{
  ℕ, trim, ◌+◌, ◌*◌, ap, pos_part, Option-cases, Bool-cases, if_rule_eq, ◌&&◌, inl, inr, ◌^◌, ◌<◌,
  ◌≡◌, refl, ◌∙◌, ℤ, pos, ◌≤ℤ◌, Bool, false, not, List, [], ◌∷◌, Option, some, arith, Text,
  is_empty, ltb, if◌then◌else◌, ok, All,
}
use schick.Prelude.Word
use schick.Prelude.Word.{add-pos, sub-pos}
use schick.Order.{Error, OrderItem}
use schick.Order.Lifecycle.{is_bad_item}
use schick.Order.Lifecycle.Pricing.{goods, line_total-pos}
use schick.Order.Checkout.{
  Float64, CheckoutSession, CheckoutStatus, ensure_by_status, proceed, when_open, relined, is_open,
  completed, expired, new_checkout_session, ensure_open, sum_lines, shipping_fee_for_total,
  copy_lines, upsert_line, without_sku, without_sku_id, recalculate_totals_with_discount,
  recalculate_totals, complete,
}

abbrev pub IsFine : OrderItem → Type 0
IsFine i = is_bad_item i ≡ false

pub sum_lines-pos :
    (n : ℕ) (items : List OrderItem)
    → All IsFine items
    → n + goods items < 2 ^ 63
    → sum_lines (pos n) items ≡ pos (n + goods items)
unfolding sum_lines
sum_lines-pos n [] h b = ground arith
sum_lines-pos n (i ∷ is) h b =
    let q = pos_part i.quantity * pos_part i.unit_price_cents in
    rw (line_total-pos i n h.0 (omega arith))
      (sum_lines-pos (n + q) is h.1 (omega arith) ∙ ap pos (omega arith))

subtotal_lem :
    (items : List OrderItem)
    → All IsFine items
    → goods items < 2 ^ 63
    → sum_lines (pos 0) items ≡ pos (goods items)
subtotal_lem items h b = sum_lines-pos 0 items h (omega arith) ∙ ap pos (omega arith)

pub record IsPriced (s : CheckoutSession) : Type 0 where
  pub fine : All IsFine s.items
  pub subtotal : s.subtotal_cents ≡ sum_lines (pos 0) s.items
  pub total :
      s.total_cents
      ≡ Word.add (Word.sub s.subtotal_cents s.discount_cents) (shipping_fee_for_total s)
  pub within :
      goods s.items < 2 ^ 53
      → (pos 0 ≤ℤ s.discount_cents) × (s.discount_cents ≤ℤ pos (goods s.items))

pub copy_lines-IsFine :
    (items copied : List OrderItem) → copy_lines items ≡ some copied → All IsFine copied
unfolding copy_lines
copy_lines-IsFine [] copied h = ground arith
copy_lines-IsFine (i ∷ is) copied h = elim (Option-cases (copy_lines is)) [
  | inl e ↦ ground arith
  | inr (is', e) ↦ ground (arith, copy_lines-IsFine is is' e)
]

pub upsert_line-IsFine :
    (items : List OrderItem) (i : OrderItem)
    → All IsFine items
    → IsFine i
    → All IsFine (upsert_line items i)
unfolding upsert_line
upsert_line-IsFine [] i h k = (k, tt)
upsert_line-IsFine (e ∷ es) i h k = ground (arith, upsert_line-IsFine es i h.1 k)

pub without_sku-IsFine :
    (k : Text) (items : List OrderItem) → All IsFine items → All IsFine (without_sku k items)
unfolding without_sku
without_sku-IsFine k [] h = tt
without_sku-IsFine k (i ∷ is) h = ground (arith, without_sku-IsFine k is h.1)

pub without_sku_id-IsFine :
    (k : Text) (items : List OrderItem) → All IsFine items → All IsFine (without_sku_id k items)
unfolding without_sku_id
without_sku_id-IsFine k [] h = tt
without_sku_id-IsFine k (i ∷ is) h = ground (arith, without_sku_id-IsFine k is h.1)

-- What holds of a session, of the session once expired, and after the rest of a method, holds after
-- the method.
rule_by_status {ℓ} :
    (P : CheckoutSession → Type ℓ) (st : CheckoutStatus) (s : CheckoutSession) (now : ℕ)
    (rest : CheckoutSession → CheckoutSession × Option Error)
    → P s
    → P (record s { status = expired })
    → P (rest s).0
    → P (proceed (ensure_by_status st s now) rest).0
rule_by_status P completed s now rest same late after = same
rule_by_status P expired s now rest same late after = late
rule_by_status P is_open s now rest same late after = elim (Bool-cases (ltb s.expires_at now)) [
  | inl e ↦ rw e late
  | inr e ↦ rw e after
]

pub when_open_rule {ℓ} :
    (P : CheckoutSession → Type ℓ) (s : CheckoutSession) (now : ℕ)
    (rest : CheckoutSession → CheckoutSession × Option Error)
    → P s
    → P (record s { status = expired })
    → P (rest s).0
    → P (when_open s now rest).0
unfolding ensure_open
when_open_rule P s now rest same late after = rule_by_status P s.status s now rest same late after

pub expired-IsPriced : (s : CheckoutSession) → IsPriced s → IsPriced (record s { status = expired })
unfolding shipping_fee_for_total
expired-IsPriced s h = record {
  fine = h.fine;
  subtotal = h.subtotal;
  total = h.total;
  within = h.within;
}

completed-IsPriced :
    (s : CheckoutSession) (order_id : Text) (now : ℕ)
    → IsPriced s
    → IsPriced (record s { status = completed; order_id = order_id; updated_at = now })
unfolding shipping_fee_for_total
completed-IsPriced s order_id now h = record {
  fine = h.fine;
  subtotal = h.subtotal;
  total = h.total;
  within = h.within;
}

pub complete-IsPriced :
    (s : CheckoutSession) (order_id : Text) (now : ℕ)
    → IsPriced s
    → IsPriced (complete s order_id now).0
unfolding complete
complete-IsPriced s order_id now h =
    when_open_rule IsPriced s now _ h (expired-IsPriced s h)
      (ground (arith, completed-IsPriced s (trim order_id) now h))

pub new_checkout_session-IsPriced :
    (id customer : Text) (now : ℕ) (ttl fee : ℤ) (s : CheckoutSession)
    → new_checkout_session id customer now ttl fee ≡ ok s
    → IsPriced s
unfolding new_checkout_session sum_lines shipping_fee_for_total
new_checkout_session-IsPriced id customer now ttl fee s h =
    let nothing : Word.add (Word.sub (pos 0) (pos 0)) (pos 0) ≡ pos 0 =
      ap (λ x. Word.add x (pos 0)) (sub-pos 0 0 (omega arith) (omega arith))
      ∙ add-pos 0 0 (omega arith) in
    record {
      fine = ground (arith, h);
      subtotal = ground (arith, h);
      total = ground (arith, h, nothing);
      within = λ b. ground (arith, h);
    }

module _ (f : Float64) where
  open f use {Value, nought, gt_zero, le_zero, ge_one, share, share_bounds, not_gt_zero}

  share-within :
      (items : List OrderItem) (fraction : Value) (coupon : Bool)
      → All IsFine items
      → ge_one fraction ≡ false
      → goods items < 2 ^ 53
      → let discount =
          if gt_zero fraction && coupon then share (sum_lines (pos 0) items) fraction else pos 0 in
        (pos 0 ≤ℤ discount) × (discount ≤ℤ pos (goods items))
  share-within items fraction coupon h g b =
      if_rule_eq (λ d. (pos 0 ≤ℤ d) × (d ≤ℤ pos (goods items))) (gt_zero fraction && coupon)
        (λ e.
          rw (subtotal_lem items h (omega arith))
            (share_bounds (goods items) fraction b (ground arith) g))
        (λ e. (omega arith, omega arith))

  pub recalculated-IsPriced :
      (s : CheckoutSession) (fraction : Value) (now : ℕ)
      → All IsFine s.items
      → ge_one fraction ≡ false
      → IsPriced (record (recalculate_totals_with_discount f s fraction) { updated_at = now })
  unfolding recalculate_totals_with_discount shipping_fee_for_total
  recalculated-IsPriced s fraction now h g = record {
    fine = h;
    subtotal = refl;
    total = refl;
    within = share-within s.items fraction (not (is_empty s.coupon_code)) h g;
  }

  pub relined-IsPriced :
      (s : CheckoutSession) (items : List OrderItem) (now : ℕ)
      → All IsFine items
      → IsPriced (relined f s items now)
  unfolding recalculate_totals recalculate_totals_with_discount shipping_fee_for_total
  relined-IsPriced s items now h = record {
    fine = h;
    subtotal = refl;
    total = refl;
    within = λ b. rw not_gt_zero (omega arith, omega arith);
  }
