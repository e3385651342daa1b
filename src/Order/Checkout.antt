-- ===== src/Order/Checkout.antt =====
-- order/pkg/domain/checkout_session.go: the session in which a customer puts an order together. A
-- method returns the session as it leaves it, which an error does not always leave as it was.
pub mod Totals
pub mod Calls
pub mod Closing
use schick.Prelude.{
  ℕ, zero, suc, ◌+◌, ◌*◌, ◌^◌, ◌<◌, ◌≤◌, ◌≡◌, ℤ, pos, negsuc, pos_part, ltb_ℤ, ◌≤ℤ◌, Bool, true,
  false, not, ◌&&◌, ◌||◌, List, [], ◌∷◌, ◌++◌, Option, none, some, Text, ◌==◌, is_empty, trim,
  to_upper, ltb, if◌then◌else◌, Result, ok, err, ◌>>=◌, ◌>>◌, refuse_if,
}
use schick.Prelude.Word
use schick.Order.{
  Error, invalid_checkout_session, session_not_open, session_expired, empty_checkout, OrderItem,
  UnavailableItem,
}
use schick.Order.Lifecycle.{normalize_item, is_bad_item, line_total}

-- What the session does with a float64: three comparisons with constants, and
-- `int64(float64(subtotal) * fraction)`.
pub record Float64 : Type 1 where
  pub Value : Type 0
  pub nought : Value
  pub gt_zero : Value → Bool
  pub le_zero : Value → Bool
  pub ge_one : Value → Bool
  pub share : ℤ → Value → ℤ
  pub not_gt_zero : gt_zero nought ≡ false
  -- Up to 2^53 the product is the correctly rounded one of two exact factors, the second below 1.
  pub share_bounds :
      (n : ℕ) (x : Value)
      → n < 2 ^ 53
      → gt_zero x ≡ true
      → ge_one x ≡ false
      → (pos 0 ≤ℤ share (pos n) x) × (share (pos n) x ≤ℤ pos n)

pub data CheckoutStatus : Type 0 where
  is_open completed expired : CheckoutStatus

pub record CheckoutSession : Type 0 where
  pub id : Text
  pub customer_id : Text
  pub items : List OrderItem
  pub unavailable_items : List UnavailableItem
  pub status : CheckoutStatus
  pub coupon_code : Text
  pub subtotal_cents : ℤ
  pub discount_cents : ℤ
  pub shipping_fee_krw : ℤ
  pub total_cents : ℤ
  pub order_id : Text
  pub expires_at : ℕ
  pub created_at : ℕ
  pub updated_at : ℕ

-- 30 minutes, in nanoseconds
abbrev pub default_checkout_ttl : ℕ
default_checkout_ttl = 30 * 60 * 10 ^ 9

abbrev ttl_or_default : ℤ → ℕ
ttl_or_default (pos (suc n)) = suc n
ttl_or_default _ = default_checkout_ttl

-- NewCheckoutSession; the zero values of `subtotal`, `discount` and `total` are written out.
unfoldable pub new_checkout_session : Text → Text → ℕ → ℤ → ℤ → Result Error CheckoutSession
new_checkout_session id customer_id now ttl shipping_fee_krw = do
  let i = trim id
  let c = trim customer_id
  refuse_if (is_empty i || is_empty c) invalid_checkout_session
  refuse_if (ltb_ℤ shipping_fee_krw (pos 0)) invalid_checkout_session
  ok (record {
    id = i;
    customer_id = c;
    items = [];
    unavailable_items = [];
    status = is_open;
    coupon_code = [];
    subtotal_cents = pos 0;
    discount_cents = pos 0;
    shipping_fee_krw = shipping_fee_krw;
    total_cents = pos 0;
    order_id = [];
    expires_at = now + ttl_or_default ttl;
    created_at = now;
    updated_at = now;
  })

abbrev pub ensure_by_status : CheckoutStatus → CheckoutSession → ℕ → CheckoutSession × Option Error
ensure_by_status completed s now = (s, some session_not_open)
ensure_by_status expired s now = (record s { status = expired }, some session_expired)
ensure_by_status is_open s now =
    if ltb s.expires_at now
    then (record s { status = expired }, some session_expired)
    else (s, none)

unfoldable pub ensure_open : CheckoutSession → ℕ → CheckoutSession × Option Error
ensure_open s now = ensure_by_status s.status s now

-- `if err := s.EnsureOpen(now); err != nil { return err }`, and then the rest of the method.
abbrev pub proceed :
    CheckoutSession × Option Error
    → (CheckoutSession → CheckoutSession × Option Error)
    → CheckoutSession × Option Error
proceed (t, none) rest = rest t
proceed (t, some e) rest = (t, some e)

abbrev pub when_open :
    CheckoutSession
    → ℕ
    → (CheckoutSession → CheckoutSession × Option Error)
    → CheckoutSession × Option Error
when_open s now rest = proceed (ensure_open s now) rest

-- The loop of recalculateTotalsWithDiscount
unfoldable pub sum_lines : ℤ → List OrderItem → ℤ
sum_lines subtotal [] = subtotal
sum_lines subtotal (item ∷ items) = sum_lines (Word.add subtotal (line_total item)) items

-- shippingFeeForTotal
unfoldable pub shipping_fee_for_total : CheckoutSession → ℤ
shipping_fee_for_total s = elim s.items [ [] ↦ pos 0 | _ ∷ _ ↦ s.shipping_fee_krw ]

-- The loop of SetItems: `none` for the first line that is refused.
unfoldable pub copy_lines : List OrderItem → Option (List OrderItem)
copy_lines [] = some []
copy_lines (item ∷ items) =
    let i = normalize_item item in
    let rest : Option (List OrderItem) = elim (copy_lines items) [
      | none ↦ none
      | some is ↦ some (i ∷ is)
    ] in
    if is_bad_item i then none else rest

unfoldable pub same_item : OrderItem → OrderItem → Bool
same_item a b =
    if not (is_empty a.sku_id) && not (is_empty b.sku_id)
    then a.sku_id == b.sku_id
    else a.sku == b.sku

-- The loop of UpsertItem and the append behind it.
unfoldable pub upsert_line : List OrderItem → OrderItem → List OrderItem
upsert_line [] item = item ∷ []
upsert_line (existing ∷ items) item =
    if same_item existing item then item ∷ items else existing ∷ upsert_line items item

unfoldable pub without_sku : Text → List OrderItem → List OrderItem
without_sku sku [] = []
without_sku sku (item ∷ items) =
    if not (item.sku == sku) then item ∷ without_sku sku items else without_sku sku items

unfoldable pub without_sku_id : Text → List OrderItem → List OrderItem
without_sku_id sku_id [] = []
without_sku_id sku_id (item ∷ items) =
    if not (item.sku_id == sku_id)
    then item ∷ without_sku_id sku_id items
    else without_sku_id sku_id items

module _ (f : Float64) where
  open f use {Value, nought, gt_zero, le_zero, ge_one, share}

  unfoldable pub recalculate_totals_with_discount : CheckoutSession → Value → CheckoutSession
  recalculate_totals_with_discount s fraction =
      let subtotal = sum_lines (pos 0) s.items in
      let discount =
        if gt_zero fraction && not (is_empty s.coupon_code)
        then share subtotal fraction
        else pos 0 in
      record s {
        subtotal_cents = subtotal;
        discount_cents = discount;
        total_cents = Word.add (Word.sub subtotal discount) (shipping_fee_for_total s);
      }

  unfoldable pub recalculate_totals : CheckoutSession → CheckoutSession
  recalculate_totals s = recalculate_totals_with_discount s nought

  -- The end of each method that changes the lines: new lines, new totals, a new time.
  abbrev pub relined : CheckoutSession → List OrderItem → ℕ → CheckoutSession
  relined s items now = record (recalculate_totals (record s { items = items })) {
    updated_at = now;
  }

  unfoldable pub set_items : CheckoutSession → List OrderItem → ℕ → CheckoutSession × Option Error
  set_items s items now = when_open s now λ t. elim (copy_lines items) [
    | none ↦ (t, some invalid_checkout_session)
    | some copied ↦ (relined t copied now, none)
  ]

  unfoldable pub upsert_item : CheckoutSession → OrderItem → ℕ → CheckoutSession × Option Error
  upsert_item s item now = when_open s now λ t.
      let i = normalize_item item in
      if is_bad_item i
      then (t, some invalid_checkout_session)
      else (relined t (upsert_line t.items i) now, none)

  unfoldable pub remove_item : CheckoutSession → Text → ℕ → CheckoutSession × Option Error
  remove_item s sku now = when_open s now λ t.
      let k = to_upper (trim sku) in
      if is_empty k
      then (t, some invalid_checkout_session)
      else (relined t (without_sku k t.items) now, none)

  unfoldable pub remove_item_by_sku_id : CheckoutSession → Text → ℕ → CheckoutSession × Option Error
  remove_item_by_sku_id s sku_id now = when_open s now λ t.
      let k = trim sku_id in
      if is_empty k
      then (t, some invalid_checkout_session)
      else (relined t (without_sku_id k t.items) now, none)

  unfoldable pub apply_coupon : CheckoutSession → Text → Value → ℕ → CheckoutSession × Option Error
  apply_coupon s code fraction now = when_open s now λ t.
      let c = to_upper (trim code) in
      if is_empty c || le_zero fraction || ge_one fraction
      then (t, some invalid_checkout_session)
      else (
        record (recalculate_totals_with_discount (record t { coupon_code = c }) fraction) {
          updated_at = now;
        },
        none,
      )

  unfoldable pub clear_coupon : CheckoutSession → ℕ → CheckoutSession × Option Error
  clear_coupon s now =
      when_open s now λ t.
        (record (recalculate_totals (record t { coupon_code = [] })) { updated_at = now }, none)

abbrev pub has_no_items : List OrderItem → Bool
has_no_items [] = true
has_no_items (_ ∷ _) = false

unfoldable pub complete : CheckoutSession → Text → ℕ → CheckoutSession × Option Error
complete s order_id now = when_open s now λ t.
    let o = trim order_id in
    if has_no_items t.items
    then (t, some empty_checkout)
    else if is_empty o
    then (t, some invalid_checkout_session)
    else (record t { status = completed; order_id = o; updated_at = now }, none)
