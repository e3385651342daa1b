-- ===== src/Order/Lifecycle/Pricing.antt =====
-- What a new order costs.
use schick.Prelude.{
  ℕ, ◌+◌, ◌-◌, ◌*◌, ◌≤◌, ◌<◌, ◌^◌, ◌≡◌, ◌≢◌, ◌∙◌, ap, ℤ, pos, negsuc, pos_part, ltb_ℤ, false, List,
  [], ◌∷◌, arith, Text, ok, >>=-eq-ok, All, Bool-cases, inl, inr,
}
use mathlib.Core.Path.{ap₂}
use schick.Prelude.Word
use schick.Prelude.Word.{add-pos, sub-pos, mul-pos}
use schick.Order.{OrderItem, Order}
use schick.Order.Lifecycle.{normalize_item, is_bad_item, line_total, copy_items, new_order}

-- The value of the goods, with no bound on it.
abbrev pub goods : List OrderItem → ℕ
goods [] = 0
goods (i ∷ is) = pos_part i.quantity * pos_part i.unit_price_cents + goods is

is_bad_item-false :
    (i : OrderItem)
    → is_bad_item i ≡ false
    → (i.quantity ≡ pos (pos_part i.quantity))
      × (0 < pos_part i.quantity)
      × (i.unit_price_cents ≡ pos (pos_part i.unit_price_cents))
unfolding is_bad_item
is_bad_item-false i h = ground arith

pub line_total-pos :
    (i : OrderItem) (n : ℕ)
    → is_bad_item i ≡ false
    → n + pos_part i.quantity * pos_part i.unit_price_cents < 2 ^ 63
    → Word.add (pos n) (line_total i) ≡ pos (n + pos_part i.quantity * pos_part i.unit_price_cents)
line_total-pos i n ok_item b =
    let q = pos_part i.quantity in
    let p = pos_part i.unit_price_cents in
    let (same_q, sold, same_p) = is_bad_item-false i ok_item in
    ap (Word.add (pos n)) (ap₂ Word.mul same_q same_p ∙ mul-pos q p (omega arith))
    ∙ add-pos n (q * p) b

copy_items_lem :
    (items : List OrderItem) (n : ℕ) (copied : List OrderItem) (total : ℤ)
    → n + goods items < 2 ^ 63
    → copy_items items (pos n) ≡ ok (copied, total)
    → (total ≡ pos (n + goods items))
      × (goods copied ≡ goods items)
      × All (λ i. is_bad_item i ≡ false) copied
unfolding copy_items
copy_items_lem [] n copied total b h = ground arith
copy_items_lem (item ∷ items) n copied total b h =
    elim (Bool-cases (is_bad_item (normalize_item item))) [
      | inl bad ↦ cc (rw bad at h)
      | inr fine ↦
          let q = pos_part item.quantity * pos_part item.unit_price_cents in
          let step = line_total-pos (normalize_item item) n fine (omega arith) in
          let ((is, t), found, same) = >>=-eq-ok _ _ (rw (fine, step) at h) in
          let (sum, same_goods, all_fine) = copy_items_lem items (n + q) is t (omega arith) found in
          ground arith
    ]

new_order_inv :
    (id customer reservation : Text) (items : List OrderItem) (coupon : Text) (discount fee : ℤ)
    (now : ℕ) (o : Order)
    → new_order id customer reservation items coupon discount fee now ≡ ok o
    → (copy_items items (pos 0) ≡ ok (o.items, o.subtotal_cents))
      × (o.items ≢ [])
      × (ltb_ℤ discount (pos 0) ≡ false)
      × (ltb_ℤ o.subtotal_cents discount ≡ false)
      × (ltb_ℤ fee (pos 0) ≡ false)
      × (o.total_cents ≡ Word.add (Word.sub o.subtotal_cents discount) fee)
unfolding new_order
new_order_inv id customer reservation items coupon discount fee now o h = ground arith

total-pos :
    (g : ℕ) (discount fee subtotal : ℤ)
    → g + pos_part fee < 2 ^ 63
    → subtotal ≡ pos g
    → ltb_ℤ discount (pos 0) ≡ false
    → ltb_ℤ subtotal discount ≡ false
    → ltb_ℤ fee (pos 0) ≡ false
    → (pos_part discount ≤ g)
      × (Word.add (Word.sub subtotal discount) fee ≡ pos (g - pos_part discount + pos_part fee))
total-pos g (pos d) (pos f) subtotal b e h k l = ground (arith, sub-pos g d, add-pos (g - d) f)
total-pos g (negsuc d) fee subtotal b e h k l = ground arith
total-pos g (pos d) (negsuc f) subtotal b e h k l = ground arith

-- While the goods and the delivery come to less than 2^63 won, a new order costs what its lines are
-- worth, less the discount, plus the shipping fee, and so never less than the fee; every line has an
-- identifier, a positive quantity and a price that is not negative, and there is a line.
pub new_order_lem :
    (id customer reservation : Text) (items : List OrderItem) (coupon : Text) (discount fee : ℤ)
    (now : ℕ) (o : Order)
    → goods items + pos_part fee < 2 ^ 63
    → new_order id customer reservation items coupon discount fee now ≡ ok o
    → (o.subtotal_cents ≡ pos (goods items))
      × (pos_part discount ≤ goods items)
      × (o.total_cents ≡ pos (goods items - pos_part discount + pos_part fee))
      × (pos_part fee ≤ pos_part o.total_cents)
      × All (λ i. is_bad_item i ≡ false) o.items
      × (o.items ≢ [])
new_order_lem id customer reservation items coupon discount fee now o b h =
    let (copied, some_items, d, s, f, t) =
      new_order_inv id customer reservation items coupon discount fee now o h in
    let (total, same_goods, fine) =
      copy_items_lem items 0 o.items o.subtotal_cents (omega arith) copied in
    let subtotal : o.subtotal_cents ≡ pos (goods items) = ground arith in
    let (within, priced) = total-pos (goods items) discount fee o.subtotal_cents b subtotal d s f in
    let cost = t ∙ priced in (subtotal, within, cost, rw cost (omega arith), fine, some_items)
