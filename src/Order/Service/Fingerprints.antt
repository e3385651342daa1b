-- ===== src/Order/Service/Fingerprints.antt =====
-- hashCreateOrderInput of order/pkg/service/service.go: what of a request its hash is made of.
use schick.Prelude.{
  ℤ, Bool, not, List, [], ◌∷◌, Option, Text, ◌==◌, trim, text_ltb, ltb_ℤ, map, if◌then◌else◌,
}
use schick.Order.{OrderItem, ShippingAddress}
use schick.Order.World.{Env, FingerprintItem, Fingerprint}

pub record CreateOrderInput : Type 0 where
  pub customer_id : Text
  pub items : List OrderItem
  pub coupon_code : Text
  pub discount_cents : ℤ
  pub idempotency_key : Text
  pub recipient_name : Text
  pub recipient_phone : Text
  pub shipping_address : ShippingAddress
  pub source_address_id : Text
  pub shipping_fee_krw : Option ℤ

unfoldable pub fingerprint_item : OrderItem → FingerprintItem
fingerprint_item item = record {
  sku_id = trim item.sku_id;
  sku = trim item.sku;
  quantity = item.quantity;
}

-- The order of sort.Slice.
unfoldable pub comes_before : FingerprintItem → FingerprintItem → Bool
comes_before a b =
    if not (a.sku_id == b.sku_id)
    then text_ltb a.sku_id b.sku_id
    else if not (a.sku == b.sku)
    then text_ltb a.sku b.sku
    else ltb_ℤ a.quantity b.quantity

unfoldable pub insert_item : FingerprintItem → List FingerprintItem → List FingerprintItem
insert_item i [] = i ∷ []
insert_item i (j ∷ js) = if comes_before j i then j ∷ insert_item i js else i ∷ j ∷ js

unfoldable pub sort_items : List FingerprintItem → List FingerprintItem
sort_items [] = []
sort_items (i ∷ is) = insert_item i (sort_items is)

unfoldable pub fingerprint : CreateOrderInput → Fingerprint
fingerprint input = record {
  customer_id = trim input.customer_id;
  coupon_code = trim input.coupon_code;
  discount_cents = input.discount_cents;
  recipient_name = trim input.recipient_name;
  recipient_phone = trim input.recipient_phone;
  shipping_address = input.shipping_address;
  source_address_id = trim input.source_address_id;
  items = sort_items (map fingerprint_item input.items);
}

unfoldable pub hash_create_order_input : Env → CreateOrderInput → Text
hash_create_order_input env input = env.digest (fingerprint input)
