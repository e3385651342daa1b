-- ===== src/Order.antt =====
-- The order service (order/pkg): its data, and its modules.
pub mod Shipment
pub mod Shipping
pub mod Lifecycle
pub mod Checkout
pub mod Repository
pub mod World
pub mod Service
mod Tests
use schick.Prelude.{ℕ, ◌*◌, ◌^◌, ℤ, Bool, List, Option, Text}

pub data OrderStatus : Type 0 where
  pending paid in_transit fulfilled canceled : OrderStatus

pub record OrderItem : Type 0 where
  pub sku_id : Text
  pub sku : Text
  pub quantity : ℤ  -- int
  pub unit_price_cents : ℤ  -- int64
  pub product_name : Text
  pub image_url : Text
  pub available : Option Bool

pub record UnavailableItem : Type 0 where
  pub sku_id : Text
  pub sku : Text
  pub reason : Text

-- The errors of domain and ports; what `%w` wraps an error with is left out. `failed` is an error of
-- something outside, with its message.
pub data Error : Type 0 where
  invalid_order invalid_transition payment_amount_mismatch invalid_shipment : Error
  invalid_fulfillment : Error
  invalid_checkout_session session_not_open session_expired empty_checkout : Error
  not_found idempotency_conflict product_unavailable : Error
  reservation_closed reservation_already_committed reservation_already_released : Error
  variant_not_found coupon_invalid coupon_unavailable concurrent_status_change : Error
  variants_unavailable : List UnavailableItem → Error
  failed : Text → Error

pub record ShippingAddress : Type 0 where
  pub postal_code : Text
  pub address_line1 : Text
  pub address_line2 : Text
  pub city : Text
  pub province : Text
  pub pccc : Text

-- Instants are nanoseconds; a nil time is `none`.
pub record Order : Type 0 where
  pub id : Text
  pub customer_id : Text
  pub reservation_id : Text
  pub items : List OrderItem
  pub status : OrderStatus
  pub coupon_code : Text
  pub subtotal_cents : ℤ
  pub discount_cents : ℤ
  pub shipping_fee_krw : ℤ
  pub total_cents : ℤ
  pub recipient_name : Text
  pub recipient_phone : Text
  pub shipping_address : ShippingAddress
  pub source_address_id : Text
  pub payment_id : Text
  pub paid_at : Option ℕ
  pub payment_due_at : ℕ
  pub shipped_by : Text
  pub shipped_at : Option ℕ
  pub carrier : Text
  pub tracking_number : Text
  pub carrier_note : Text
  pub created_at : ℕ
  pub updated_at : ℕ

-- 5 minutes, in nanoseconds
abbrev pub default_payment_ttl : ℕ
default_payment_ttl = 5 * 60 * 10 ^ 9
