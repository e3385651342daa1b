-- ===== src/Order/World.antt =====
-- What the order service (order/pkg/service) works in, and the shape of its methods. The service shares
-- the repository with other requests: at each of its calls these may have changed it. The stock service,
-- the catalog, the broker and the encoders are answers from outside, any at all.
pub mod Keeps
pub mod Holds
pub mod Undoing
pub mod Ensures
use schick.Prelude.{
  ℕ, ◌+◌, ℤ, Bool, true, false, List, [], ◌∷◌, Option, none, some, Text, ◌==◌, if◌then◌else◌,
  Result, ok, err,
}
use schick.Order.{
  Error, not_found, reservation_already_committed, reservation_already_released,
  variants_unavailable, variant_not_found, OrderStatus, OrderItem, ShippingAddress, Order,
}
use schick.Order.Repository.{Repository}
use schick.Outbox.{Publisher}

-- order/pkg/ports
pub record StockItem : Type 0 where
  pub sku_id : Text
  pub sku : Text
  pub quantity : ℤ

pub record VariantInfo : Type 0 where
  pub sku_id : Text
  pub sku : Text
  pub product_id : Text
  pub unit_price_cents : ℤ
  pub product_name : Text
  pub image_url : Text

pub record ProductClient : Type 0 where
  pub get_variant : Text → Result Error VariantInfo
  pub get_variant_by_sku_id : Text → Result Error VariantInfo

-- shared/pkg/events
pub record EventItem : Type 0 where
  pub sku_id : Text
  pub sku : Text
  pub quantity : ℤ
  pub unit_price_cents : ℤ

pub record OrderEvent : Type 0 where
  pub event_type : Text
  pub order_id : Text
  pub customer_id : Text
  pub status : OrderStatus
  pub subtotal_cents : ℤ
  pub discount_cents : ℤ
  pub shipping_fee_krw : ℤ
  pub total_cents : ℤ
  pub items : List EventItem
  pub created_at : ℕ
  pub occurred : ℕ

-- The fields that make a repeated request the same request.
pub record FingerprintItem : Type 0 where
  pub sku_id : Text
  pub sku : Text
  pub quantity : ℤ

pub record Fingerprint : Type 0 where
  pub customer_id : Text
  pub coupon_code : Text
  pub discount_cents : ℤ
  pub recipient_name : Text
  pub recipient_phone : Text
  pub shipping_address : ShippingAddress
  pub source_address_id : Text
  pub items : List FingerprintItem

-- The calls that the service made of the stock service, with what a reservation was called.
pub data StockCall : Type 0 where
  reserved : Text → List StockItem → Text → StockCall
  refused : Text → List StockItem → StockCall
  committed : Text → StockCall
  released : Text → StockCall

-- `calls` begins with the last; `tick` counts the calls that the environment answers.
pub record World : Type 0 where
  pub repo : Repository
  pub calls : List StockCall
  pub tick : ℕ

-- `others` is what the other requests did to the repository since the call before; `fails` what stops a
-- call of the repository, such as a context that is done. What the stock service answers may depend on
-- all that it was asked before. `digest` is the SHA-256 of the JSON, in hexadecimal.
pub record Env : Type 0 where
  pub others : ℕ → Repository → Repository
  pub fails : ℕ → Option Error
  pub clock : ℕ → ℕ
  pub reserve_stock : List StockCall → Text → List StockItem → Result Error Text
  pub commit_stock : List StockCall → Text → Option Error
  pub release_stock : List StockCall → Text → Option Error
  pub product : Option ProductClient
  pub publisher : Option (ℕ → Publisher Error)
  pub shipping_fee_krw : ℤ
  pub checkout_ttl : ℤ
  pub marshal : OrderEvent → Result Error Text
  pub digest : Fingerprint → Text
  pub describe : Error → Text

-- A method: what it changed stays changed when it fails.
abbrev pub Task {ℓ} : Type ℓ → Type ℓ
Task A = World → World × Result Error A

module _ {ℓ} {A : Type ℓ} where
  unfoldable pub pure : A → Task A
  pure a w = (w, ok a)

  unfoldable pub fail : Error → Task A
  fail e w = (w, err e)

  unfoldable pub lift : Result Error A → Task A
  lift r w = (w, r)

  abbrev pub as_value : World × Result Error A → World × Result Error (Result Error A)
  as_value (w, r) = (w, ok r)

  -- The error as a value, for the code that looks at it or drops it.
  unfoldable pub attempt : Task A → Task (Result Error A)
  attempt m w = as_value (m w)

module _ {ℓ κ} {A : Type ℓ} {B : Type κ} where
  abbrev pub continue : World × Result Error A → (A → Task B) → World × Result Error B
  continue (w, ok a) next = next a w
  continue (w, err e) next = (w, err e)

  infixl 5 ◌>>=◌ ◌>>◌
  unfoldable pub ◌>>=◌ : Task A → (A → Task B) → Task B
  ◌>>=◌ m next w = continue (m w) next

  abbrev pub ◌>>◌ : Task A → Task B → Task B
  m >> k = m >>= λ _. k

unfoldable pub require_task : Option Error → Task (Unit {0})
require_task none w = (w, ok tt)
require_task (some e) w = (w, err e)

-- errors.Is(err, ErrNotFound), and the other errors that the service asks for.
abbrev pub is_not_found : Error → Bool
is_not_found not_found = true
is_not_found _ = false

abbrev pub is_already_committed : Error → Bool
is_already_committed reservation_already_committed = true
is_already_committed _ = false

abbrev pub is_already_released : Error → Bool
is_already_released reservation_already_released = true
is_already_released _ = false

abbrev pub is_variant_not_found : Error → Bool
is_variant_not_found variant_not_found = true
is_variant_not_found (variants_unavailable _) = true
is_variant_not_found _ = false

module _ (env : Env) where
  unfoldable pub read_clock : Task ℕ
  read_clock w = (record w { tick = w.tick + 1 }, ok (env.clock w.tick))

  -- One call of the repository, which does not start where the environment stops it.
  abbrev pub accessed {ℓ} :
      {A : Type ℓ}
      → Option Error
      → (Repository → Repository × Result Error A)
      → World
      → World × Result Error A
  accessed (some e) call w = (w, err e)
  accessed none call w = let (r, a) = call w.repo in (record w { repo = r }, a)

  unfoldable pub access {ℓ} : {A : Type ℓ} → (Repository → Repository × Result Error A) → Task A
  access call w =
      accessed (env.fails w.tick) call
        (record w { repo = env.others w.tick w.repo; tick = w.tick + 1 })

  -- The stock client.
  abbrev pub logged : Text → List StockItem → Result Error Text → World → World × Result Error Text
  logged order_id items (ok id) w =
      (record w { calls = reserved order_id items id ∷ w.calls }, ok id)
  logged order_id items (err e) w = (record w { calls = refused order_id items ∷ w.calls }, err e)

  unfoldable pub reserve : Text → List StockItem → Task Text
  reserve order_id items w = logged order_id items (env.reserve_stock w.calls order_id items) w

  unfoldable pub commit_reservation : Text → Task (Unit {0})
  commit_reservation id w =
      require_task (env.commit_stock w.calls id) (record w { calls = committed id ∷ w.calls })

  unfoldable pub release_reservation : Text → Task (Unit {0})
  release_reservation id w =
      require_task (env.release_stock w.calls id) (record w { calls = released id ∷ w.calls })

  -- `_ = s.stock.ReleaseReservation(…)`
  unfoldable pub let_go : Text → Task (Unit {0})
  let_go id = attempt (release_reservation id) >> pure tt

  -- `if err != nil { _ = s.stock.ReleaseReservation(…); return nil, err }`
  unfoldable pub on_error : {A : Type 0} → Task (Unit {0}) → Result Error A → Task A
  on_error undo (ok a) = pure a
  on_error undo (err e) = undo >> fail e

  unfoldable pub or_undo : {A : Type 0} → Task (Unit {0}) → Task A → Task A
  or_undo undo m = attempt m >>= on_error undo
