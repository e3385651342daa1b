-- ===== src/Order/Service/Sessions.antt =====
-- The checkout sessions of order/pkg/service/checkout.go. A method of a session that fails leaves the
-- copy that the service holds and not the one that is stored; only EnsureOpen's change is saved.
pub mod Completing
use schick.Prelude.{
  ℕ, ℤ, pos, Bool, true, false, not, ◌&&◌, List, [], ◌∷◌, ◌++◌, Option, none, some, Text, is_empty,
  trim, if◌then◌else◌, Result, ok, err,
}
use schick.Order.{
  Error, invalid_checkout_session, session_not_open, session_expired, empty_checkout,
  product_unavailable, coupon_unavailable, OrderItem, UnavailableItem, ShippingAddress, Order,
}
use schick.Order.Checkout
use schick.Order.Checkout.{
  Float64, CheckoutSession, completed, new_checkout_session, ensure_open, sum_lines, has_no_items,
}
use schick.Order.Shipping.{FulfillmentSnapshot, validate_fulfillment_snapshot}
use schick.Order.Repository
use schick.Order.Repository.{Repository}
use schick.Order.World.{
  World, Env, Task, ProductClient, pure, fail, lift, attempt, ◌>>=◌, ◌>>◌, read_clock, access,
  is_variant_not_found,
}
use schick.Order.Service.{price_items, resolve_variant, unavailable_from_order_item}
use schick.Order.Service.Fingerprints.{CreateOrderInput}
use schick.Order.Service.Placing.{create_order}
use schick.Order.Service.Closing.{cancel_order, refuse}

pub record CompleteCheckoutInput : Type 0 where
  pub recipient_name : Text
  pub recipient_phone : Text
  pub shipping_address : ShippingAddress
  pub source_address_id : Text

pub record CompleteCheckoutResult : Type 0 where
  pub session : CheckoutSession
  pub order : Order

-- The error of a method on a session, with the session as it leaves it.
abbrev pub changed : CheckoutSession × Option Error → Result Error CheckoutSession
changed (s, none) = ok s
changed (s, some e) = err e

abbrev marked_item : Result Error (Unit {0}) → OrderItem → OrderItem × List UnavailableItem
marked_item (ok _) item = (item, [])
marked_item (err e) item =
    if is_variant_not_found e
    then (record item { available = some false }, unavailable_from_order_item item ∷ [])
    else (item, [])

abbrev without_info : {A : Type 0} → Result Error A → Result Error (Unit {0})
without_info (ok _) = ok tt
without_info (err e) = err e

-- The loop of annotateCheckoutSession
unfoldable pub annotate_items :
    ProductClient → List OrderItem → List OrderItem × List UnavailableItem
annotate_items product [] = ([], [])
annotate_items product (item ∷ items) =
    let (marked, gone) = marked_item (without_info (resolve_variant product item)) item in
    let (rest, others) = annotate_items product items in (marked ∷ rest, gone ++ others)

abbrev annotated : ProductClient → CheckoutSession → CheckoutSession
annotated product s =
    let (items, unavailable) = annotate_items product s.items in
    record s { items = items; unavailable_items = unavailable }

unfoldable pub annotate_checkout_session : Option ProductClient → CheckoutSession → CheckoutSession
annotate_checkout_session none s = s
annotate_checkout_session (some product) s = if has_no_items s.items then s else annotated product s

module _ (env : Env) where
  abbrev pub saving : CheckoutSession → Repository → Repository × Result Error (Unit {0})
  saving s r = (Repository.save_checkout_session r s, ok tt)

  unfoldable pub save_checkout_session : CheckoutSession → Task CheckoutSession
  save_checkout_session s = do access env (saving s); pure (annotate_checkout_session env.product s)

  unfoldable pub create_checkout_session : Text → Task CheckoutSession
  create_checkout_session customer_id = do
    session_id ← access env (λ r. let (s, id) = Repository.next_checkout_session_id r in (s, ok id))
    now ← read_clock env
    session ←
        lift (new_checkout_session session_id customer_id now env.checkout_ttl env.shipping_fee_krw)
    access env (saving session)
    pure session

  abbrev if_open : CheckoutSession × Option Error → Task CheckoutSession
  if_open (s, none) = pure s
  if_open (s, some e) = attempt (access env (saving s)) >> fail e

  unfoldable pub get_open_checkout_session : Text → Task CheckoutSession
  get_open_checkout_session session_id = do
    session ← access env (λ r. (r, Repository.get_checkout_session r (trim session_id)))
    now ← read_clock env
    if_open (ensure_open session now)

  -- A completed session is shown; one whose time is over is not.
  abbrev if_shown : CheckoutSession × Option Error → Task CheckoutSession
  if_shown (s, some session_not_open) = pure (annotate_checkout_session env.product s)
  if_shown (s, some e) = attempt (access env (saving s)) >> fail e
  if_shown (s, none) = pure (annotate_checkout_session env.product s)

  unfoldable pub get_checkout_session : Text → Task CheckoutSession
  get_checkout_session id = do
    session ← access env (λ r. (r, Repository.get_checkout_session r (trim id)))
    now ← read_clock env
    if_shown (ensure_open session now)

  abbrev pub of_claim :
      CheckoutSession → Order → ℕ → Result Error Bool → Task CompleteCheckoutResult
  of_claim session order now (err e) = attempt (cancel_order env order.id) >> fail e
  of_claim session order now (ok false) =
      attempt (cancel_order env order.id) >> fail session_not_open
  of_claim session order now (ok true) = pure (record {
    session = record session { status = completed; order_id = order.id; updated_at = now };
    order = order;
  })

  -- The order is there; the session is claimed for it, or the order goes again.
  unfoldable pub claim_session : CheckoutSession → Order → Task CompleteCheckoutResult
  claim_session session order = do
    now ← read_clock env
    claimed ← attempt (
        access env (λ r.
          let (s, won) = Repository.complete_checkout_session_if_open r session.id order.id now in
          (s, ok won)))
    of_claim session order now claimed

  module _ (f : Float64) where
    open f use {Value, share}

    unfoldable pub set_checkout_items : Text → List OrderItem → Task CheckoutSession
    set_checkout_items session_id items = do
      session ← get_open_checkout_session session_id
      priced ← lift (price_items env.product items)
      now ← read_clock env
      updated ← lift (changed (Checkout.set_items f session priced now))
      save_checkout_session updated

    -- `priced[0]`, which is there where priceItems succeeds on one line.
    abbrev upsert_first : CheckoutSession → List OrderItem → ℕ → Result Error CheckoutSession
    upsert_first session [] now = err product_unavailable
    upsert_first session (item ∷ _) now = changed (Checkout.upsert_item f session item now)

    unfoldable pub upsert_checkout_item : Text → OrderItem → Task CheckoutSession
    upsert_checkout_item session_id item = do
      session ← get_open_checkout_session session_id
      priced ← lift (price_items env.product (item ∷ []))
      now ← read_clock env
      updated ← lift (upsert_first session priced now)
      save_checkout_session updated

    unfoldable pub remove_checkout_item : Text → Text → Task CheckoutSession
    remove_checkout_item session_id sku = do
      session ← get_open_checkout_session session_id
      now ← read_clock env
      updated ← lift (changed (Checkout.remove_item f session sku now))
      save_checkout_session updated

    unfoldable pub remove_checkout_item_by_sku_id : Text → Text → Task CheckoutSession
    remove_checkout_item_by_sku_id session_id sku_id = do
      session ← get_open_checkout_session session_id
      now ← read_clock env
      updated ← lift (changed (Checkout.remove_item_by_sku_id f session sku_id now))
      save_checkout_session updated

    -- Redeem answers with the coupon's code and its fraction.
    module _ (coupons : Option (Text → Result Error (Text × Value))) where
      unfoldable pub redeem : Text → Task (Text × Value)
      redeem code = elim coupons [
        | none ↦ fail coupon_unavailable
        | some answer ↦ lift (answer code)
      ]

      abbrev has_coupons : Bool
      has_coupons = elim coupons [ none ↦ false | some _ ↦ true ]

      unfoldable pub apply_checkout_coupon : Text → Text → Task CheckoutSession
      apply_checkout_coupon session_id code = do
        refuse (not has_coupons) coupon_unavailable
        session ← get_open_checkout_session session_id
        refuse (has_no_items session.items) empty_checkout
        (coupon, fraction) ← redeem code
        now ← read_clock env
        updated ← lift (changed (Checkout.apply_coupon f session coupon fraction now))
        save_checkout_session updated

      -- The discount of the order, by today's prices and coupon.
      abbrev discount_of : Text → List OrderItem → Task (Text × ℤ)
      discount_of code priced =
          if is_empty code
          then pure (code, pos 0)
          else redeem code >>= λ (coupon, fraction).
              pure (coupon, share (sum_lines (pos 0) priced) fraction)

      abbrev order_input :
          CheckoutSession → FulfillmentSnapshot → List OrderItem → Text × ℤ → CreateOrderInput
      order_input session snapshot priced (code, discount) = record {
        customer_id = session.customer_id;
        items = priced;
        coupon_code = code;
        discount_cents = discount;
        idempotency_key = [];
        recipient_name = snapshot.recipient_name;
        recipient_phone = snapshot.recipient_phone;
        shipping_address = snapshot.shipping_address;
        source_address_id = snapshot.source_address_id;
        shipping_fee_krw = some session.shipping_fee_krw;
      }

      unfoldable pub complete_checkout : Text → CompleteCheckoutInput → Task CompleteCheckoutResult
      complete_checkout session_id input = do
        session ← get_open_checkout_session session_id
        refuse (has_no_items session.items) empty_checkout
        snapshot ← lift (
            validate_fulfillment_snapshot input.recipient_name input.recipient_phone
              input.shipping_address input.source_address_id)
        priced ← lift (price_items env.product session.items)
        discount ← discount_of session.coupon_code priced
        order ← create_order env (order_input session snapshot priced discount)
        claim_session session order
