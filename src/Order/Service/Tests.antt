-- ===== src/Order/Service/Tests.antt =====
-- The order service at work: an order placed, paid, shipped and refunded, and its outbox drained.
use schick.Prelude.{
  ℕ, ◌+◌, ◌≡◌, ◌≢◌, ◌⊎◌, refl, pos, true, false, List, [], ◌∷◌, ◌++◌, none, some, arith, Text,
  codes, ◌==◌, trim, trim_left, trim_right, is_space, to_lower, to_upper, text_ltb, eqb,
  if◌then◌else◌, Result, ok, err, lookup, insert, decimal, decimal6, zeros_onto, digits_onto, ◌+ℤ◌,
  ◌-ℤ◌, ◌*ℤ◌, ap, sym,
}
use schick.Prelude.Word
use schick.Prelude.Case.{upper_rune, lower_rune}
use schick.Order.{
  Error, failed, pending, paid, in_transit, canceled, OrderItem, ShippingAddress, Order,
  default_payment_ttl,
}
use schick.Order.Shipment.{normalize_shipment_tracking, normalize_note, is_valid_carrier}
use schick.Order.Lifecycle.{
  is_bad_item, copy_items, new_order, mark_paid, ship, cancel, reinstate_for_late_payment,
  is_payment_expired,
}
use schick.Order.Repository
use schick.Order.Repository.{Repository, new_repository}
use schick.Order.Repository.Rows.{order_outbox, order_pending}
use schick.Order.World
use schick.Order.World.{
  StockItem, VariantInfo, ProductClient, World, Env, Task, StockCall, reserved, ◌>>=◌,
}
use schick.Order.World.Holds.{held, without, Settled}
use schick.Order.Service
use schick.Order.Service.Fingerprints.{
  CreateOrderInput, fingerprint, fingerprint_item, sort_items, insert_item, comes_before,
  hash_create_order_input,
}
use schick.Order.Service.Placing
use schick.Order.Service.Placing.{create_order}
use schick.Order.Service.Placing.Accounts.{Reserved, create_order-Settled}
use schick.Order.Service.Placing.Repeats.{create_order_again}
use schick.Order.Service.Paying
use schick.Order.Service.Paying.{mark_order_paid}
use schick.Order.Service.Paying.Results.{mark_order_paid_result}
use schick.Order.Service.Paying.Again.{mark_order_paid_again}
use schick.Order.Service.Closing
use schick.Order.Service.Closing.{cancel_order}
use schick.Order.Service.Requests.{
  Request, payment_succeeds, payment_is_canceled, expires, serve_all, serve_all_leaves,
}
use schick.Order.Checkout.{CheckoutSession, completed}
use schick.Order.Service.Sessions.{claim_session}
use schick.Order.Service.Sessions.Completing.{claim_session_closed}
use schick.Outbox
use schick.Outbox.{Event, Publisher}
use schick.Outbox.Memory
use schick.Outbox.Memory.{fresh_message, IsKeyed}
use schick.Outbox.Draining.{kept, drains, pending-drain, drains_empty}

-- What the runs compute through.
service_code : Unit {0}
unfolding trim trim_right trim_left is_space to_lower to_upper upper_rune lower_rune text_ltb ◌==◌
    ◌+ℤ◌ ◌-ℤ◌ ◌*ℤ◌ Word.add Word.sub Word.mul Word.wrap lookup insert decimal decimal6 zeros_onto
    digits_onto is_valid_carrier normalize_note normalize_shipment_tracking is_bad_item copy_items
    new_order mark_paid ship cancel reinstate_for_late_payment is_payment_expired
    Repository.idem_key Repository.next_order_id Repository.enqueue Repository.write_order
    Repository.claim_key Repository.save_with_outbox Repository.find_by_idempotency_key
    Repository.list_pending_outbox Repository.mark_outbox_published Repository.record_outbox_attempt
    Repository.get Repository.list_pending_payment_expired Repository.cancel_if_pending_expired
    Repository.cancel_if_paid_for_refund Repository.save_if Repository.save_paid_if_pending
    Repository.save_paid_if_canceled Repository.ship_if_paid World.pure World.fail World.lift
    World.attempt ◌>>=◌ World.require_task World.read_clock World.access World.reserve
    World.commit_reservation World.release_reservation World.let_go World.on_error World.or_undo
    held without Service.unavailable_from_order_item Service.resolve_variant Service.price_loop
    Service.price_items Service.stock_items Service.order_event Service.already_paid
    Service.marshal_order_event Service.outbox_events Service.stored_order Service.try_drain_outbox
    Service.reinstate_canceled_order Service.release_reservation_for_cancel
    Service.commit_reservation_for_ship fingerprint fingerprint_item sort_items insert_item
    comes_before hash_create_order_input Placing.apply_fulfillment_to_order
    Placing.load_idempotent_order Placing.replayed Placing.build_order Placing.save_failed
    Placing.save_new_order Placing.place_order create_order Paying.persist_paid
    Paying.drop_reinstated Paying.marked_paid Paying.paid_events Paying.pay_again Paying.reconcile
    Paying.persist Paying.pay_reinstated Paying.recheck Paying.pay_pending Paying.pay_order
    mark_order_paid Closing.updated_events Closing.ship_order Closing.save_status_change
    cancel_order Outbox.take Outbox.drop Outbox.mark_all Outbox.deliver Outbox.publish_all
    Outbox.drain Memory.put_entry Memory.pending_of Memory.list_until Memory.change_entry
service_code = tt

abbrev cap : OrderItem
cap = record {
  sku_id = codes "id-A";
  sku = codes "A";
  quantity = pos 2;
  unit_price_cents = pos 1;
  product_name = codes "";
  image_url = codes "";
  available = none;
}

abbrev shop : ProductClient
shop = record {
  get_variant = λ sku. err (failed (codes "down"));
  get_variant_by_sku_id = λ sku_id. ok (record {
    sku_id = sku_id;
    sku = codes "A";
    product_id = codes "P";
    unit_price_cents = pos 500;
    product_name = codes "cap";
    image_url = codes "";
  });
}

abbrev name_of : List StockCall → Text
name_of [] = codes "res_1"
name_of (_ ∷ _) = codes "res_2"

abbrev env : Env
env = record {
  others = λ _ r. r;
  fails = λ _. none;
  clock = λ n. n;
  reserve_stock = λ calls _ _. ok (name_of calls);
  commit_stock = λ _ _. none;
  release_stock = λ _ _. none;
  product = some shop;
  publisher = some (λ _ _ _ _. none);
  shipping_fee_krw = pos 30;
  checkout_ttl = pos 0;
  marshal = λ e. ok e.order_id;
  digest = λ f. f.customer_id;
  describe = λ _. codes "refused";
}

abbrev start : World
start = record { repo = new_repository; calls = []; tick = 0 }

abbrev no_address : ShippingAddress
no_address = record {
  postal_code = codes "";
  address_line1 = codes "";
  address_line2 = codes "";
  city = codes "";
  province = codes "";
  pccc = codes "";
}

abbrev input : CreateOrderInput
input = record {
  customer_id = codes "c1";
  items = cap ∷ [];
  coupon_code = codes "";
  discount_cents = pos 0;
  idempotency_key = codes " k1 ";
  recipient_name = codes "";
  recipient_phone = codes "";
  shipping_address = no_address;
  source_address_id = codes "";
  shipping_fee_krw = none;
}

abbrev placed : Order
placed = record {
  id = codes "ord_000001";
  customer_id = codes "c1";
  reservation_id = codes "res_1";
  items = record cap { unit_price_cents = pos 500; product_name = codes "cap" } ∷ [];
  status = pending;
  coupon_code = codes "";
  subtotal_cents = pos 1000;
  discount_cents = pos 0;
  shipping_fee_krw = pos 30;
  total_cents = pos 1030;
  recipient_name = codes "";
  recipient_phone = codes "";
  shipping_address = no_address;
  source_address_id = codes "";
  payment_id = codes "";
  paid_at = none;
  payment_due_at = 2 + default_payment_ttl;
  shipped_by = codes "";
  shipped_at = none;
  carrier = codes "";
  tracking_number = codes "";
  carrier_note = codes "";
  created_at = 2;
  updated_at = 2;
}

abbrev after_create : World
after_create = (create_order env input start).0

creates : create_order env input start ≡ (after_create, ok placed)
unfolding service_code
creates = refl

create_order-Settled_example :
    Settled Reserved (held after_create.calls) (create_order env input after_create)
create_order-Settled_example = create_order-Settled env input after_create

create_order_again_example :
    create_order env input after_create
    ≡ (record after_create { tick = after_create.tick + 2 }, ok placed)
unfolding service_code
create_order_again_example =
    create_order_again env input start after_create placed
      (record { others = λ _ r. refl; fails = λ _. refl }) refl refl refl creates

-- Paid, and told so again after that.
abbrev pays : World × Result Error Order
pays = mark_order_paid env (codes "ord_000001") (codes "pay_1") (pos 1030) after_create

abbrev bought : Order
bought = record placed {
  status = paid;
  payment_id = codes "pay_1";
  paid_at = some 8;
  updated_at = 8;
}

paid_run : pays ≡ (pays.0, ok bought)
unfolding service_code
paid_run = refl

mark_order_paid_result_example :
    (Service.already_paid bought (codes "pay_1") ≡ true)
    ⊎ ((bought.status ≡ paid)
        × (bought.payment_id ≡ trim (codes "pay_1"))
        × (bought.total_cents ≡ pos 1030))
mark_order_paid_result_example =
    mark_order_paid_result env (codes "ord_000001") (codes "pay_1") (pos 1030) after_create pays.0
      bought paid_run

mark_order_paid_again_example :
    mark_order_paid env (codes "ord_000001") (codes "pay_1") (pos 1030) pays.0
    ≡ (record pays.0 { tick = pays.0.tick + 1 }, ok bought)
unfolding service_code
mark_order_paid_again_example =
    mark_order_paid_again env (codes "ord_000001") (codes "pay_1") (pos 1030) after_create pays.0
      bought (record { others = λ _ r. refl; fails = λ _. refl })
      (λ stored h. ap (λ x. elim x [ none ↦ codes "ord_000001" | some o ↦ o.id ]) (sym h)) refl
      paid_run

abbrev sent : Order
sent = record bought { status = in_transit; shipped_by = codes "m"; shipped_at = some 20 }

abbrev on_its_way : World
on_its_way = record {
  repo = record new_repository { orders = (codes "ord_000001", sent) ∷ [] };
  calls = [];
  tick = 0;
}

abbrev requests : List Request
requests =
    payment_is_canceled (codes "ord_000001") (codes "pay_1") (some (pos 0))
    ∷ expires
    ∷ payment_succeeds (codes "ord_000001") (codes "pay_2") (pos 1030)
    ∷ []

serve_all_leaves_example :
    lookup (codes "ord_000001") (serve_all env requests on_its_way).repo.orders ≡ some sent
unfolding service_code
serve_all_leaves_example =
    serve_all_leaves env (codes "ord_000001") sent requests on_its_way refl (λ n r h. h) refl

-- CancelOrder, which saves with no condition, between whose read and save another request ships.
abbrev shipping_between : ℕ → Repository → Repository
shipping_between n r = if eqb n 4 then (Repository.ship_if_paid r sent []).0 else r

abbrev crossing : Env
crossing = record env { others = shipping_between }

abbrev to_be_shipped : World
to_be_shipped = record {
  repo = record new_repository { orders = (codes "ord_000001", bought) ∷ [] };
  calls = [];
  tick = 0;
}

-- The goods are on their way, and the order is stored as canceled.
overwrites :
    (Repository.ship_if_paid to_be_shipped.repo sent []).1 ≡ true
    × ((cancel_order crossing (codes "ord_000001") to_be_shipped).0.repo.orders
        ≡ (codes "ord_000001", record bought { status = canceled; updated_at = 1 }) ∷ [])
unfolding service_code
overwrites = (refl, refl)

-- A late payment whose save meets another payment, which is refunded before the order is read again.
abbrev passing : ℕ → Repository → Repository
passing n r =
    if eqb n 5
    then record r {
      orders = (codes "ord_000001", record bought { payment_id = codes "pay_2" }) ∷ [];
    }
    else if eqb n 6
    then record r {
      orders =
          (codes "ord_000001", record bought { payment_id = codes "pay_2"; status = canceled })
          ∷ [];
    }
    else r

abbrev too_late : World
too_late = record {
  repo = record new_repository {
    orders = (codes "ord_000001", record placed { status = canceled }) ∷ [];
  };
  calls = [];
  tick = 0;
}

-- The order is paid with one reservation, and the other stays held.
leaks :
    held
      (mark_order_paid
        (record env { others = passing })
        (codes "ord_000001")
        (codes "pay_1")
        (pos 1030)
        too_late).0.calls
    ≡ codes "res_2" ∷ codes "res_1" ∷ []
unfolding service_code
leaks = refl

abbrev told : Text → Event
told subject = record { aggregate_id = codes "ord_000001"; subject = subject; payload = codes "{}" }

abbrev rows : Repository
rows = record new_repository {
  outbox =
      record { msg = fresh_message (pos 1) (told (codes "order.created")) 3; published = true }
      ∷ record { msg = fresh_message (pos 2) (told (codes "order.paid")) 4; published = false }
      ∷ record {
        msg = fresh_message (pos 3) (told (codes "order.status_updated")) 4;
        published = false;
      }
      ∷ [];
}

-- It takes the first event and refuses the second.
abbrev half_down : Publisher Error
half_down n subject payload = if eqb n 0 then none else some (failed (codes "down"))

abbrev up : Publisher Error
up n subject payload = none

rows_IsKeyed : IsKeyed rows.outbox
rows_IsKeyed = ((λ e. cc e, (λ e. cc e, tt)), ((λ e. cc e, tt), (tt, tt)))

pending-drain_example :
    IsKeyed (Outbox.drain order_outbox (λ _. codes "down") (some half_down) rows).0.outbox
    × (order_pending (Outbox.drain order_outbox (λ _. codes "down") (some half_down) rows).0
        ≡ kept (λ _. codes "down") half_down 0 (Outbox.take 50 (order_pending rows))
          ++ Outbox.drop 50 (order_pending rows))
pending-drain_example = pending-drain order_outbox (λ _. codes "down") half_down rows rows_IsKeyed

drains_empty_example :
    order_pending (drains order_outbox (λ _. codes "down") ((half_down ∷ []) ++ (up ∷ [])) rows)
    ≡ []
unfolding service_code
drains_empty_example =
    drains_empty order_outbox (λ _. codes "down") (half_down ∷ []) (up ∷ []) rows rows_IsKeyed
      ((λ n subject payload. refl), tt) (omega arith)

abbrev session : CheckoutSession
session = record {
  id = codes "cs_000001";
  customer_id = codes "c1";
  items = cap ∷ [];
  unavailable_items = [];
  status = completed;
  coupon_code = codes "";
  subtotal_cents = pos 2;
  discount_cents = pos 0;
  shipping_fee_krw = pos 0;
  total_cents = pos 2;
  order_id = codes "ord_000007";
  expires_at = 100;
  created_at = 1;
  updated_at = 1;
}

abbrev completed_before : World
completed_before = record {
  repo = record new_repository { sessions = (codes "cs_000001", session) ∷ [] };
  calls = [];
  tick = 0;
}

claim_session_closed_example :
    (claim_session env session placed completed_before).1
    ≢ ok (record { session = session; order = placed })
unfolding service_code
claim_session_closed_example =
    claim_session_closed env session placed completed_before
      (record { session = session; order = placed }) (λ n r h. h) (session, refl, λ e. cc e)
