-- ===== src/Order/Repository.antt =====
-- order/pkg/infra/memory/repository.go: orders, checkout sessions, idempotency keys and the outbox, in
-- memory. A method holds the lock while it runs, so a call is one step; a context that is done before it
-- starts is an answer of the caller's environment. Go ranges over a map in an order of its choice; here it
-- is the order of the list.
pub mod Rows
pub mod Updates
use schick.Prelude.{
  ℕ, zero, suc, ◌+◌, ◌≡◌, ◌≢◌, refl, ℤ, pos, Bool, true, false, not, ◌&&◌, ◌||◌, List, [], ◌∷◌,
  ◌++◌, Option, none, some, Text, codes, ◌==◌, is_empty, trim, if◌then◌else◌, ltb, Result, ok, err,
  lookup, insert, padded,
}
use schick.Prelude.Word
use schick.Order.{
  Error, not_found, idempotency_conflict, OrderStatus, pending, paid, canceled, OrderItem, Order,
}
use schick.Order.Lifecycle.{is_pending, is_paid, is_canceled, is_payment_expired}
use schick.Order.Checkout.{CheckoutSession, is_open, completed, expired, CheckoutStatus}
use schick.Outbox.{Event, Message}
use schick.Outbox.Memory.{
  Entry, fresh_message, put_entry, list_until, change_entry, as_published, as_attempted,
}

pub record IdempotencyRecord : Type 0 where
  pub key : Text
  pub customer_id : Text
  pub order_id : Text
  pub request_hash : Text

pub record IdempotencyEntry : Type 0 where
  pub order_id : Text
  pub request_hash : Text

pub record Repository : Type 0 where
  pub orders : List (Text × Order)
  pub sessions : List (Text × CheckoutSession)
  pub idempotency : List (Text × IdempotencyEntry)
  pub outbox : List Entry
  pub next_id : ℤ
  pub next_outbox_id : ℤ

abbrev pub new_repository : Repository
new_repository = record {
  orders = [];
  sessions = [];
  idempotency = [];
  outbox = [];
  next_id = pos 0;
  next_outbox_id = pos 0;
}

-- The two texts with a NUL between.
unfoldable pub idem_key : Text → Text → Text
idem_key customer_id key = customer_id ++ (0 ∷ key)

unfoldable pub next_order_id : Repository → Repository × Text
next_order_id r =
    let n = Word.add r.next_id (pos 1) in (record r { next_id = n }, codes "ord_" ++ padded n)

unfoldable pub next_checkout_session_id : Repository → Repository × Text
next_checkout_session_id r =
    let n = Word.add r.next_id (pos 1) in (record r { next_id = n }, codes "cs_" ++ padded n)

-- The loop over the events, which each method that writes an order ends with.
unfoldable pub enqueue : List Event → ℕ → Repository → Repository
enqueue [] created_at r = r
enqueue (event ∷ events) created_at r =
    let n = Word.add r.next_outbox_id (pos 1) in
    enqueue events created_at (record r {
      next_outbox_id = n;
      outbox =
          put_entry (record { msg = fresh_message n event created_at; published = false }) r.outbox;
    })

-- `r.orders[id] = order`, with the events behind it
unfoldable pub write_order : Text → Order → List Event → ℕ → Repository → Repository
write_order id order events created_at r =
    enqueue events created_at (record r { orders = insert id order r.orders })

-- A key that is there lets only its own order and request through.
abbrev pub claim_with :
    Order → IdempotencyRecord → Repository → Option IdempotencyEntry → Result Error Repository
claim_with order idem r none = ok (record r {
  idempotency =
      insert (idem_key idem.customer_id idem.key)
        (record { order_id = order.id; request_hash = idem.request_hash }) r.idempotency;
})
claim_with order idem r (some existing) =
    if not (existing.request_hash == idem.request_hash)
    then err idempotency_conflict
    else if not (existing.order_id == order.id)
    then err idempotency_conflict
    else ok r

unfoldable pub claim_key : Order → IdempotencyRecord → Repository → Result Error Repository
claim_key order idem r =
    claim_with order idem r (lookup (idem_key idem.customer_id idem.key) r.idempotency)

abbrev pub claim : Order → Option IdempotencyRecord → Repository → Result Error Repository
claim order none r = ok r
claim order (some idem) r = if not (is_empty idem.key) then claim_key order idem r else ok r

abbrev pub written :
    Repository
    → Order
    → List Event
    → ℕ
    → Result Error Repository
    → Repository × Result Error (Unit {0})
written r order events now (err e) = (r, err e)
written r order events now (ok claimed) = (write_order order.id order events now claimed, ok tt)

unfoldable pub save_with_outbox :
    Repository
    → Order
    → Option IdempotencyRecord
    → List Event
    → ℕ
    → Repository × Result Error (Unit {0})
save_with_outbox r order idem events now = written r order events now (claim order idem r)

unfoldable pub save : Repository → Order → ℕ → Repository × Result Error (Unit {0})
save r order now = save_with_outbox r order none [] now

abbrev pub found_record : Text → Text → Option IdempotencyEntry → Result Error IdempotencyRecord
found_record customer_id key none = err not_found
found_record customer_id key (some entry) = ok (record {
  key = key;
  customer_id = customer_id;
  order_id = entry.order_id;
  request_hash = entry.request_hash;
})

unfoldable pub find_by_idempotency_key : Repository → Text → Text → Result Error IdempotencyRecord
find_by_idempotency_key r customer_id key =
    let c = trim customer_id in
    let k = trim key in
    if is_empty c || is_empty k
    then err not_found
    else found_record c k (lookup (idem_key c k) r.idempotency)

-- `if limit <= 0 { limit = 50 }`
abbrev pub limit_or_default : ℕ → ℕ
limit_or_default zero = 50
limit_or_default (suc n) = suc n

unfoldable pub list_pending_outbox : Repository → ℕ → Result Error (List Message)
list_pending_outbox r limit = ok (list_until (limit_or_default limit) r.outbox)

-- The rows changed, or ErrNotFound.
abbrev pub with_rows : Repository → Option (List Entry) → Repository × Option Error
with_rows r none = (r, some not_found)
with_rows r (some es) = (record r { outbox = es }, none)

unfoldable pub mark_outbox_published : Repository → ℤ → Repository × Option Error
mark_outbox_published r id = with_rows r (change_entry id as_published r.outbox)

unfoldable pub record_outbox_attempt : Repository → ℤ → Text → Repository × Option Error
record_outbox_attempt r id message = with_rows r (change_entry id (as_attempted message) r.outbox)

unfoldable pub get : Repository → Text → Result Error Order
get r id = elim (lookup id r.orders) [ none ↦ err not_found | some order ↦ ok order ]

-- The orders of the map that pass a test.
abbrev pub orders_where : (Order → Bool) → List (Text × Order) → List Order
orders_where test [] = []
orders_where test ((_, order) ∷ rest) =
    if test order then order ∷ orders_where test rest else orders_where test rest

unfoldable pub list_by_customer : Repository → Text → List Order
list_by_customer r customer_id = orders_where (λ o. o.customer_id == customer_id) r.orders

unfoldable pub list_all : Repository → List Order
list_all r = orders_where (λ _. true) r.orders

unfoldable pub list_pending_payment_expired : Repository → ℕ → List Order
list_pending_payment_expired r now =
    orders_where (λ o. is_pending o.status && ltb o.payment_due_at now) r.orders

unfoldable pub save_checkout_session : Repository → CheckoutSession → Repository
save_checkout_session r session = record r { sessions = insert session.id session r.sessions }

unfoldable pub get_checkout_session : Repository → Text → Result Error CheckoutSession
get_checkout_session r id = elim (lookup id r.sessions) [ none ↦ err not_found | some s ↦ ok s ]

abbrev pub is_open_status : CheckoutStatus → Bool
is_open_status is_open = true
is_open_status _ = false

abbrev pub complete_found :
    Repository → Text → Text → ℕ → Option CheckoutSession → Repository × Bool
complete_found r session_id order_id now none = (r, false)
complete_found r session_id order_id now (some s) =
    if not (is_open_status s.status)
    then (r, false)
    else if ltb s.expires_at now
    then (
      record r { sessions = insert session_id (record s { status = expired }) r.sessions },
      false,
    )
    else (
      record r {
        sessions =
            insert session_id
              (record s { status = completed; order_id = order_id; updated_at = now }) r.sessions;
      },
      true,
    )

unfoldable pub complete_checkout_session_if_open : Repository → Text → Text → ℕ → Repository × Bool
complete_checkout_session_if_open r session_id order_id now =
    complete_found r session_id order_id now (lookup session_id r.sessions)

abbrev pub as_canceled : Order → ℕ → Order
as_canceled order now = record order { status = canceled; updated_at = now }

-- The order is `none` where it is nil.
unfoldable pub cancel_if_pending_expired :
    Repository → Text → ℕ → List Event → Repository × (Option Order × Bool)
cancel_if_pending_expired r order_id now events = elim (lookup order_id r.orders) [
  | none ↦ (r, (none, false))
  | some order ↦
      if not (is_pending order.status) || not (ltb order.payment_due_at now)
      then (r, (none, false))
      else (
        write_order order_id (as_canceled order now) events now r,
        (some (as_canceled order now), true),
      )
]

unfoldable pub cancel_if_paid_for_refund :
    Repository → Text → Text → ℕ → List Event → Repository × (Option Order × Bool)
cancel_if_paid_for_refund r order_id payment_id now events = elim (lookup order_id r.orders) [
  | none ↦ (r, (none, false))
  | some order ↦
      if not (is_paid order.status)
      then (r, (some order, false))
      else if is_empty payment_id || not (order.payment_id == payment_id)
      then (r, (some order, false))
      else (
        write_order order_id (as_canceled order now) events now r,
        (some (as_canceled order now), true),
      )
]

-- SavePaidIfPending, SavePaidIfCanceled and ShipIfPaid differ in the status that they ask for.
unfoldable pub save_if : (OrderStatus → Bool) → Repository → Order → List Event → Repository × Bool
save_if asked r order events = elim (lookup order.id r.orders) [
  | none ↦ (r, false)
  | some existing ↦
      if not (asked existing.status)
      then (r, false)
      else (write_order order.id order events order.updated_at r, true)
]

unfoldable pub save_paid_if_pending : Repository → Order → List Event → Repository × Bool
save_paid_if_pending r order events = save_if is_pending r order events

unfoldable pub save_paid_if_canceled : Repository → Order → List Event → Repository × Bool
save_paid_if_canceled r order events = save_if is_canceled r order events

unfoldable pub ship_if_paid : Repository → Order → List Event → Repository × Bool
ship_if_paid r order events = save_if is_paid r order events
