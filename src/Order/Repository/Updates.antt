-- ===== src/Order/Repository/Updates.antt =====
-- What the conditional updates of order/pkg/infra/memory/repository.go leave alone.
use schick.Prelude.{
  ℕ, ◌≡◌, ◌≢◌, refl, sym, ap, ◌∙◌, Bool, true, not, List, [], ◌∷◌, some, Text, ◌==◌, ltb, ◌||◌,
  eq_iff, is_empty, inl, inr, arith, if◌then◌else◌, Bool-cases, Option-cases, lookup, lookup-insert,
}
use schick.Order.{OrderStatus, pending, paid, canceled, Order}
use schick.Order.Lifecycle.{is_pending, is_paid, is_canceled}
use schick.Order.Lifecycle.Invariant.{has_left}
use schick.Order.Repository.{
  Repository, enqueue, write_order, save_if, save_paid_if_pending, save_paid_if_canceled,
  ship_if_paid, cancel_if_pending_expired, cancel_if_paid_for_refund, as_canceled,
}
use schick.Outbox.{Event}

-- The order of an id is the one given.
abbrev pub Stands : Text → Order → Repository → Type 0
Stands id o r = lookup id r.orders ≡ some o

pub enqueue_orders :
    (events : List Event) (now : ℕ) (r : Repository) → (enqueue events now r).orders ≡ r.orders
unfolding enqueue
enqueue_orders [] now r = refl
enqueue_orders (event ∷ events) now r = enqueue_orders events now _

pub lookup-write_order :
    (id : Text) (order : Order) (events : List Event) (now : ℕ) (r : Repository) (k : Text)
    → lookup k (write_order id order events now r).orders
      ≡ (if id == k then some order else lookup k r.orders)
unfolding write_order
lookup-write_order id order events now r k =
    ap (lookup k) (enqueue_orders events now _) ∙ lookup-insert id k order r.orders

some_status : (a b : Order) → some a ≡ some b → a.status ≡ b.status
some_status a b h = let same : a ≡ b = cc in ap (λ (o : Order). o.status) same

-- An order that an update asks of another status stands after it.
Stands-write_order :
    (id : Text) (o : Order) (key : Text) (order old : Order) (events : List Event) (now : ℕ)
    (r : Repository)
    → lookup key r.orders ≡ some old
    → old.status ≢ o.status
    → Stands id o r
    → Stands id o (write_order key order events now r)
Stands-write_order id o key order old events now r found other h = elim (Bool-cases (key == id)) [
  | inl e ↦
      let same = ap (λ k. lookup k r.orders) ((eq_iff key id).0 e) in
      absurd (other (some_status old o (sym found ∙ same ∙ h)))
  | inr e ↦ rw (lookup-write_order key order events now r id, e) h
]

module _ (id : Text) (o : Order) (left : has_left o.status ≡ true) where
  Stands-save_if :
      (asked : OrderStatus → Bool) (order : Order) (events : List Event) (r : Repository)
      → ((s : OrderStatus) → asked s ≡ true → s ≢ o.status)
      → Stands id o r
      → Stands id o (save_if asked r order events).0
  unfolding save_if
  Stands-save_if asked order events r asks h = elim (Option-cases (lookup order.id r.orders)) [
    | inl e ↦ rw (save_if, e) h
    | inr (old, e) ↦
        rw (save_if, e)
          (elim (Bool-cases (asked old.status)) [
            | inl t ↦ rw t (
                Stands-write_order id o order.id order old events order.updated_at r e
                  (asks old.status t) h)
            | inr t ↦ rw t h
          ])
  ]

  asks_pending : (s : OrderStatus) → is_pending s ≡ true → s ≢ o.status
  asks_pending pending t e = cc (ap has_left e)
  asks_pending s t e = ground arith

  asks_paid : (s : OrderStatus) → is_paid s ≡ true → s ≢ o.status
  asks_paid paid t e = cc (ap has_left e)
  asks_paid s t e = ground arith

  asks_canceled : (s : OrderStatus) → is_canceled s ≡ true → s ≢ o.status
  asks_canceled canceled t e = cc (ap has_left e)
  asks_canceled s t e = ground arith

  pub Stands-save_paid_if_pending :
      (order : Order) (events : List Event) (r : Repository)
      → Stands id o r
      → Stands id o (save_paid_if_pending r order events).0
  unfolding save_paid_if_pending
  Stands-save_paid_if_pending order events r h =
      Stands-save_if is_pending order events r asks_pending h

  pub Stands-save_paid_if_canceled :
      (order : Order) (events : List Event) (r : Repository)
      → Stands id o r
      → Stands id o (save_paid_if_canceled r order events).0
  unfolding save_paid_if_canceled
  Stands-save_paid_if_canceled order events r h =
      Stands-save_if is_canceled order events r asks_canceled h

  pub Stands-ship_if_paid :
      (order : Order) (events : List Event) (r : Repository)
      → Stands id o r
      → Stands id o (ship_if_paid r order events).0
  unfolding ship_if_paid
  Stands-ship_if_paid order events r h = Stands-save_if is_paid order events r asks_paid h

  pub Stands-cancel_if_pending_expired :
      (key : Text) (now : ℕ) (events : List Event) (r : Repository)
      → Stands id o r
      → Stands id o (cancel_if_pending_expired r key now events).0
  unfolding cancel_if_pending_expired
  Stands-cancel_if_pending_expired key now events r h = elim (Option-cases (lookup key r.orders)) [
    | inl e ↦ rw (cancel_if_pending_expired, e) h
    | inr (old, e) ↦
        rw (cancel_if_pending_expired, e)
          (elim (Bool-cases (not (is_pending old.status) || not (ltb old.payment_due_at now))) [
            | inl t ↦ rw t h
            | inr t ↦ rw t (
                Stands-write_order id o key (as_canceled old now) old events now r e
                  (asks_pending old.status (ground arith)) h)
          ])
  ]

  pub Stands-cancel_if_paid_for_refund :
      (key payment_id : Text) (now : ℕ) (events : List Event) (r : Repository)
      → Stands id o r
      → Stands id o (cancel_if_paid_for_refund r key payment_id now events).0
  unfolding cancel_if_paid_for_refund
  Stands-cancel_if_paid_for_refund key payment_id now events r h =
      elim (Option-cases (lookup key r.orders)) [
        | inl e ↦ rw (cancel_if_paid_for_refund, e) h
        | inr (old, e) ↦
            rw (cancel_if_paid_for_refund, e)
              (elim (Bool-cases (not (is_paid old.status))) [
                | inl t ↦ rw t h
                | inr t ↦
                    rw t
                      (elim (Bool-cases
                        (is_empty payment_id || not (old.payment_id == payment_id))) [
                          | inl u ↦ rw u h
                          | inr u ↦ rw u (
                              Stands-write_order id o key (as_canceled old now) old events now r e
                                (asks_paid old.status (ground arith)) h)
                        ])
              ])
      ]
