-- ===== src/Order/Service/Placing/Accounts.antt =====
-- The reservations that CreateOrder of order/pkg/service/service.go leaves behind.
use schick.Prelude.{
  ℕ, ◌≡◌, refl, ℤ, Bool, true, false, List, [], ◌∷◌, Option, none, some, Text, trim, inl, inr, ◌⊎◌,
  if◌then◌else◌, Result, ok, err, arith,
}
use schick.Order.{Error, idempotency_conflict, OrderItem, Order}
use schick.Order.Lifecycle.{new_order}
use schick.Order.Shipping.{apply_fulfillment, FulfillmentSnapshot}
use schick.Order.World.{Env, World, Task}
use schick.Order.World.Holds.{
  held, Quiet, Steady, HoldsOf, Yields, Settled, Spends, Nothing, Quiet-pure, Quiet-fail,
  Quiet-lift, Quiet-attempt, Quiet-if, Quiet-bind, Steady-attempt, Steady-bind, Steady-pure,
  Spends-if, Spends-cast, Spends-pure, Spends-fail, Spends-bind, Spends-after_steady,
  Spends-after_quiet, Yields-bind, Yields-pure, Yields-lift, Yields-any,
}
use schick.Order.World.Undoing.{
  Quiet-read_clock, Steady-read_clock, Quiet-access, Spends-reserve, Spends-let_go, Spends-or_undo,
}
use schick.Order.Service.{
  stock_items, outbox_events, marshal_order_event, stored_order, try_drain_outbox,
}
use schick.Order.Service.Fingerprints.{CreateOrderInput, hash_create_order_input}
use schick.Order.Service.Placing.{
  fulfilled_by, has_no_recipient, snapshot_of, apply_fulfillment_to_order, load_idempotent_order,
  of_replay, replayed, build_order, of_second_replay, save_failed, after_save, save_new_order,
  place_order, unless_replayed, create_order, same_request,
}
use schick.Order.Repository.{IdempotencyRecord}

-- The order that comes back is one that was there, and nothing is held for it, or it has the one
-- reservation that is held.
abbrev pub Reserved : Order → List Text → Type 0
Reserved order l = (l ≡ []) ⊎ ((id : Text) × (l ≡ id ∷ []) × (order.reservation_id ≡ trim id))

abbrev ReservedAs : Text → Order → Type 0
ReservedAs id order = order.reservation_id ≡ trim id

HoldsOf-intro :
    {A : Type 0} (P : A → Type 0) (r : Result Error A) → ((a : A) → r ≡ ok a → P a) → HoldsOf P r
HoldsOf-intro P (ok a) h = h a refl
HoldsOf-intro P (err e) h = tt

-- Both branches.
HoldsOf-if :
    {A : Type 0} (P : A → Type 0) (b : Bool) (r s : Result Error A)
    → HoldsOf P r
    → HoldsOf P s
    → HoldsOf P (if b then r else s)
HoldsOf-if P true r s p q = p
HoldsOf-if P false r s p q = q

new_order-ReservedAs :
    (id customer reservation : Text) (items : List OrderItem) (coupon : Text) (discount fee : ℤ)
    (now : ℕ) (o : Order)
    → new_order id customer reservation items coupon discount fee now ≡ ok o
    → ReservedAs reservation o
unfolding new_order
new_order-ReservedAs id customer reservation items coupon discount fee now o h = ground arith

module _ (id : Text) (made : Order) (h : ReservedAs id made) where
  fulfilled_ReservedAs :
      (r : Result Error FulfillmentSnapshot) → HoldsOf (ReservedAs id) (fulfilled_by made r)
  unfolding apply_fulfillment
  fulfilled_ReservedAs (ok snapshot) = h
  fulfilled_ReservedAs (err e) = tt

  apply_ReservedAs :
      (input : CreateOrderInput) → HoldsOf (ReservedAs id) (apply_fulfillment_to_order made input)
  unfolding apply_fulfillment_to_order
  apply_ReservedAs input =
      HoldsOf-if (ReservedAs id) (has_no_recipient input) (ok made)
        (fulfilled_by made (snapshot_of input)) h (fulfilled_ReservedAs (snapshot_of input))

module _ (env : Env) where
  same_request-Quiet : (hash : Text) (rec : IdempotencyRecord) → Quiet (same_request hash rec)
  same_request-Quiet hash rec = Quiet-if _ _ _ (Quiet-fail _) (Quiet-pure rec)

  load_Quiet :
      (customer_id key hash : Text) → Quiet (load_idempotent_order env customer_id key hash)
  unfolding load_idempotent_order stored_order
  load_Quiet customer_id key hash =
      Quiet-bind _ _ (Quiet-access env _)
        (λ found. Quiet-bind _ _ (same_request-Quiet hash found) (λ rec. Quiet-access env _))

  of_replay-Quiet : (r : Result Error Order) → Quiet (of_replay env r)
  of_replay-Quiet (ok o) = Quiet-pure (some o)
  of_replay-Quiet (err e) = Quiet-if _ _ _ (Quiet-pure none) (Quiet-fail e)

  replayed-Quiet :
      (input : CreateOrderInput) (key hash : Text) → Quiet (replayed env input key hash)
  unfolding replayed
  replayed-Quiet input key hash =
      Quiet-if _ _ _
        (Quiet-bind _ _ (Quiet-attempt _ (load_Quiet input.customer_id key hash)) of_replay-Quiet)
        (Quiet-pure none)

  pub outbox_events-Quiet :
      (order : Order) (subjects : List Text) → Quiet (outbox_events env order subjects)
  unfolding outbox_events marshal_order_event
  outbox_events-Quiet order [] = Quiet-pure []
  outbox_events-Quiet order (subject ∷ subjects) =
      Quiet-bind _ _ (Quiet-bind _ _ (Quiet-read_clock env) (λ now. Quiet-lift _))
        (λ payload. Quiet-bind _ _ (outbox_events-Quiet order subjects) (λ rest. Quiet-pure _))

  build_order-Quiet :
      (input : CreateOrderInput) (order_id id : Text) (priced : List OrderItem)
      → Quiet (build_order env input order_id id priced)
  unfolding build_order
  build_order-Quiet input order_id id priced = Quiet-bind _ _ (Quiet-read_clock env) (λ now.
      Quiet-bind _ _ (Quiet-lift _) (λ made.
        Quiet-bind _ _ (Quiet-lift _)
          (λ order. Quiet-bind _ _ (outbox_events-Quiet order _) (λ events. Quiet-pure _))))

  build_order_Yields :
      (input : CreateOrderInput) (order_id id : Text) (priced : List OrderItem)
      → Yields (λ built. ReservedAs id built.0) (build_order env input order_id id priced)
  unfolding build_order
  build_order_Yields input order_id id priced =
      Yields-bind _ _ (λ _. Unit {0}) _ (Yields-any _)
        (λ now _.
          Yields-bind _ _ (ReservedAs id) _
            (Yields-lift (ReservedAs id) _
              (HoldsOf-intro (ReservedAs id) _ (new_order-ReservedAs _ _ id priced _ _ _ now)))
            (λ made h.
              Yields-bind _ _ (ReservedAs id) _
                (Yields-lift (ReservedAs id) _ (apply_ReservedAs id made h input))
                (λ order k.
                  Yields-bind _ _ (λ _. Unit {0}) _ (Yields-any _)
                    (λ events _. Yields-pure (λ built. ReservedAs id built.0) (order, events) k))))

  pub try_drain_Steady : Steady (try_drain_outbox env)
  unfolding try_drain_outbox
  try_drain_Steady = record {
    at = λ w. (Steady-bind _ _ (Steady-attempt _ (Quiet-access env _)) (λ _. Steady-pure tt)).at w;
  }

  second_replay_Spends :
      (e : Error) (r : Result Error Order) → Spends [] (of_second_replay env e r) Reserved
  second_replay_Spends e (ok existing) = Spends-pure [] existing Reserved (inl refl)
  second_replay_Spends e (err idempotency_conflict) = Spends-fail _ _
  second_replay_Spends e (err _) = Spends-fail e _

  save_failed_Spends :
      (input : CreateOrderInput) (key hash id : Text) (e : Error)
      → Spends (id ∷ []) (save_failed env input key hash id e) Reserved
  unfolding save_failed
  save_failed_Spends input key hash id e =
      Spends-bind _ _ (id ∷ []) Nothing Reserved (Spends-let_go env id) (λ _ l same.
        Spends-cast [] l same (
          Spends-if _ _ _
            (Spends-after_quiet _ _ Reserved
              (Quiet-attempt _ (load_Quiet input.customer_id key hash)) (second_replay_Spends e))
            (Spends-fail e Reserved)))

  after_save_Spends :
      (input : CreateOrderInput) (key hash id : Text) (order : Order) (r : Result Error (Unit {0}))
      → ReservedAs id order
      → Spends (id ∷ []) (after_save env input key hash id order r) Reserved
  after_save_Spends input key hash id order (ok _) h =
      Spends-after_steady _ _ (id ∷ []) Reserved try_drain_Steady
        (λ _. Spends-pure (id ∷ []) order Reserved (inr (id, refl, h)))
  after_save_Spends input key hash id order (err e) h = save_failed_Spends input key hash id e

  place_order_Spends :
      (input : CreateOrderInput) (key hash : Text)
      → Spends [] (place_order env input key hash) Reserved
  unfolding place_order save_new_order
  place_order_Spends input key hash = Spends-after_quiet _ _ Reserved (Quiet-lift _) (λ priced.
      Spends-after_quiet _ _ Reserved (Quiet-access env _) (λ order_id.
        Spends-bind _ _ [] _ Reserved (Spends-reserve env order_id (stock_items priced))
          (λ id l same. Spends-cast (id ∷ []) l same (
            Spends-bind _ _ (id ∷ []) _ Reserved
              (Spends-or_undo env id (λ built. ReservedAs id built.0) _
                (build_order-Quiet input order_id id priced)
                (build_order_Yields input order_id id priced))
              (λ (order, events) k (h, same'). Spends-cast (id ∷ []) k same' (
                Spends-after_steady _ _ (id ∷ []) Reserved (Steady-read_clock env) (λ at_time.
                  Spends-after_steady _ _ (id ∷ []) Reserved (Steady-attempt _ (Quiet-access env _))
                    (λ saved. after_save_Spends input key hash id order saved h))))))))

  unless_replayed_Spends :
      (m : Task Order) (found : Option Order)
      → Spends [] m Reserved
      → Spends [] (unless_replayed env m found) Reserved
  unless_replayed_Spends m none h = h
  unless_replayed_Spends m (some existing) h = Spends-pure [] existing Reserved (inl refl)

  pub create_order-Spends : (input : CreateOrderInput) → Spends [] (create_order env input) Reserved
  unfolding create_order
  create_order-Spends input =
      Spends-after_quiet _ _ Reserved
        (replayed-Quiet input (trim input.idempotency_key) (hash_create_order_input env input))
        (λ found. unless_replayed_Spends _ found (place_order_Spends input _ _))

-- Whatever the stock service, the catalog, the broker and the other requests do, and whichever call
-- fails: a CreateOrder that fails leaves no reservation of its own that it has not asked the stock
-- service to release, and one that succeeds leaves none but the one that the returned order names.
pub create_order-Settled :
    (env : Env) (input : CreateOrderInput) (w : World)
    → Settled Reserved (held w.calls) (create_order env input w)
create_order-Settled env input w = (create_order-Spends env input).at w (held w.calls) refl
