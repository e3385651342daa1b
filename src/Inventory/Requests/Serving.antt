-- ===== src/Inventory/Requests/Serving.antt =====
-- The inventory service's calls on its store (product/pkg/service/inventory_service.go), from an empty
-- store on.
use schick.Prelude.{
  ℕ, ◌-◌, ◌^◌, ◌<◌, ◌≡◌, ◌≢◌, refl, ℤ, pos, ltb_ℤ, ◌<ℤ◌, List, [], Option, some, arith, Text,
  is_empty, trim, inl, inr, Option-cases, Result, ok, err, Result-cases, if_rule, lookup,
}
use schick.Prelude.Word.{IsInt64}
use schick.Inventory.{
  StoreError, StockItem, ReservationStatus, active, committed, released, Reservation, ProductStore,
  Store, ensure_item, set_quantity, adjust_quantity,
}
use schick.Inventory.Reserving.{create_reservation, finalize_reservation}
use schick.Inventory.Balance.{
  held, IsStocked, Keeps, ensure_item-IsStocked, set_quantity-IsStocked, adjust_quantity-IsStocked,
}
use schick.Inventory.Balance.Steps.{create_reservation-IsStocked}
use schick.Inventory.Balance.Closing.{finalize_reservation_lem}
use schick.Inventory.Service.{
  Error, SkuRef, ReservationItemRef, VariantResolver, answer, passed, translated, resolve, upserted,
  adjusted, upsert_item, adjust_stock, resolve_reservation_items, reserve, close_reservation,
  release_reservation, commit_reservation,
}
use schick.Inventory.Requests.{requested, resolve_reservation_items_lem}

pub data Call : Type 0 where
  upserts : SkuRef → ℤ → Call
  adjusts : SkuRef → ℤ → Call
  reserves : Text → List ReservationItemRef → Call
  releases : Text → Call
  commits : Text → Call

-- A Go `int` is given, and a request is for less than 2^63 in all.
abbrev pub IsInRange : Call → Type 0
IsInRange (upserts ref quantity) = IsInt64 quantity
IsInRange (reserves order_id items) = requested items < 2 ^ 63
IsInRange _ = Unit

answer-IsStocked :
    {A : Type 0} (s : Store) (r : Result StoreError (Store × A))
    → IsStocked s
    → Keeps r
    → IsStocked (answer s (passed r)).0
answer-IsStocked s (ok (t, a)) h k = k
answer-IsStocked s (err e) h k = h

translated-IsStocked :
    {A : Type 0} (s : Store) (r : Result StoreError (Store × A))
    → IsStocked s
    → Keeps r
    → IsStocked (answer s (translated r)).0
translated-IsStocked s (ok (t, a)) h k = k
translated-IsStocked s (err e) h k = h

finalize_reservation-IsStocked :
    (s : Store) (id : Text) (status : ReservationStatus) (now : ℕ)
    → IsStocked s
    → status ≢ active
    → IsStocked (finalize_reservation s id status now).0
unfolding finalize_reservation
finalize_reservation-IsStocked s id status now h k =
    elim (Option-cases (lookup id s.reservations)) [
      | inl e ↦ rw (finalize_reservation, e) h
      | inr (r, e) ↦ closed r e r.status refl
    ]
  where
    closed :
        (r : Reservation)
        → lookup id s.reservations ≡ some r
        → (st : ReservationStatus) → r.status ≡ st
        → IsStocked (finalize_reservation s id status now).0
    closed r e active f = (finalize_reservation_lem s id r status now h e f k).0
    closed r e committed f = rw (finalize_reservation, e) (rw f h)
    closed r e released f = rw (finalize_reservation, e) (rw f h)

close_reservation-IsStocked :
    (s : Store) (id : Text) (status : ReservationStatus) (now : ℕ)
    → IsStocked s
    → status ≢ active
    → IsStocked (close_reservation s id status now).0
unfolding close_reservation
close_reservation-IsStocked s id status now h k =
    if_rule (λ (r : Store × Result Error Reservation). IsStocked r.0) (is_empty (trim id)) h
      (finalize_reservation-IsStocked s (trim id) status now h k)

module _ (variants : VariantResolver) where
  unfoldable pub step : Store → ℕ × Call → Store
  step s (now, upserts ref quantity) = (upsert_item variants s ref quantity now).0
  step s (now, adjusts ref delta) = (adjust_stock variants s ref delta now).0
  step s (now, reserves order_id items) = (reserve variants s order_id items now).0
  step s (now, releases id) = (release_reservation s id now).0
  step s (now, commits id) = (commit_reservation s id now).0

  upserted-IsStocked :
      (r : Result StoreError (Store × StockItem)) (s : Store) (sku_id sku : Text) (quantity : ℤ)
      (now : ℕ)
      → IsStocked s
      → IsInt64 quantity
      → Keeps r
      → IsStocked (upserted variants r s sku_id sku quantity now).0
  upserted-IsStocked (ok (t, i)) s sku_id sku quantity now h b k = k
  upserted-IsStocked (err StoreError.item_not_found) s sku_id sku quantity now h b k =
      let there = ensure_item-IsStocked s sku_id sku now h in
      answer-IsStocked (ensure_item s sku_id sku now) _ there
        (set_quantity-IsStocked (ensure_item s sku_id sku now) sku_id quantity now there b)
  upserted-IsStocked (err StoreError.insufficient_stock) s sku_id sku quantity now h b k = h
  upserted-IsStocked (err StoreError.reservation_closed) s sku_id sku quantity now h b k = h
  upserted-IsStocked (err StoreError.reservation_already_committed) s sku_id sku quantity now h b
        k =
      h
  upserted-IsStocked (err StoreError.reservation_already_released) s sku_id sku quantity now h b k =
      h

  adjusted-IsStocked :
      (r : Result StoreError (Store × StockItem)) (s : Store) (sku_id sku : Text) (delta : ℤ)
      (now : ℕ)
      → IsStocked s
      → Keeps r
      → IsStocked (adjusted variants r s sku_id sku delta now).0
  adjusted-IsStocked (ok (t, i)) s sku_id sku delta now h k = k
  adjusted-IsStocked (err StoreError.item_not_found) s sku_id sku delta now h k =
      let there = ensure_item-IsStocked s sku_id sku now h in
      if_rule (λ (r : Store × Result Error StockItem). IsStocked r.0) (ltb_ℤ delta (pos 0)) h
        (answer-IsStocked (ensure_item s sku_id sku now) _ there
          (adjust_quantity-IsStocked (ensure_item s sku_id sku now) sku_id delta now there))
  adjusted-IsStocked (err StoreError.insufficient_stock) s sku_id sku delta now h k = h
  adjusted-IsStocked (err StoreError.reservation_closed) s sku_id sku delta now h k = h
  adjusted-IsStocked (err StoreError.reservation_already_committed) s sku_id sku delta now h k = h
  adjusted-IsStocked (err StoreError.reservation_already_released) s sku_id sku delta now h k = h

  upsert_item-IsStocked :
      (s : Store) (ref : SkuRef) (quantity : ℤ) (now : ℕ)
      → IsStocked s
      → IsInt64 quantity
      → IsStocked (upsert_item variants s ref quantity now).0
  unfolding upsert_item
  upsert_item-IsStocked s ref quantity now h b = elim (Result-cases (resolve variants ref)) [
    | inr (x, e) ↦ rw (upsert_item, e) h
    | inl ((sku_id, sku), e) ↦
        rw (upsert_item, e)
          (if_rule (λ (r : Store × Result Error StockItem). IsStocked r.0) (ltb_ℤ quantity (pos 0))
            h
            (upserted-IsStocked (set_quantity s sku_id quantity now) s sku_id sku quantity now h b
              (set_quantity-IsStocked s sku_id quantity now h b)))
  ]

  adjust_stock-IsStocked :
      (s : Store) (ref : SkuRef) (delta : ℤ) (now : ℕ)
      → IsStocked s
      → IsStocked (adjust_stock variants s ref delta now).0
  unfolding adjust_stock
  adjust_stock-IsStocked s ref delta now h = elim (Result-cases (resolve variants ref)) [
    | inr (x, e) ↦ rw (adjust_stock, e) h
    | inl ((sku_id, sku), e) ↦
        rw (adjust_stock, e)
          (adjusted-IsStocked (adjust_quantity s sku_id delta now) s sku_id sku delta now h
            (adjust_quantity-IsStocked s sku_id delta now h))
  ]

  reserve-IsStocked :
      (s : Store) (order_id : Text) (items : List ReservationItemRef) (now : ℕ)
      → IsStocked s
      → s.next_id <ℤ pos (2 ^ 63 - 1)
      → requested items < 2 ^ 63
      → IsStocked (reserve variants s order_id items now).0
  unfolding reserve
  reserve-IsStocked s order_id items now h b c =
      if_rule (λ (r : Store × Result Error Reservation). IsStocked r.0) (is_empty (trim order_id)) h
        (elim (Result-cases (resolve_reservation_items variants items)) [
          | inr (x, e) ↦ rw e h
          | inl (lines, e) ↦
              let (one, only) = resolve_reservation_items_lem variants items lines c e in
              rw e (
                translated-IsStocked s (create_reservation s (trim order_id) lines now) h (
                  create_reservation-IsStocked s (trim order_id) lines now h
                    (ground (arith, h.last, b)) one only))
        ])

  -- A call keeps the store right.
  step-IsStocked :
      (s : Store) (now : ℕ) (c : Call)
      → IsStocked s
      → s.next_id <ℤ pos (2 ^ 63 - 1)
      → IsInRange c
      → IsStocked (step s (now, c))
  unfolding step release_reservation commit_reservation
  step-IsStocked s now (upserts ref quantity) h b c = upsert_item-IsStocked s ref quantity now h c
  step-IsStocked s now (adjusts ref delta) h b c = adjust_stock-IsStocked s ref delta now h
  step-IsStocked s now (reserves order_id items) h b c =
      reserve-IsStocked s order_id items now h b c
  step-IsStocked s now (releases id) h b c =
      close_reservation-IsStocked s id released now h (ground arith)
  step-IsStocked s now (commits id) h b c =
      close_reservation-IsStocked s id committed now h (ground arith)

  -- The stores that calls lead to from an empty one, of which fewer than 2^63 - 1 made a reservation.
  pub data Reaches : Store → Type 0 where
    begins :
        (p : Option ProductStore)
        → Reaches (record { items = []; reservations = []; next_id = pos 0; products = p })
    calls :
        (s : Store) (now : ℕ) (c : Call)
        → Reaches s
        → s.next_id <ℤ pos (2 ^ 63 - 1)
        → IsInRange c
        → Reaches (step s (now, c))

  -- In every store that calls lead to, whatever they are and whichever of them fail, what an item has
  -- reserved is what the active reservations hold of it, which is no more than its quantity.
  pub Reaches-IsStocked : (s : Store) → Reaches s → IsStocked s
  unfolding lookup held
  Reaches-IsStocked s (begins p) = record {
    stock = λ k. refl;
    lines = λ k r e. ground (arith, e);
    numbered = 0;
    last = refl;
    issued = λ k r e. ground (arith, e);
  }
  Reaches-IsStocked _ (calls s now c r b k) = step-IsStocked s now c (Reaches-IsStocked s r) b k
