-- ===== src/Inventory/Quantities.antt =====
-- The quantities on hand, which reservations do not change before they are committed
-- (product/pkg/infra/memory/inventory_store.go).
use schick.Prelude.{
  ℕ, ◌≡◌, refl, ◌∙◌, sym, ap, subst, ℤ, false, List, [], ◌∷◌, Option, none, some, arith, Text, ◌==◌,
  eq_iff, inl, inr, Bool-cases, Option-cases, if_rule, ltb_ℤ, ok, lookup, insert, lookup-insert,
}
use schick.Inventory.{
  StoreError, StockItem, ReservationStatus, active, committed, released, ReservationItem,
  Reservation, Store,
}
use schick.Inventory.Reserving.{
  sort_lines, check_lines, bumped, bumped_in, current, reserve_lines, merge, create_reservation,
  settle_item, go_on, settle_lines, finalized, finalize_by_status, finalize_reservation,
}
use schick.Inventory.Balance.Loops.{lookup-merge, current-insert}

abbrev quantity_of : Option StockItem → Option ℤ
quantity_of none = none
quantity_of (some i) = some i.quantity

-- The quantity of an item, if there is one.
abbrev pub quantity_at : Text → List (Text × StockItem) → Option ℤ
quantity_at k items = quantity_of (lookup k items)

quantity_at-insert :
    (k j : Text) (i : StockItem) (items : List (Text × StockItem))
    → quantity_of (lookup k items) ≡ some i.quantity
    → quantity_at j (insert k i items) ≡ quantity_at j items
quantity_at-insert k j i items h = rw (lookup-insert k j i items) (elim (Bool-cases (k == j)) [
  | inl e ↦
      rw e (sym (subst (λ x. quantity_at x items ≡ some i.quantity) (ground (arith, eq_iff k j)) h))
  | inr e ↦ rw e refl
])

settle_item-quantity :
    (o : Option StockItem) (now : ℕ) (l : ReservationItem) (items : List (Text × StockItem))
    (k : Text)
    → lookup l.sku_id items ≡ o
    → quantity_at k (settle_item o false now l items).0 ≡ quantity_at k items
settle_item-quantity none now l items k h = refl
settle_item-quantity (some i) now l items k h =
    if_rule
      (λ (r : List (Text × StockItem) × Option StoreError). quantity_at k r.0 ≡ quantity_at k items)
      (ltb_ℤ i.reserved l.quantity) refl (quantity_at-insert l.sku_id k _ items (ap quantity_of h))

go_on-quantity :
    (r : List (Text × StockItem) × Option StoreError)
    (rest : List (Text × StockItem) → List (Text × StockItem) × Option StoreError) (k : Text)
    → ((items : List (Text × StockItem)) → quantity_at k (rest items).0 ≡ quantity_at k items)
    → quantity_at k (go_on r rest).0 ≡ quantity_at k r.0
go_on-quantity (items, none) rest k h = h items
go_on-quantity (items, some e) rest k h = refl

settle_lines-quantity :
    (now : ℕ) (ls : List ReservationItem) (items : List (Text × StockItem)) (k : Text)
    → quantity_at k (settle_lines false now ls items).0 ≡ quantity_at k items
unfolding settle_lines
settle_lines-quantity now [] items k = refl
settle_lines-quantity now (l ∷ ls) items k =
    go_on-quantity (settle_item (lookup l.sku_id items) false now l items)
      (settle_lines false now ls) k (λ after. settle_lines-quantity now ls after k)
    ∙ settle_item-quantity (lookup l.sku_id items) now l items k refl

finalized-quantity :
    (s : Store) (id : Text) (r : Reservation) (status : ReservationStatus) (now : ℕ)
    (settled : List (Text × StockItem) × Option StoreError) (k : Text)
    → quantity_at k (finalized s id r status now settled).0.items ≡ quantity_at k settled.0
finalized-quantity s id r status now (items, none) k = refl
finalized-quantity s id r status now (items, some e) k = refl

-- The release of a reservation, whether it succeeds or not, changes the quantity of no item.
pub quantity_at-finalize_reservation :
    (s : Store) (id : Text) (now : ℕ) (k : Text)
    → quantity_at k (finalize_reservation s id released now).0.items ≡ quantity_at k s.items
unfolding finalize_reservation
quantity_at-finalize_reservation s id now k = elim (Option-cases (lookup id s.reservations)) [
  | inl e ↦ rw (finalize_reservation, e) refl
  | inr (r, e) ↦ rw (finalize_reservation, e) (by_status r.status r)
]
  where
    by_status :
        (status : ReservationStatus) (r : Reservation)
        → quantity_at k (finalize_by_status status s id r released now).0.items
          ≡ quantity_at k s.items
    by_status active r =
        finalized-quantity s id r released now (settle_lines false now (sort_lines r.items) s.items)
          k
        ∙ settle_lines-quantity now (sort_lines r.items) s.items k
    by_status committed r = refl
    by_status released r = refl

bumped_in-quantity :
    (o : Option StockItem) (l : ReservationItem) (now : ℕ) (updated items : List (Text × StockItem))
    (k : Text)
    → current updated items l.sku_id ≡ o
    → quantity_of (current (bumped_in o l now updated) items k)
      ≡ quantity_of (current updated items k)
bumped_in-quantity none l now updated items k h = refl
bumped_in-quantity (some i) l now updated items k h =
    ap quantity_of (current-insert l.sku_id k (bumped i l.quantity now) updated items)
    ∙ (elim (Bool-cases (l.sku_id == k)) [
      | inl e ↦
          let same : l.sku_id ≡ k = ground (arith, eq_iff l.sku_id k) in
          rw e (sym (ap quantity_of (subst (λ x. current updated items x ≡ some i) same h)))
      | inr e ↦ rw e refl
    ])

reserve_lines-quantity :
    (items : List (Text × StockItem)) (now : ℕ) (ls : List ReservationItem)
    (updated : List (Text × StockItem)) (k : Text)
    → quantity_of (current (reserve_lines items now ls updated) items k)
      ≡ quantity_of (current updated items k)
unfolding reserve_lines
reserve_lines-quantity items now [] updated k = refl
reserve_lines-quantity items now (l ∷ ls) updated k =
    reserve_lines-quantity items now ls (bumped_in (current updated items l.sku_id) l now updated) k
    ∙ bumped_in-quantity (current updated items l.sku_id) l now updated items k refl

-- The making of a reservation changes the quantity of no item.
pub quantity_at-create_reservation :
    (s t : Store) (order_id : Text) (lines : List ReservationItem) (now : ℕ) (r : Reservation)
    (k : Text)
    → create_reservation s order_id lines now ≡ ok (t, r)
    → quantity_at k t.items ≡ quantity_at k s.items
unfolding create_reservation lookup
quantity_at-create_reservation s t order_id lines now r k h =
    elim (Option-cases (check_lines s.items (sort_lines lines))) [
      | inr (e, f) ↦ ground (arith, h, f)
      | inl f ↦
          let same : merge (reserve_lines s.items now (sort_lines lines) []) s.items ≡ t.items =
            ground (arith, h, f) in
          subst (λ items. quantity_at k items ≡ quantity_at k s.items) same
            (ap quantity_of
                (lookup-merge k (reserve_lines s.items now (sort_lines lines) []) s.items)
              ∙ reserve_lines-quantity s.items now (sort_lines lines) [] k)
    ]
