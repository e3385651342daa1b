-- ===== src/Inventory/Reserving.antt =====
-- CreateReservation and FinalizeReservation of product/pkg/infra/memory/inventory_store.go.
use schick.Prelude.{
  ℕ, ℤ, pos, ltb_ℤ, Bool, true, false, ◌&&◌, List, [], ◌∷◌, ◌++◌, Option, none, some, Text, codes,
  text_ltb, if◌then◌else◌, Result, ok, err, lookup, insert, padded,
}
use schick.Prelude.Word
use schick.Inventory.{
  StoreError, item_not_found, insufficient_stock, reservation_already_committed,
  reservation_already_released, StockItem, available, ReservationStatus, active, committed,
  released, ReservationItem, Reservation, new_reservation, ProductStore, Store,
}

-- sort.Slice by SkuID. Bytes of UTF-8 are ordered as code points are.
unfoldable pub insert_line : ReservationItem → List ReservationItem → List ReservationItem
insert_line l [] = l ∷ []
insert_line l (m ∷ ms) = if text_ltb m.sku_id l.sku_id then m ∷ insert_line l ms else l ∷ m ∷ ms

unfoldable pub sort_lines : List ReservationItem → List ReservationItem
sort_lines [] = []
sort_lines (l ∷ ls) = insert_line l (sort_lines ls)

-- The first loop of CreateReservation: the error of the first line that is refused.
unfoldable pub check_lines : List (Text × StockItem) → List ReservationItem → Option StoreError
check_lines items [] = none
check_lines items (l ∷ ls) =
    let rest = check_lines items ls in
    elim (lookup l.sku_id items) [
      | none ↦ some item_not_found
      | some item ↦ if ltb_ℤ (available item) l.quantity then some insufficient_stock else rest
    ]

abbrev pub bumped : StockItem → ℤ → ℕ → StockItem
bumped i quantity now = record i { reserved = Word.add i.reserved quantity; updated_at = now }

-- updatedItems[skuID], or else the store's own item.
abbrev pub current : List (Text × StockItem) → List (Text × StockItem) → Text → Option StockItem
current updated items k = elim (lookup k updated) [ none ↦ lookup k items | some i ↦ some i ]

-- One round of the second loop. After the first loop every line's item is there.
abbrev pub bumped_in :
    Option StockItem → ReservationItem → ℕ → List (Text × StockItem) → List (Text × StockItem)
bumped_in none l now updated = updated
bumped_in (some i) l now updated = insert l.sku_id (bumped i l.quantity now) updated

-- The second loop: the map updatedItems.
unfoldable pub reserve_lines :
    List (Text × StockItem)
    → ℕ
    → List ReservationItem
    → List (Text × StockItem)
    → List (Text × StockItem)
reserve_lines items now [] updated = updated
reserve_lines items now (l ∷ ls) updated =
    reserve_lines items now ls (bumped_in (current updated items l.sku_id) l now updated)

-- The third: the map's items into the store.
unfoldable pub merge : List (Text × StockItem) → List (Text × StockItem) → List (Text × StockItem)
merge [] items = items
merge ((k, i) ∷ updated) items = insert k i (merge updated items)

-- fmt.Sprintf("res_%06d", n)
unfoldable pub reservation_id : ℤ → Text
reservation_id n = codes "res_" ++ padded n

unfoldable pub create_reservation :
    Store → Text → List ReservationItem → ℕ → Result StoreError (Store × Reservation)
create_reservation s order_id items now =
    let sorted = sort_lines items in
    elim (check_lines s.items sorted) [
      | some e ↦ err e
      | none ↦
          let n = Word.add s.next_id (pos 1) in
          let r = new_reservation (reservation_id n) order_id items now in
          ok (
            record s {
              items = merge (reserve_lines s.items now sorted []) s.items;
              next_id = n;
              reservations = insert r.id r s.reservations;
            },
            r,
          )
    ]

-- A round of the loop of FinalizeReservation, which changes the item as it goes.
abbrev pub settle_item :
    Option StockItem
    → Bool
    → ℕ
    → ReservationItem
    → List (Text × StockItem)
    → List (Text × StockItem) × Option StoreError
settle_item none is_commit now l items = (items, some item_not_found)
settle_item (some item) is_commit now l items =
    let i = record item { reserved = Word.sub item.reserved l.quantity } in
    let j = record i {
      quantity = if is_commit then Word.sub i.quantity l.quantity else i.quantity;
      updated_at = now;
    } in
    if ltb_ℤ item.reserved l.quantity
    then (items, some insufficient_stock)
    else if is_commit && ltb_ℤ i.quantity l.quantity
    then (insert l.sku_id i items, some insufficient_stock)
    else (insert l.sku_id j items, none)

abbrev pub go_on :
    List (Text × StockItem) × Option StoreError
    → (List (Text × StockItem) → List (Text × StockItem) × Option StoreError)
    → List (Text × StockItem) × Option StoreError
go_on (items, none) rest = rest items
go_on (items, some e) rest = (items, some e)

-- The loop: an error leaves what the lines before it, and a part of its own line, have changed.
unfoldable pub settle_lines :
    Bool
    → ℕ
    → List ReservationItem
    → List (Text × StockItem)
    → List (Text × StockItem) × Option StoreError
settle_lines is_commit now [] items = (items, none)
settle_lines is_commit now (l ∷ ls) items =
    go_on (settle_item (lookup l.sku_id items) is_commit now l items)
      (settle_lines is_commit now ls)

-- addSoldCounts: what each product sold, and then the counts.
unfoldable pub sold_counts :
    List (Text × Text) → List ReservationItem → List (Text × ℤ) → List (Text × ℤ)
sold_counts variants [] deltas = deltas
sold_counts variants (l ∷ ls) deltas = sold_counts variants ls (elim (lookup l.sku_id variants) [
  | none ↦ deltas
  | some product_id ↦ elim (lookup product_id deltas) [
    | none ↦ insert product_id l.quantity deltas
    | some n ↦ insert product_id (Word.add n l.quantity) deltas
  ]
])

unfoldable pub add_counts : List (Text × ℤ) → List (Text × ℤ) → List (Text × ℤ)
add_counts [] products = products
add_counts ((k, n) ∷ deltas) products =
    let rest = add_counts deltas products in
    elim (lookup k rest) [ none ↦ rest | some m ↦ insert k (Word.add m n) rest ]

unfoldable pub add_sold_counts : Option ProductStore → List ReservationItem → Option ProductStore
add_sold_counts none items = none
add_sold_counts (some p) items =
    some (record p { products = add_counts (sold_counts p.variants items []) p.products })

abbrev pub is_committed : ReservationStatus → Bool
is_committed committed = true
is_committed _ = false

-- The error of a reservation that is not active, and the end of FinalizeReservation.
abbrev pub finalized :
    Store
    → Text
    → Reservation
    → ReservationStatus
    → ℕ
    → List (Text × StockItem) × Option StoreError
    → Store × Result StoreError Reservation
finalized s id r status now (items, some e) = (record s { items = items }, err e)
finalized s id r status now (items, none) =
    let q = record r { status = status; updated_at = now } in
    (
      record s {
        items = items;
        reservations = insert id q s.reservations;
        products =
            if is_committed status
            then add_sold_counts s.products (sort_lines r.items)
            else s.products;
      },
      ok q,
    )

abbrev pub finalize_by_status :
    ReservationStatus
    → Store
    → Text
    → Reservation
    → ReservationStatus
    → ℕ
    → Store × Result StoreError Reservation
finalize_by_status active s id r status now =
    finalized s id r status now
      (settle_lines (is_committed status) now (sort_lines r.items) s.items)
finalize_by_status committed s id r status now = (s, err reservation_already_committed)
finalize_by_status released s id r status now = (s, err reservation_already_released)

unfoldable pub finalize_reservation :
    Store → Text → ReservationStatus → ℕ → Store × Result StoreError Reservation
finalize_reservation s id status now = elim (lookup id s.reservations) [
  | none ↦ (s, err item_not_found)
  | some r ↦ finalize_by_status r.status s id r status now
]
