-- ===== src/Inventory/Service.antt =====
-- product/pkg/service/inventory_service.go, over the store of product/pkg/infra/memory. The
-- VariantResolver is a parameter: it answers with a variant's SkuID and sku, or not.
use schick.Prelude.{
  ℕ, ℤ, pos, leb_ℤ, ltb_ℤ, not, List, [], ◌∷◌, Option, none, some, Text, is_empty, trim, to_upper,
  if◌then◌else◌, Result, ok, err, ◌>>=◌, ◌>>◌, refuse_if, lookup, insert,
}
use schick.Prelude.Word
use schick.Inventory.{
  StoreError, StockItem, ReservationStatus, committed, released, ReservationItem, Reservation,
  Store, get_item, ensure_item, set_quantity, adjust_quantity,
}
use schick.Inventory.Reserving.{create_reservation, finalize_reservation}

-- The service's own errors, and the store's, which it passes on where it has none of its own.
pub data Error : Type 0 where
  invalid_sku invalid_quantity insufficient_stock order_id_required reservation_id_required : Error
  reservation_closed reservation_already_committed reservation_already_released : Error
  store_error : StoreError → Error

pub record SkuRef : Type 0 where
  pub sku_id : Text
  pub sku : Text

pub record ReservationItemRef : Type 0 where
  pub ref : SkuRef
  pub quantity : ℤ

-- GetVariantBySkuID and GetVariant
pub record VariantResolver : Type 0 where
  pub by_sku_id : Text → Option (Text × Text)
  pub by_sku : Text → Option (Text × Text)

unfoldable pub normalize_sku : Text → Text
normalize_sku sku = to_upper (trim sku)

abbrev pub known : Option (Text × Text) → Result Error (Text × Text)
known none = err invalid_sku
known (some v) = ok v

-- The errors that Reserve and closeReservation translate.
abbrev pub translate : StoreError → Error
translate StoreError.insufficient_stock = insufficient_stock
translate StoreError.reservation_closed = reservation_closed
translate StoreError.reservation_already_committed = reservation_already_committed
translate StoreError.reservation_already_released = reservation_already_released
translate StoreError.item_not_found = store_error StoreError.item_not_found

abbrev pub passed : {A : Type 0} → Result StoreError A → Result Error A
passed (ok a) = ok a
passed (err e) = err (store_error e)

abbrev pub translated : {A : Type 0} → Result StoreError A → Result Error A
translated (ok a) = ok a
translated (err e) = err (translate e)

-- A call's store and answer: the store is unchanged where the store's method failed.
abbrev pub answer : {A : Type 0} → Store → Result Error (Store × A) → Store × Result Error A
answer s (ok (t, a)) = (t, ok a)
answer s (err e) = (s, err e)

-- One line of the request under its SkuID: `quantities` and `order` are one list, in the order in which
-- the SkuIDs came first.
unfoldable pub add_line : Text → Text → ℤ → List (Text × (Text × ℤ)) → List (Text × (Text × ℤ))
add_line sku_id sku quantity lines = elim (lookup sku_id lines) [
  | none ↦ insert sku_id (sku, quantity) lines
  | some (first, q) ↦ insert sku_id (first, Word.add q quantity) lines
]

unfoldable pub to_lines : List (Text × (Text × ℤ)) → List ReservationItem
to_lines [] = []
to_lines ((sku_id, (sku, quantity)) ∷ lines) =
    record { sku_id = sku_id; sku = sku; quantity = quantity } ∷ to_lines lines

module _ (variants : VariantResolver) where
  unfoldable pub resolve : SkuRef → Result Error (Text × Text)
  resolve ref =
      if not (is_empty ref.sku_id)
      then known (variants.by_sku_id ref.sku_id)
      else (let normalized = normalize_sku ref.sku in
          if is_empty normalized then err invalid_sku else known (variants.by_sku normalized))

  abbrev pub upserted :
      Result StoreError (Store × StockItem)
      → Store
      → Text
      → Text
      → ℤ
      → ℕ
      → Store × Result Error StockItem
  upserted (ok (t, i)) s sku_id sku quantity now = (t, ok i)
  upserted (err StoreError.item_not_found) s sku_id sku quantity now =
      let t = ensure_item s sku_id sku now in answer t (passed (set_quantity t sku_id quantity now))
  upserted (err StoreError.insufficient_stock) s sku_id sku quantity now =
      (s, err insufficient_stock)
  upserted (err e) s sku_id sku quantity now = (s, err (store_error e))

  abbrev pub upsert_resolved : Text × Text → Store → ℤ → ℕ → Store × Result Error StockItem
  upsert_resolved (sku_id, sku) s quantity now =
      if ltb_ℤ quantity (pos 0)
      then (s, err invalid_quantity)
      else upserted (set_quantity s sku_id quantity now) s sku_id sku quantity now

  unfoldable pub upsert_item : Store → SkuRef → ℤ → ℕ → Store × Result Error StockItem
  upsert_item s ref quantity now = elim (resolve ref) [
    | err e ↦ (s, err e)
    | ok v ↦ upsert_resolved v s quantity now
  ]

  unfoldable pub get_stock : Store → SkuRef → Result Error StockItem
  get_stock s ref = resolve ref >>= λ v. passed (get_item s v.0)

  abbrev pub adjusted :
      Result StoreError (Store × StockItem)
      → Store
      → Text
      → Text
      → ℤ
      → ℕ
      → Store × Result Error StockItem
  adjusted (ok (t, i)) s sku_id sku delta now = (t, ok i)
  adjusted (err StoreError.item_not_found) s sku_id sku delta now =
      if ltb_ℤ delta (pos 0)
      then (s, err insufficient_stock)
      else (let t = ensure_item s sku_id sku now in
          answer t (passed (adjust_quantity t sku_id delta now)))
  adjusted (err StoreError.insufficient_stock) s sku_id sku delta now = (s, err insufficient_stock)
  adjusted (err e) s sku_id sku delta now = (s, err (store_error e))

  unfoldable pub adjust_stock : Store → SkuRef → ℤ → ℕ → Store × Result Error StockItem
  adjust_stock s ref delta now = elim (resolve ref) [
    | err e ↦ (s, err e)
    | ok v ↦ adjusted (adjust_quantity s v.0 delta now) s v.0 v.1 delta now
  ]

  -- The loop of resolveReservationItems
  unfoldable pub aggregate :
      List ReservationItemRef → List (Text × (Text × ℤ)) → Result Error (List (Text × (Text × ℤ)))
  aggregate [] lines = ok lines
  aggregate (item ∷ items) lines =
      refuse_if (leb_ℤ item.quantity (pos 0)) invalid_quantity
      >> (resolve item.ref >>= λ v. aggregate items (add_line v.0 v.1 item.quantity lines))

  unfoldable pub resolve_reservation_items :
      List ReservationItemRef → Result Error (List ReservationItem)
  resolve_reservation_items [] = err invalid_quantity
  resolve_reservation_items (item ∷ items) =
      aggregate (item ∷ items) [] >>= λ lines. ok (to_lines lines)

  unfoldable pub reserve :
      Store → Text → List ReservationItemRef → ℕ → Store × Result Error Reservation
  reserve s order_id items now =
      let o = trim order_id in
      if is_empty o
      then (s, err order_id_required)
      else answer s (
          resolve_reservation_items items >>= λ lines.
          translated (create_reservation s o lines now))

unfoldable pub close_reservation :
    Store → Text → ReservationStatus → ℕ → Store × Result Error Reservation
close_reservation s id status now =
    let i = trim id in
    let (t, r) = finalize_reservation s i status now in
    if is_empty i then (s, err reservation_id_required) else (t, translated r)

unfoldable pub release_reservation : Store → Text → ℕ → Store × Result Error Reservation
release_reservation s id now = close_reservation s id released now

unfoldable pub commit_reservation : Store → Text → ℕ → Store × Result Error Reservation
commit_reservation s id now = close_reservation s id committed now
