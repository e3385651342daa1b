-- ===== src/Inventory.antt =====
-- The stock of the product service: product/pkg/domain/inventory.go and the store of
-- product/pkg/infra/memory/inventory_store.go. A goroutine's call runs under the store's lock, so it is
-- one step; a context that is cancelled before it starts is left out.
pub mod Reserving
pub mod Service
pub mod Balance
pub mod Requests
pub mod Quantities
mod Tests
use schick.Prelude.{
  ℕ, ◌+◌, ◌-◌, ◌≡◌, ℤ, pos, negsuc, ltb_ℤ, Bool, true, false, not, ◌&&◌, ◌||◌, List, [], ◌∷◌, ◌++◌,
  Option, none, some, Text, codes, ◌==◌, text_ltb, if◌then◌else◌, Result, ok, err, length, lookup,
  insert, decimal, decimal6, zeros_onto,
}
use schick.Prelude.Word

pub data StoreError : Type 0 where
  item_not_found insufficient_stock : StoreError
  reservation_closed reservation_already_committed reservation_already_released : StoreError

-- The code's `int`s are ℤ; instants are nanoseconds.
pub record StockItem : Type 0 where
  pub sku_id : Text
  pub sku : Text
  pub quantity : ℤ
  pub reserved : ℤ
  pub updated_at : ℕ

unfoldable pub available : StockItem → ℤ
available i = Word.sub i.quantity i.reserved

pub data ReservationStatus : Type 0 where
  active committed released : ReservationStatus

pub record ReservationItem : Type 0 where
  pub sku_id : Text
  pub sku : Text
  pub quantity : ℤ

pub record Reservation : Type 0 where
  pub id : Text
  pub order_id : Text
  pub items : List ReservationItem
  pub status : ReservationStatus
  pub created_at : ℕ
  pub updated_at : ℕ

unfoldable pub new_reservation : Text → Text → List ReservationItem → ℕ → Reservation
new_reservation id order_id items now = record {
  id = id;
  order_id = order_id;
  items = items;
  status = active;
  created_at = now;
  updated_at = now;
}

-- What the store uses of a ProductStore: which product a variant is of, by its SkuID, and the products'
-- SoldCount.
pub record ProductStore : Type 0 where
  pub variants : List (Text × Text)
  pub products : List (Text × ℤ)

pub record Store : Type 0 where
  pub items : List (Text × StockItem)
  pub reservations : List (Text × Reservation)
  pub next_id : ℤ
  pub products : Option ProductStore

abbrev pub or_error : {A : Type 0} → Option A → Result StoreError A
or_error none = err item_not_found
or_error (some a) = ok a

unfoldable pub get_item : Store → Text → Result StoreError StockItem
get_item s sku_id = or_error (lookup sku_id s.items)

unfoldable pub get_reservation : Store → Text → Result StoreError Reservation
get_reservation s id = or_error (lookup id s.reservations)

unfoldable pub ensure_item : Store → Text → Text → ℕ → Store
ensure_item s sku_id sku updated_at = elim (lookup sku_id s.items) [
  | some _ ↦ s
  | none ↦ record s {
    items =
        insert sku_id
          (record {
            sku_id = sku_id;
            sku = sku;
            quantity = pos 0;
            reserved = pos 0;
            updated_at = updated_at;
          })
          s.items;
  }
]

unfoldable pub set_quantity : Store → Text → ℤ → ℕ → Result StoreError (Store × StockItem)
set_quantity s sku_id quantity updated_at = elim (lookup sku_id s.items) [
  | none ↦ err item_not_found
  | some item ↦
      if ltb_ℤ quantity item.reserved
      then err insufficient_stock
      else (let i = record item { quantity = quantity; updated_at = updated_at } in
          ok (record s { items = insert sku_id i s.items }, i))
]

unfoldable pub adjust_quantity : Store → Text → ℤ → ℕ → Result StoreError (Store × StockItem)
adjust_quantity s sku_id delta updated_at = elim (lookup sku_id s.items) [
  | none ↦ err item_not_found
  | some item ↦
      let next = Word.add item.quantity delta in
      if ltb_ℤ next (pos 0) || ltb_ℤ next item.reserved
      then err insufficient_stock
      else (let i = record item { quantity = next; updated_at = updated_at } in
          ok (record s { items = insert sku_id i s.items }, i))
]
