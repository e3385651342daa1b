-- ===== src/Cart.antt =====
-- cart/pkg/domain/cart.go and cart/pkg/infra/memory/repository.go: the lines that customers keep. A method
-- of the repository runs under its lock; a context that is done before it starts is left out.
pub mod Service
pub mod Stored
pub mod Limits
mod Tests
use schick.Prelude.{
  ℕ, ◌≡◌, ℤ, pos, leb_ℤ, Bool, true, false, not, ◌&&◌, ◌||◌, List, [], ◌∷◌, ◌++◌, Option, none,
  some, Text, codes, ◌==◌, is_empty, trim, to_upper, text_ltb, if◌then◌else◌, lookup, insert,
  delete,
}

pub record StoredItem : Type 0 where
  pub sku_id : Text
  pub sku : Text
  pub quantity : ℤ

pub record UnavailableItem : Type 0 where
  pub sku_id : Text
  pub sku : Text
  pub reason : Text

-- `available` is a pointer in the code: nil, or the address of false.
pub record CartItem : Type 0 where
  pub sku_id : Text
  pub sku : Text
  pub product_id : Text
  pub quantity : ℤ
  pub unit_price_cents : ℤ
  pub color : Text
  pub image_url : Text
  pub available_qty : ℤ
  pub available : Option Bool

pub record Cart : Type 0 where
  pub customer_id : Text
  pub items : List CartItem
  pub unavailable_items : List UnavailableItem
  pub subtotal_cents : ℤ
  pub updated_at : ℕ

abbrev pub reason_variant_not_found : Text
reason_variant_not_found = codes "variant_not_found"

-- NormalizeSKU
unfoldable pub normalize_sku : Text → Text
normalize_sku sku = to_upper (trim sku)

-- ValidateStoredItem, as a test
unfoldable pub is_stored_item : StoredItem → Bool
is_stored_item item = not (
    (is_empty (normalize_sku item.sku) && is_empty (trim item.sku_id))
    || leb_ℤ item.quantity (pos 0))

-- ValidateStoredItems
unfoldable pub are_stored_items : List StoredItem → Bool
are_stored_items [] = true
are_stored_items (item ∷ items) = if is_stored_item item then are_stored_items items else false

-- The repository.
pub record CartRecord : Type 0 where
  pub items : List StoredItem
  pub updated_at : ℕ

abbrev pub Carts : Type 0
Carts = List (Text × CartRecord)

abbrev pub read_record : Option CartRecord → CartRecord
read_record none = record { items = []; updated_at = 0 }
read_record (some r) = r

-- GetItems; a zero time is instant 0.
unfoldable pub get_items : Carts → Text → CartRecord
get_items carts customer_id = read_record (lookup customer_id carts)

unfoldable pub replace_items : Carts → Text → List StoredItem → ℕ → Carts
replace_items carts customer_id items now =
    insert customer_id (record { items = items; updated_at = now }) carts

-- sort.Slice by SKU
unfoldable pub insert_item : StoredItem → List StoredItem → List StoredItem
insert_item item [] = item ∷ []
insert_item item (i ∷ items) =
    if text_ltb item.sku i.sku then item ∷ i ∷ items else i ∷ insert_item item items

unfoldable pub sort_onto : List StoredItem → List StoredItem → List StoredItem
sort_onto sorted [] = sorted
sort_onto sorted (i ∷ items) = sort_onto (insert_item i sorted) items

unfoldable pub has_sku : Text → List StoredItem → Bool
has_sku sku [] = false
has_sku sku (i ∷ items) = i.sku == sku || has_sku sku items

-- The first line of the same SKU is replaced.
unfoldable pub replace_item : StoredItem → List StoredItem → List StoredItem
replace_item item [] = []
replace_item item (i ∷ items) =
    if i.sku == item.sku then item ∷ items else i ∷ replace_item item items

unfoldable pub put_item : StoredItem → List StoredItem → List StoredItem
put_item item items =
    if has_sku item.sku items then replace_item item items else sort_onto [] (items ++ item ∷ [])

unfoldable pub upsert_item : Carts → Text → StoredItem → ℕ → Carts
upsert_item carts customer_id item now =
    insert customer_id
      (record { items = put_item item (get_items carts customer_id).items; updated_at = now }) carts

unfoldable pub without_sku : Text → List StoredItem → List StoredItem
without_sku sku [] = []
without_sku sku (i ∷ items) =
    if i.sku == sku then without_sku sku items else i ∷ without_sku sku items

unfoldable pub without_sku_id : Text → List StoredItem → List StoredItem
without_sku_id sku_id [] = []
without_sku_id sku_id (i ∷ items) =
    if i.sku_id == sku_id then without_sku_id sku_id items else i ∷ without_sku_id sku_id items

-- A change of the lines of a cart that is there.
abbrev pub relined :
    Carts → Text → (List StoredItem → List StoredItem) → ℕ → Option CartRecord → Carts
relined carts customer_id change now none = carts
relined carts customer_id change now (some r) =
    insert customer_id (record { items = change r.items; updated_at = now }) carts

unfoldable pub remove_item : Carts → Text → Text → ℕ → Carts
remove_item carts customer_id sku now =
    relined carts customer_id (without_sku (normalize_sku sku)) now (lookup customer_id carts)

unfoldable pub remove_item_by_sku_id : Carts → Text → Text → ℕ → Carts
remove_item_by_sku_id carts customer_id sku_id now =
    relined carts customer_id (without_sku_id sku_id) now (lookup customer_id carts)

unfoldable pub clear : Carts → Text → Carts
clear carts customer_id = delete customer_id carts
