-- ===== src/Cart/Service.antt =====
-- cart/pkg/service/service.go. The product service and the inventory, either of which may be nil, answer
-- from outside; other requests may come between the two repository calls of a method. The lines of a cart
-- are looked up side by side in the code, each into its own slot, so in their order here.
use schick.Prelude.{
  ℕ, ℤ, pos, ltb_ℤ, Bool, true, false, ◌||◌, List, [], ◌∷◌, Option, none, some, Text, is_empty,
  trim, if◌then◌else◌, map, Result, ok, err, ◌>>=◌, ◌>>◌, refuse_if, not,
}
use schick.Prelude.Word
use schick.Cart
use schick.Cart.{
  StoredItem, UnavailableItem, CartItem, Cart, CartRecord, Carts, reason_variant_not_found,
  normalize_sku, is_stored_item, are_stored_items, get_items,
}

pub data Error : Type 0 where
  invalid_cart invalid_cart_item variant_not_found product_unavailable : Error
  unavailable_variants : List UnavailableItem → Error
  insufficient_stock : Text → Text → ℤ → ℤ → Error
  failed : Text → Error

-- cart/pkg/ports
pub record VariantInfo : Type 0 where
  pub sku_id : Text
  pub sku : Text
  pub product_id : Text
  pub color : Text
  pub unit_price_cents : ℤ
  pub image_url : Text

pub record ProductClient : Type 0 where
  pub get_variant : Text → Result Error VariantInfo
  pub get_variant_by_sku_id : Text → Result Error VariantInfo

pub record InventoryClient : Type 0 where
  pub get_available_qty : Text → Result Error ℤ
  pub get_available_qty_by_sku_id : Text → Result Error ℤ

pub record Clients : Type 0 where
  pub product : Option ProductClient
  pub inventory : Option InventoryClient

pub record ItemInput : Type 0 where
  pub sku_id : Text
  pub sku : Text
  pub quantity : ℤ

abbrev pub unavailable_from_stored : StoredItem → UnavailableItem
unavailable_from_stored item = record {
  sku_id = item.sku_id;
  sku = item.sku;
  reason = reason_variant_not_found;
}

-- errors.Is(err, ErrVariantNotFound), which UnavailableVariantsError unwraps to
abbrev pub is_variant_not_found : Error → Bool
is_variant_not_found variant_not_found = true
is_variant_not_found (unavailable_variants _) = true
is_variant_not_found _ = false

abbrev pub of_product : Result Error VariantInfo → Result Error VariantInfo
of_product (ok info) = ok info
of_product (err e) = if is_variant_not_found e then err e else err product_unavailable

unfoldable pub resolve_variant : Option ProductClient → StoredItem → Result Error VariantInfo
resolve_variant none item = err product_unavailable
resolve_variant (some p) item =
    of_product
      (if is_empty item.sku_id then p.get_variant item.sku else p.get_variant_by_sku_id item.sku_id)

unfoldable pub lookup_available_qty : InventoryClient → Text → Text → Result Error ℤ
lookup_available_qty i sku_id sku =
    if is_empty sku_id then i.get_available_qty sku else i.get_available_qty_by_sku_id sku_id

unfoldable pub check_available_qty : Option InventoryClient → StoredItem → Result Error (Unit {0})
check_available_qty none item = ok tt
check_available_qty (some i) item = do
  qty ← lookup_available_qty i item.sku_id item.sku
  refuse_if (ltb_ℤ qty item.quantity) (insufficient_stock item.sku_id item.sku item.quantity qty)

abbrev pub stored_of : ItemInput → StoredItem
stored_of input = record {
  sku_id = trim input.sku_id;
  sku = normalize_sku input.sku;
  quantity = input.quantity;
}

abbrev pub canonical : StoredItem → VariantInfo → StoredItem
canonical item info = record item { sku_id = info.sku_id; sku = info.sku }

-- A line of an enriched cart.
abbrev pub plain_line : StoredItem → CartItem
plain_line item = record {
  sku_id = item.sku_id;
  sku = item.sku;
  product_id = [];
  quantity = item.quantity;
  unit_price_cents = pos 0;
  color = [];
  image_url = [];
  available_qty = pos 0;
  available = none;
}

abbrev pub described : StoredItem → Result Error VariantInfo → CartItem
described item (ok info) = record (plain_line item) {
  sku_id = info.sku_id;
  sku = info.sku;
  product_id = info.product_id;
  unit_price_cents = info.unit_price_cents;
  color = info.color;
  image_url = info.image_url;
}
described item (err e) =
    if is_variant_not_found e
    then record (plain_line item) { available = some false }
    else plain_line item

abbrev pub with_qty : CartItem → Result Error ℤ → CartItem
with_qty line (ok qty) = record line { available_qty = qty }
with_qty line (err e) = line

abbrev pub counted : Option InventoryClient → Text → CartItem → Option Bool → CartItem
counted none sku line available = line
counted (some i) sku line (some _) = line
counted (some i) sku line none = with_qty line (lookup_available_qty i line.sku_id sku)

abbrev pub enriched : Clients → StoredItem → CartItem
enriched c item =
    let line = described item (resolve_variant c.product item) in
    counted c.inventory item.sku line line.available

abbrev pub is_missing : Result Error VariantInfo → Bool
is_missing (ok _) = false
is_missing (err e) = is_variant_not_found e

unfoldable pub unavailable_of : Clients → List StoredItem → List UnavailableItem
unavailable_of c [] = []
unavailable_of c (item ∷ items) =
    if is_missing (resolve_variant c.product item)
    then unavailable_from_stored item ∷ unavailable_of c items
    else unavailable_of c items

abbrev pub is_off : Option Bool → Bool
is_off none = false
is_off (some available) = not available

unfoldable pub subtotal_onto : ℤ → List CartItem → ℤ
subtotal_onto subtotal [] = subtotal
subtotal_onto subtotal (line ∷ lines) =
    if is_off line.available
    then subtotal_onto subtotal lines
    else subtotal_onto (Word.add subtotal (Word.mul line.quantity line.unit_price_cents)) lines

unfoldable pub enrich_cart : Clients → Text → CartRecord → Cart
enrich_cart c customer_id stored =
    let lines = map (enriched c) stored.items in
    record {
      customer_id = customer_id;
      items = lines;
      unavailable_items = unavailable_of c stored.items;
      subtotal_cents = subtotal_onto (pos 0) lines;
      updated_at = stored.updated_at;
    }

-- GetCart
unfoldable pub get_cart : Clients → Carts → Text → Result Error Cart
get_cart c carts customer_id = do
  refuse_if (is_empty (trim customer_id)) invalid_cart
  ok (enrich_cart c (trim customer_id) (get_items carts (trim customer_id)))

-- The loop of ReplaceItems: the canonical lines, and the lines that cannot be bought.
abbrev pub keep_unavailable :
    StoredItem
    → Error
    → Result Error (List StoredItem × List UnavailableItem)
    → Result Error (List StoredItem × List UnavailableItem)
keep_unavailable item e rest =
    if is_variant_not_found e
    then (rest >>= λ r. ok (item ∷ r.0, unavailable_from_stored item ∷ r.1))
    else err e

abbrev pub resolve_step :
    Clients
    → StoredItem
    → Result Error (List StoredItem × List UnavailableItem)
    → Result Error VariantInfo
    → Result Error (List StoredItem × List UnavailableItem)
resolve_step c item rest (err e) = keep_unavailable item e rest
resolve_step c item rest (ok info) =
    check_available_qty c.inventory (canonical item info)
    >> (rest >>= λ r. ok (canonical item info ∷ r.0, r.1))

unfoldable pub resolve_items :
    Clients → List StoredItem → Result Error (List StoredItem × List UnavailableItem)
resolve_items c [] = ok ([], [])
resolve_items c (item ∷ items) =
    resolve_step c item (resolve_items c items) (resolve_variant c.product item)

abbrev pub none_unavailable :
    List StoredItem × List UnavailableItem → Result Error (List StoredItem)
none_unavailable (items, []) = ok items
none_unavailable (items, u ∷ us) = err (unavailable_variants (u ∷ us))

unfoldable pub accepted_items : Clients → Text → List ItemInput → Result Error (List StoredItem)
accepted_items c customer_id inputs = do
  refuse_if (is_empty customer_id) invalid_cart
  refuse_if (not (are_stored_items (map stored_of inputs))) invalid_cart_item
  r ← resolve_items c (map stored_of inputs)
  none_unavailable r

-- ReplaceItems
unfoldable pub replace_items :
    Clients → Carts → Text → List ItemInput → ℕ → Carts × Result Error Cart
replace_items c carts customer_id inputs now = elim (accepted_items c (trim customer_id) inputs) [
  | err e ↦ (carts, err e)
  | ok items ↦ (
    Cart.replace_items carts (trim customer_id) items now,
    ok (enrich_cart c (trim customer_id) (record { items = items; updated_at = now })),
  )
]

abbrev pub resolve_one : Clients → StoredItem → Result Error VariantInfo → Result Error StoredItem
resolve_one c item (ok info) =
    check_available_qty c.inventory (canonical item info) >> ok (canonical item info)
resolve_one c item (err e) =
    if is_variant_not_found e
    then err (unavailable_variants (unavailable_from_stored item ∷ []))
    else err e

unfoldable pub accepted_item : Clients → Text → ItemInput → Result Error StoredItem
accepted_item c customer_id input = do
  refuse_if (is_empty customer_id) invalid_cart
  refuse_if (not (is_stored_item (stored_of input))) invalid_cart_item
  resolve_one c (stored_of input) (resolve_variant c.product (stored_of input))

-- UpsertItem; `others` is what other requests do before the cart is read.
unfoldable pub upsert_item :
    Clients → Carts → Text → ItemInput → ℕ → (Carts → Carts) → Carts × Result Error Cart
upsert_item c carts customer_id input now others = elim (accepted_item c (trim customer_id) input) [
  | err e ↦ (carts, err e)
  | ok item ↦
      (let after = others (Cart.upsert_item carts (trim customer_id) item now) in
        (after, get_cart c after (trim customer_id)))
]

-- RemoveItem
unfoldable pub remove_item :
    Clients → Carts → Text → Text → ℕ → (Carts → Carts) → Carts × Result Error Cart
remove_item c carts customer_id sku now others =
    if is_empty (trim customer_id) || is_empty (normalize_sku sku)
    then (carts, err invalid_cart_item)
    else (let after = others (Cart.remove_item carts (trim customer_id) (normalize_sku sku) now) in
        (after, get_cart c after (trim customer_id)))

-- RemoveItemBySkuID
unfoldable pub remove_item_by_sku_id :
    Clients → Carts → Text → Text → ℕ → (Carts → Carts) → Carts × Result Error Cart
remove_item_by_sku_id c carts customer_id sku_id now others =
    if is_empty (trim customer_id) || is_empty (trim sku_id)
    then (carts, err invalid_cart_item)
    else (let after =
          others (Cart.remove_item_by_sku_id carts (trim customer_id) (trim sku_id) now) in
        (after, get_cart c after (trim customer_id)))

-- ClearCart
unfoldable pub clear_cart : Carts → Text → Carts × Result Error (Unit {0})
clear_cart carts customer_id =
    if is_empty (trim customer_id)
    then (carts, err invalid_cart)
    else (Cart.clear carts (trim customer_id), ok tt)
