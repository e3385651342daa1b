-- ===== src/Cart/Stored.antt =====
-- What the changes of a cart's lines do to what it holds of each SKU.
use schick.Prelude.{
  ℕ, ◌≡◌, ◌≢◌, ◌⊎◌, inl, inr, refl, ℤ, pos, ◌+ℤ◌, eq_of_parts, int_laws, true, List, [], ◌∷◌, ◌++◌,
  Text, arith, ◌==◌, eq_iff, eq_refl, text_ltb, if◌then◌else◌, Any, if_rule, if_rule_eq, sym, ap,
  ◌∙◌, insert, lookup-insert,
}
use schick.Cart.{
  StoredItem, CartRecord, Carts, get_items, insert_item, sort_onto, has_sku, replace_item, put_item,
  upsert_item,
}

-- The quantities of a SKU's lines, added up.
abbrev pub total_of : Text → List StoredItem → ℤ
total_of sku [] = pos 0
total_of sku (i ∷ items) = (if i.sku == sku then i.quantity else pos 0) +ℤ total_of sku items

abbrev pub Holds : StoredItem → List StoredItem → Type 0
Holds item items = Any (λ i. i ≡ item) items

add_zero : (a : ℤ) → a +ℤ pos 0 ≡ a
add_zero a = eq_of_parts _ _ (omega int_laws)

zero_add : (a : ℤ) → pos 0 +ℤ a ≡ a
zero_add a = eq_of_parts _ _ (omega int_laws)

add_assoc : (a b c : ℤ) → (a +ℤ b) +ℤ c ≡ a +ℤ (b +ℤ c)
add_assoc a b c = eq_of_parts _ _ (omega int_laws)

add_swap : (a b c : ℤ) → a +ℤ (b +ℤ c) ≡ b +ℤ (a +ℤ c)
add_swap a b c = eq_of_parts _ _ (omega int_laws)

total_of-insert_item :
    (sku : Text) (item : StoredItem) (items : List StoredItem)
    → total_of sku (insert_item item items) ≡ total_of sku (item ∷ items)
unfolding insert_item
total_of-insert_item sku item [] = refl
total_of-insert_item sku item (i ∷ items) =
    if_rule_eq (λ (l : List StoredItem). total_of sku l ≡ total_of sku (item ∷ i ∷ items))
      (text_ltb item.sku i.sku) (λ _. refl)
      (λ _. rw (total_of-insert_item sku item items) (add_swap _ _ _))

total_of-append :
    (sku : Text) (items more : List StoredItem)
    → total_of sku (items ++ more) ≡ total_of sku items +ℤ total_of sku more
total_of-append sku [] more = sym (zero_add _)
total_of-append sku (i ∷ items) more = rw (total_of-append sku items more) (sym (add_assoc _ _ _))

total_of-sort_onto :
    (sku : Text) (sorted items : List StoredItem)
    → total_of sku (sort_onto sorted items) ≡ total_of sku sorted +ℤ total_of sku items
unfolding sort_onto
total_of-sort_onto sku sorted [] = sym (add_zero _)
total_of-sort_onto sku sorted (i ∷ items) =
    rw (total_of-sort_onto sku (insert_item i sorted) items, total_of-insert_item sku i sorted)
      (add_assoc _ _ _ ∙ add_swap _ _ _)

total_of-replace_item :
    (sku : Text) (item : StoredItem) (items : List StoredItem)
    → item.sku ≢ sku
    → total_of sku (replace_item item items) ≡ total_of sku items
unfolding replace_item
total_of-replace_item sku item [] other = refl
total_of-replace_item sku item (i ∷ items) other =
    if_rule_eq (λ (l : List StoredItem). total_of sku l ≡ total_of sku (i ∷ items))
      (i.sku == item.sku)
      (λ same. ground (arith, eq_iff i.sku item.sku, eq_iff i.sku sku, eq_iff item.sku sku))
      (λ _. rw (total_of-replace_item sku item items other) refl)

quantity_of_other :
    (sku : Text) (item : StoredItem)
    → item.sku ≢ sku
    → (if item.sku == sku then item.quantity else pos 0) ≡ pos 0
quantity_of_other sku item other = ground (arith, eq_iff item.sku sku)

total_of-put_item :
    (sku : Text) (item : StoredItem) (items : List StoredItem)
    → item.sku ≢ sku
    → total_of sku (put_item item items) ≡ total_of sku items
unfolding put_item ◌+ℤ◌
total_of-put_item sku item items other =
    if_rule (λ (l : List StoredItem). total_of sku l ≡ total_of sku items) (has_sku item.sku items)
      (total_of-replace_item sku item items other)
      (total_of-sort_onto sku [] (items ++ item ∷ [])
        ∙ zero_add _
        ∙ total_of-append sku items (item ∷ [])
        ∙ ap (λ z. total_of sku items +ℤ (z +ℤ pos 0)) (quantity_of_other sku item other)
        ∙ add_zero _)

Holds-replace_item :
    (item : StoredItem) (items : List StoredItem)
    → has_sku item.sku items ≡ true
    → Holds item (replace_item item items)
unfolding replace_item has_sku
Holds-replace_item item [] has = ground arith
Holds-replace_item item (i ∷ items) has =
    if_rule_eq (Holds item) (i.sku == item.sku) (λ _. inl refl)
      (λ e. inr (Holds-replace_item item items (ground arith)))

Holds-insert_item :
    (item other : StoredItem) (items : List StoredItem)
    → (item ≡ other) ⊎ Holds other items
    → Holds other (insert_item item items)
unfolding insert_item
Holds-insert_item item other [] h = h
Holds-insert_item item other (i ∷ items) h =
    if_rule (Holds other) (text_ltb item.sku i.sku) h (elim h [
      | inl e ↦ inr (Holds-insert_item item other items (inl e))
      | inr (inl e) ↦ inl e
      | inr (inr k) ↦ inr (Holds-insert_item item other items (inr k))
    ])

Holds-sort_onto :
    (item : StoredItem) (sorted items : List StoredItem)
    → Holds item sorted ⊎ Holds item items
    → Holds item (sort_onto sorted items)
unfolding sort_onto
Holds-sort_onto item sorted [] (inl h) = h
Holds-sort_onto item sorted [] (inr h) = ground arith
Holds-sort_onto item sorted (i ∷ items) h =
    Holds-sort_onto item (insert_item i sorted) items (elim h [
      | inl k ↦ inl (Holds-insert_item i item sorted (inr k))
      | inr (inl e) ↦ inl (Holds-insert_item i item sorted (inl e))
      | inr (inr k) ↦ inr k
    ])

Holds-append : (item : StoredItem) (items : List StoredItem) → Holds item (items ++ item ∷ [])
Holds-append item [] = inl refl
Holds-append item (i ∷ items) = inr (Holds-append item items)

pub put_item-Holds :
    (item : StoredItem) (items : List StoredItem) → Holds item (put_item item items)
unfolding put_item
put_item-Holds item items =
    if_rule_eq (Holds item) (has_sku item.sku items) (Holds-replace_item item items)
      (λ _. Holds-sort_onto item [] _ (inr (Holds-append item items)))

get_items-insert :
    (carts : Carts) (customer_id other : Text) (r : CartRecord)
    → get_items (insert customer_id r carts) other
      ≡ (if customer_id == other then r else get_items carts other)
unfolding get_items
get_items-insert carts customer_id other r =
    rw (lookup-insert customer_id other r carts) (ground arith)

-- An upsert puts the line into the customer's cart and changes what is held of no other SKU, and no
-- other customer's cart.
pub upsert_item_lem :
    (carts : Carts) (customer_id : Text) (item : StoredItem) (now : ℕ)
    → Holds item (get_items (upsert_item carts customer_id item now) customer_id).items
      × ((sku : Text)
          → item.sku ≢ sku
          → total_of sku (get_items (upsert_item carts customer_id item now) customer_id).items
            ≡ total_of sku (get_items carts customer_id).items)
      × ((other : Text)
          → customer_id ≢ other
          → get_items (upsert_item carts customer_id item now) other ≡ get_items carts other)
unfolding upsert_item
upsert_item_lem carts customer_id item now = (
  rw (get_items-insert carts customer_id customer_id _, eq_refl customer_id)
      (put_item-Holds item _),
  λ sku different.
      rw (get_items-insert carts customer_id customer_id _, eq_refl customer_id)
        (total_of-put_item sku item _ different),
  λ other different.
      rw (get_items-insert carts customer_id other _) (ground (arith, eq_iff customer_id other)),
)
