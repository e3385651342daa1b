-- ===== src/Cart/Tests.antt =====
-- A cart at work: a line put in, two lines that together ask for more than there is.
use schick.Prelude.{
  ◌≡◌, ◌⊎◌, refl, pos, ◌+ℤ◌, ◌-ℤ◌, ◌*ℤ◌, List, [], ◌∷◌, some, codes, ◌==◌, trim, trim_left,
  trim_right, is_space, to_upper, text_ltb, lookup, insert, All, ok, err,
}
use schick.Prelude.Word
use schick.Prelude.Case.{upper_rune}
use schick.Cart
use schick.Cart.{
  StoredItem, Carts, normalize_sku, is_stored_item, are_stored_items, get_items, insert_item,
  sort_onto, has_sku, replace_item, put_item,
}
use schick.Cart.Stored.{Holds, total_of}
use schick.Cart.Limits.{IsAccepted, upsert_item_outcome, replace_items_outcome}
use schick.Cart.Service
use schick.Cart.Service.{Error, Clients, ItemInput, upsert_item, replace_items}

-- What the runs compute through.
cart_code : Unit {0}
unfolding trim trim_right trim_left is_space to_upper upper_rune text_ltb ◌==◌ ◌+ℤ◌ ◌-ℤ◌ ◌*ℤ◌
    Word.add Word.mul Word.wrap lookup insert normalize_sku is_stored_item are_stored_items
    get_items insert_item sort_onto has_sku replace_item put_item Cart.upsert_item
    Cart.replace_items Service.resolve_variant Service.lookup_available_qty
    Service.check_available_qty Service.unavailable_of Service.subtotal_onto Service.enrich_cart
    Service.get_cart Service.resolve_items Service.accepted_items Service.accepted_item upsert_item
    replace_items
cart_code = tt

-- Three of everything.
abbrev three_each : Clients
three_each = record {
  product = some (record {
    get_variant = λ sku. ok (record {
      sku_id = codes "id1";
      sku = sku;
      product_id = codes "p";
      color = codes "red";
      unit_price_cents = pos 1000;
      image_url = [];
    });
    get_variant_by_sku_id = λ sku_id. err Error.variant_not_found;
  });
  inventory = some (record {
    get_available_qty = λ sku. ok (pos 3);
    get_available_qty_by_sku_id = λ sku_id. ok (pos 3);
  });
}

abbrev three_of_a : ItemInput
three_of_a = record { sku_id = []; sku = codes " a "; quantity = pos 3 }

upsert_item_outcome_example :
    ((e : Error) × (upsert_item three_each [] (codes "c") three_of_a 7 (λ carts. carts)
        ≡ ([], err e)))
    ⊎ ((item : StoredItem) × (after : Carts) × ((upsert_item three_each []
            (codes "c")
            three_of_a
            7
            (λ carts. carts)).0
          ≡ after)
        × (item.quantity ≡ pos 3)
        × IsAccepted three_each item
        × Holds item (get_items after (trim (codes "c"))).items
        × ((item.sku ≡ codes "B")
            ⊎ (total_of (codes "B") (get_items after (trim (codes "c"))).items
                ≡ total_of (codes "B") (get_items [] (trim (codes "c"))).items))
        × ((trim (codes "c") ≡ codes "d")
            ⊎ (get_items after (codes "d") ≡ get_items [] (codes "d"))))
upsert_item_outcome_example =
    upsert_item_outcome three_each [] (codes "c") three_of_a 7 (λ carts. carts) (codes "B")
      (codes "d")

replace_items_outcome_example :
    ((e : Error) × (replace_items three_each [] (codes "c") (three_of_a ∷ []) 7 ≡ ([], err e)))
    ⊎ ((items : List StoredItem) × ((replace_items three_each [] (codes "c") (three_of_a ∷ []) 7).0
          ≡ Cart.replace_items [] (trim (codes "c")) items 7)
        × All (IsAccepted three_each) items)
replace_items_outcome_example = replace_items_outcome three_each [] (codes "c") (three_of_a ∷ []) 7

-- Two lines of one SKU are checked one by one: six of three are let in.
exceeds :
    total_of
      (codes "A")
      (get_items
        (replace_items three_each [] (codes "c") (three_of_a ∷ three_of_a ∷ []) 7).0
        (codes "c")).items
    ≡ pos 6
unfolding cart_code
exceeds = refl

-- The line is in the cart under its canonical SKU.
puts :
    (get_items
      (upsert_item three_each [] (codes "c") three_of_a 7 (λ carts. carts)).0
      (codes "c")).items
    ≡ record { sku_id = codes "id1"; sku = codes "A"; quantity = pos 3 } ∷ []
unfolding cart_code
puts = refl
