-- ===== src/Cart/Limits.antt =====
-- What the cart service lets into a cart: lines of at least 1 that the stock, as asked, covers.
use schick.Prelude.{
  ℕ, ◌≡◌, ◌≢◌, ◌⊎◌, inl, inr, refl, ℤ, pos, ◌≤ℤ◌, ltb_ℤ, true, List, [], ◌∷◌, Option, none, some,
  Text, arith, ◌==◌, eq_iff, is_empty, trim, map, All, Bool-cases, Result, ok, err, Result-cases,
  ◌>>=◌, refuse_if, >>=-eq-ok, ok_injective, subst, ap, ◌∙◌,
}
use schick.Cart
use schick.Cart.{
  StoredItem, UnavailableItem, Cart, CartRecord, Carts, is_stored_item, are_stored_items, get_items,
  normalize_sku,
}
use schick.Cart.Stored.{Holds, total_of, upsert_item_lem}
use schick.Cart.Service
use schick.Cart.Service.{
  Error, InventoryClient, VariantInfo, Clients, ItemInput, stored_of, canonical, resolve_variant,
  check_available_qty, lookup_available_qty, resolve_one, accepted_item, resolve_items,
  keep_unavailable, resolve_step, none_unavailable, accepted_items, get_cart, enrich_cart,
  replace_items, upsert_item,
}

no_result :
    {A : Type 0} {P : Type 0} (e : Error) {got : A} → ◌≡◌ {A = Result Error A} (err e) (ok got) → P
no_result e done = ground arith

-- The inventory, where there is one, has that much.
abbrev pub IsCovered : Option InventoryClient → StoredItem → Type 0
IsCovered none item = Unit {0}
IsCovered (some i) item =
    (qty : ℤ) × (lookup_available_qty i item.sku_id item.sku ≡ ok qty) × (item.quantity ≤ℤ qty)

abbrev pub IsAccepted : Clients → StoredItem → Type 0
IsAccepted c item = (pos 1 ≤ℤ item.quantity) × IsCovered c.inventory item

covered_within :
    (i : InventoryClient) (item : StoredItem) (qty : Result Error ℤ)
    → (qty >>= λ q.
        refuse_if
          (ltb_ℤ q item.quantity)
          (Error.insufficient_stock item.sku_id item.sku item.quantity q))
      ≡ ok tt
    → (q : ℤ) × (qty ≡ ok q) × (item.quantity ≤ℤ q)
covered_within i item (err e) done = no_result e done
covered_within i item (ok q) done = (q, refl, ground arith)

check_available_qty-IsCovered :
    (inventory : Option InventoryClient) (item : StoredItem)
    → check_available_qty inventory item ≡ ok tt
    → IsCovered inventory item
unfolding check_available_qty
check_available_qty-IsCovered none item done = tt
check_available_qty-IsCovered (some i) item done = covered_within i item _ done

is_stored_item-positive : (item : StoredItem) → is_stored_item item ≡ true → pos 1 ≤ℤ item.quantity
unfolding is_stored_item
is_stored_item-positive item h = ground arith

resolve_one-IsAccepted :
    (c : Clients) (item : StoredItem) (r : Result Error VariantInfo) (line : StoredItem)
    → pos 1 ≤ℤ item.quantity
    → resolve_one c item r ≡ ok line
    → (line.quantity ≡ item.quantity) × IsAccepted c line
resolve_one-IsAccepted c item (ok info) line positive done =
    let (_, checked, same) =
      >>=-eq-ok (check_available_qty c.inventory (canonical item info)) _ done in
    subst (λ l. (l.quantity ≡ item.quantity) × IsAccepted c l)
      (ok_injective (canonical item info) line _ _ refl refl same)
      (refl, (positive, check_available_qty-IsCovered c.inventory (canonical item info) checked))
resolve_one-IsAccepted c item (err e) line positive done =
    elim (Bool-cases (Service.is_variant_not_found e)) [
      | inl t ↦ no_result _ (rw t at done)
      | inr t ↦ no_result _ (rw t at done)
    ]

accepted_item_lem :
    (c : Clients) (customer_id : Text) (input : ItemInput) (line : StoredItem)
    → accepted_item c customer_id input ≡ ok line
    → (line.quantity ≡ input.quantity) × IsAccepted c line
unfolding accepted_item
accepted_item_lem c customer_id input line done = elim (Bool-cases (is_empty customer_id)) [
  | inl t ↦ no_result _ (rw t at done)
  | inr t ↦ elim (Bool-cases (is_stored_item (stored_of input))) [
    | inr f ↦ no_result _ (rw f at (rw t at done))
    | inl f ↦
        resolve_one-IsAccepted c (stored_of input) _ line
          (is_stored_item-positive (stored_of input) f) (rw f at (rw t at done))
  ]
]

same_or : {P : Type 0} (s t : Text) → (s ≢ t → P) → (s ≡ t) ⊎ P
same_or s t p = elim (Bool-cases (s == t)) [
  | inl e ↦ inl ((eq_iff s t).0 e)
  | inr n ↦ inr (p (λ same. grind (arith, eq_iff s t)))
]

abbrev Resolution : Type 0
Resolution = List StoredItem × List UnavailableItem

some_unavailable :
    {P : Type 0} (kept lines : List StoredItem) (u : UnavailableItem) (us : List UnavailableItem)
    → ◌≡◌ {A = Result Error Resolution} (ok (kept, u ∷ us)) (ok (lines, []))
    → P
some_unavailable kept lines u us same =
    let nil : (u ∷ us) ≡ [] = ap (λ r. r.1) (ok_injective _ _ _ _ refl refl same) in ground arith

resolved_step :
    (c : Clients) (item : StoredItem) (rest : Result Error Resolution)
    → (r : Result Error VariantInfo) (lines : List StoredItem) → pos 1 ≤ℤ item.quantity
    → ((kept : List StoredItem) → rest ≡ ok (kept, []) → All (IsAccepted c) kept)
    → resolve_step c item rest r ≡ ok (lines, [])
    → All (IsAccepted c) lines
resolved_step c item rest (err x) lines p ps done =
    elim (Bool-cases (Service.is_variant_not_found x)) [
      | inl t ↦
          (let (r, _, same) = >>=-eq-ok rest _ (rw t at done) in some_unavailable _ lines _ _ same)
      | inr t ↦ no_result _ (rw t at done)
    ]
resolved_step c item rest (ok info) lines p ps done =
    let (_, checked, more) =
      >>=-eq-ok (check_available_qty c.inventory (canonical item info)) _ done in
    let (r, found, same) = >>=-eq-ok rest _ more in
    let both = ok_injective (canonical item info ∷ r.0, r.1) (lines, []) _ _ refl refl same in
    let nil : r.1 ≡ [] = ap (λ (q : Resolution). q.1) both in
    subst (All (IsAccepted c)) (ap (λ (q : Resolution). q.0) both) (
      (p, check_available_qty-IsCovered c.inventory (canonical item info) checked),
      ps r.0 (found ∙ ap (λ us. ok (r.0, us)) nil),
    )

resolved_lines :
    (c : Clients) (items lines : List StoredItem)
    → All (λ i. pos 1 ≤ℤ i.quantity) items
    → resolve_items c items ≡ ok (lines, [])
    → All (IsAccepted c) lines
unfolding resolve_items
resolved_lines c [] lines positive done =
    let nil : [] ≡ lines = ap (λ (r : Resolution). r.0) (ok_injective _ _ _ _ refl refl done) in
    subst (All (IsAccepted c)) nil tt
resolved_lines c (item ∷ items) lines (p, ps) done =
    resolved_step c item _ _ lines p (λ kept. resolved_lines c items kept ps) done

are_stored_items-positive :
    (items : List StoredItem) → are_stored_items items ≡ true → All (λ i. pos 1 ≤ℤ i.quantity) items
unfolding are_stored_items
are_stored_items-positive [] h = tt
are_stored_items-positive (i ∷ items) h =
    (is_stored_item-positive i (ground arith), are_stored_items-positive items (ground arith))

kept_all :
    (r : Resolution) (lines : List StoredItem) → none_unavailable r ≡ ok lines → r ≡ (lines, [])
kept_all (items, []) lines done = ap (λ l. (l, [])) (ok_injective items lines _ _ refl refl done)
kept_all (items, u ∷ us) lines done = no_result _ done

accepted_items_lem :
    (c : Clients) (customer_id : Text) (inputs : List ItemInput) (lines : List StoredItem)
    → accepted_items c customer_id inputs ≡ ok lines
    → All (IsAccepted c) lines
unfolding accepted_items
accepted_items_lem c customer_id inputs lines done = elim (Bool-cases (is_empty customer_id)) [
  | inl t ↦ no_result _ (rw t at done)
  | inr t ↦ elim (Bool-cases (are_stored_items (map stored_of inputs))) [
    | inr f ↦ no_result _ (rw f at (rw t at done))
    | inl f ↦
        (let (r, found, kept) =
            >>=-eq-ok (resolve_items c (map stored_of inputs)) _ (rw f at (rw t at done)) in
          resolved_lines c _ lines (are_stored_items-positive _ f)
            (found ∙ ap ok (kept_all r lines kept)))
  ]
]

-- UpsertItem fails and leaves the carts as they are, or puts one line into the customer's cart: of the
-- quantity asked for, which is at least 1 and no more than the inventory, where there is one, has of it;
-- of every other SKU the cart holds what it held, and no other customer's cart changes.
pub upsert_item_outcome :
    (c : Clients) (carts : Carts) (customer_id : Text) (input : ItemInput) (now : ℕ)
    → (others : Carts → Carts) (sku other : Text)
    → ((e : Error) × (upsert_item c carts customer_id input now others ≡ (carts, err e)))
      ⊎ ((item : StoredItem) × (after : Carts) × ((upsert_item c carts customer_id input now
              others).0
            ≡ others after)
          × (item.quantity ≡ input.quantity)
          × IsAccepted c item
          × Holds item (get_items after (trim customer_id)).items
          × ((item.sku ≡ sku)
              ⊎ (total_of sku (get_items after (trim customer_id)).items
                  ≡ total_of sku (get_items carts (trim customer_id)).items))
          × ((trim customer_id ≡ other) ⊎ (get_items after other ≡ get_items carts other)))
unfolding upsert_item
upsert_item_outcome c carts customer_id input now others sku other =
    elim (Result-cases (accepted_item c (trim customer_id) input)) [
      | inr (e, same) ↦ inl (e, rw (upsert_item, same) refl)
      | inl (item, same) ↦
          (let (quantity, accepted) = accepted_item_lem c (trim customer_id) input item same in
            let (held, others_held, elsewhere) =
              upsert_item_lem carts (trim customer_id) item now in
            inr (
              item,
              Cart.upsert_item carts (trim customer_id) item now,
              rw (upsert_item, same) refl,
              quantity,
              accepted,
              held,
              same_or item.sku sku (others_held sku),
              same_or (trim customer_id) other (elsewhere other),
            ))
    ]

-- ReplaceItems fails and leaves the carts as they are, or makes the cart of lines of at least 1 each, none
-- of which asks for more than the inventory, where there is one, has of it.
pub replace_items_outcome :
    (c : Clients) (carts : Carts) (customer_id : Text) (inputs : List ItemInput) (now : ℕ)
    → ((e : Error) × (replace_items c carts customer_id inputs now ≡ (carts, err e)))
      ⊎ ((items : List StoredItem) × ((replace_items c carts customer_id inputs now).0
            ≡ Cart.replace_items carts (trim customer_id) items now)
          × All (IsAccepted c) items)
unfolding replace_items
replace_items_outcome c carts customer_id inputs now =
    elim (Result-cases (accepted_items c (trim customer_id) inputs)) [
      | inr (e, same) ↦ inl (e, rw (replace_items, same) refl)
      | inl (items, same) ↦ inr (
        items,
        rw (replace_items, same) refl,
        accepted_items_lem c (trim customer_id) inputs items same,
      )
    ]
