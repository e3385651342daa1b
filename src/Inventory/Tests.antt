-- ===== src/Inventory/Tests.antt =====
-- Runs of the inventory service on a small store.
use schick.Prelude.{
  ◌-◌, ◌^◌, ◌≡◌, refl, subst, pos, negsuc, List, [], ◌∷◌, none, some, arith, codes, All, ok, err,
  lookup, insert, ◌==◌, trim, to_upper, decimal, decimal6, digits_onto, zeros_onto, text_ltb,
  trim_right, trim_left, is_space, ◌+ℤ◌, ◌-ℤ◌,
}
use schick.Prelude.Word
use schick.Inventory.{
  StoreError, available, committed, released, ReservationItem, Reservation, new_reservation, Store,
  ensure_item, set_quantity,
}
use schick.Inventory.Reserving.{
  insert_line, sort_lines, check_lines, reserve_lines, merge, reservation_id, create_reservation,
  settle_lines, finalize_reservation,
}
use schick.Inventory.Balance.{line_quantity, IsLine, IsStocked, Keeps}
use schick.Inventory.Balance.Lines.{IsOnly}
use schick.Inventory.Balance.Steps.{create_reservation-IsStocked}
use schick.Inventory.Balance.Closing.{finalize_reservation_lem, finalize_reservation_once}
use schick.Inventory.Service.{
  SkuRef, ReservationItemRef, VariantResolver, normalize_sku, add_line, to_lines, resolve,
  upsert_item, aggregate, resolve_reservation_items, reserve, close_reservation, commit_reservation,
}
use schick.Inventory.Requests.{resolve_reservation_items_lem}
use schick.Inventory.Balance.Sales.{HasSold, finalize_reservation-HasSold}
use schick.Inventory.Requests.Serving.{
  upserts, reserves, step, Reaches, begins, calls, Reaches-IsStocked,
}

-- What the runs compute through.
inventory_code : Unit {0}
unfolding step reserve trim trim_right trim_left is_space resolve_reservation_items aggregate
    resolve normalize_sku to_upper create_reservation check_lines sort_lines to_lines add_line
    lookup insert ◌==◌ finalize_reservation insert_line merge reservation_id reserve_lines
    settle_lines close_reservation commit_reservation upsert_item available ensure_item
    new_reservation set_quantity decimal decimal6 digits_onto zeros_onto ◌+ℤ◌ ◌-ℤ◌ text_ltb Word.add
    Word.sub Word.wrap
inventory_code = tt

-- Every SkuID is known; a sku S has the SkuID id-S.
abbrev catalog : VariantResolver
catalog = record { by_sku_id = λ k. some (k, k); by_sku = λ k. some (codes "id-A", k) }

abbrev shoes : SkuRef
shoes = record { sku_id = codes "id-A"; sku = codes "" }

abbrev shoes_by_sku : SkuRef
shoes_by_sku = record { sku_id = codes ""; sku = codes " a" }

-- The same variant twice, once by each identifier.
abbrev request : List ReservationItemRef
request =
    record { ref = shoes; quantity = pos 2 } ∷ record { ref = shoes_by_sku; quantity = pos 1 } ∷ []

abbrev empty_store : Store
empty_store = record { items = []; reservations = []; next_id = pos 0; products = none }

abbrev five_shoes : Store
five_shoes = record empty_store {
  items =
      (
        codes "id-A",
        record {
          sku_id = codes "id-A";
          sku = codes "id-A";
          quantity = pos 5;
          reserved = pos 0;
          updated_at = 1;
        },
      )
      ∷ [];
}

abbrev three_lines : List ReservationItem
three_lines = record { sku_id = codes "id-A"; sku = codes "id-A"; quantity = pos 3 } ∷ []

abbrev reservation : Reservation
reservation = new_reservation (codes "res_000001") (codes "order_1") three_lines 2

abbrev three_reserved : Store
three_reserved = record empty_store {
  items =
      (
        codes "id-A",
        record {
          sku_id = codes "id-A";
          sku = codes "id-A";
          quantity = pos 5;
          reserved = pos 3;
          updated_at = 2;
        },
      )
      ∷ [];
  reservations = (codes "res_000001", reservation) ∷ [];
  next_id = pos 1;
}

resolves : resolve_reservation_items catalog request ≡ ok three_lines
unfolding inventory_code
resolves = refl

upserts_five : step catalog empty_store (1, upserts shoes (pos 5)) ≡ five_shoes
unfolding inventory_code
upserts_five = refl

reserves_three : step catalog five_shoes (2, reserves (codes " order_1") request) ≡ three_reserved
unfolding inventory_code
reserves_three = refl

commits_three :
    (commit_reservation three_reserved (codes "res_000001") 3).0.items
    ≡ (
      codes "id-A",
      record {
        sku_id = codes "id-A";
        sku = codes "id-A";
        quantity = pos 2;
        reserved = pos 0;
        updated_at = 3;
      },
    )
      ∷ []
unfolding inventory_code
commits_three = refl

-- Two lines of 2^63 - 1 of one variant come to -2, and the reservation of them is made: the item's
-- reserved quantity is then negative.
wraps :
    step catalog five_shoes (
      2,
      reserves (codes "order_1") (
          record { ref = shoes; quantity = pos (2 ^ 63 - 1) }
          ∷ record { ref = shoes; quantity = pos (2 ^ 63 - 1) }
          ∷ []),
    )
    ≡ record empty_store {
      items =
          (
            codes "id-A",
            record {
              sku_id = codes "id-A";
              sku = codes "id-A";
              quantity = pos 5;
              reserved = negsuc 1;
              updated_at = 2;
            },
          )
          ∷ [];
      reservations =
          (
            codes "res_000001",
            new_reservation
                (codes "res_000001")
                (codes "order_1")
                (record { sku_id = codes "id-A"; sku = codes "id-A"; quantity = negsuc 1 } ∷ [])
                2,
          )
          ∷ [];
      next_id = pos 1;
    }
unfolding inventory_code
wraps = refl

reached : Reaches catalog three_reserved
reached = subst (Reaches catalog) reserves_three (
    calls five_shoes 2 (reserves (codes " order_1") request)
      (subst (Reaches catalog) upserts_five (
        calls empty_store 1 (upserts shoes (pos 5)) (begins none) (omega arith)
          (omega arith, omega arith)))
      (omega arith) (omega arith))

Reaches-IsStocked_example : IsStocked three_reserved
Reaches-IsStocked_example = Reaches-IsStocked catalog three_reserved reached

three_reserved-IsStocked : IsStocked three_reserved
three_reserved-IsStocked = Reaches-IsStocked catalog three_reserved reached

finds_reservation : lookup (codes "res_000001") three_reserved.reservations ≡ some reservation
unfolding inventory_code
finds_reservation = refl

finalize_reservation_lem_example :
    IsStocked (finalize_reservation three_reserved (codes "res_000001") committed 3).0
    × ((finalize_reservation three_reserved (codes "res_000001") committed 3).1
        ≡ ok (record reservation { status = committed; updated_at = 3 }))
    × (lookup
          (codes "res_000001")
          (finalize_reservation three_reserved (codes "res_000001") committed 3).0.reservations
        ≡ some (record reservation { status = committed; updated_at = 3 }))
unfolding inventory_code
finalize_reservation_lem_example =
    finalize_reservation_lem three_reserved (codes "res_000001") reservation committed 3
      three_reserved-IsStocked finds_reservation refl (ground arith)

finalize_reservation_once_example :
    let t = (finalize_reservation three_reserved (codes "res_000001") released 3).0 in
    finalize_reservation t (codes "res_000001") committed 4
    ≡ (t, err StoreError.reservation_already_released)
unfolding inventory_code
finalize_reservation_once_example =
    finalize_reservation_once three_reserved (codes "res_000001") reservation released committed 3 4
      three_reserved-IsStocked finds_reservation refl (ground arith)

five_shoes-IsStocked : IsStocked five_shoes
five_shoes-IsStocked = subst IsStocked upserts_five (
    Reaches-IsStocked catalog (step catalog empty_store (1, upserts shoes (pos 5))) (
      calls empty_store 1 (upserts shoes (pos 5)) (begins none) (omega arith)
        (omega arith, omega arith)))

resolve_reservation_items_lem_example :
    All IsLine three_lines × All (IsOnly three_lines) three_lines
resolve_reservation_items_lem_example =
    resolve_reservation_items_lem catalog request three_lines (omega arith) resolves

create_reservation-IsStocked_example :
    Keeps (create_reservation five_shoes (codes "order_1") three_lines 2)
create_reservation-IsStocked_example =
    create_reservation-IsStocked five_shoes (codes "order_1") three_lines 2 five_shoes-IsStocked
      (ground (arith, five_shoes-IsStocked.last))
      (resolve_reservation_items_lem catalog request three_lines (omega arith) resolves).0
      (resolve_reservation_items_lem catalog request three_lines (omega arith) resolves).1

creates_three :
    create_reservation five_shoes (codes "order_1") three_lines 2 ≡ ok (three_reserved, reservation)
unfolding inventory_code
creates_three = refl

finalize_reservation-HasSold_example :
    HasSold
      (line_quantity (codes "id-A") three_lines)
      (lookup (codes "id-A") three_reserved.items)
      (lookup
        (codes "id-A")
        (finalize_reservation three_reserved (codes "res_000001") committed 3).0.items)
unfolding new_reservation
finalize_reservation-HasSold_example =
    finalize_reservation-HasSold three_reserved (codes "res_000001") reservation 3 (codes "id-A")
      three_reserved-IsStocked finds_reservation refl
