-- ===== src/Inventory/Balance/Steps.antt =====
-- CreateReservation on a store that is right (product/pkg/infra/memory/inventory_store.go).
use schick.Prelude.{
  ℕ, suc, ◌+◌, ◌^◌, ◌<◌, ◌≤◌, ◌≡◌, refl, ◌∙◌, sym, ap, subst, pos, List, [], ◌∷◌, none, some, arith,
  Text, codes, inl, inr, Option-cases, All, lookup, insert, found-insert, decimal6,
  decimal6_injective,
}
use mathlib.Core.List.{append_cancel_left}
use schick.Prelude.Word
use schick.Prelude.Word.{add-pos}
use schick.Inventory.{ReservationItem, Reservation, new_reservation, Store}
use schick.Inventory.Reserving.{
  sort_lines, check_lines, current, reserve_lines, merge, reservation_id, create_reservation,
}
use schick.Inventory.Balance.{
  line_quantity, held, Holds, IsLine, IsStocked, Keeps, held-insert_fresh,
}
use schick.Inventory.Balance.Lines.{
  IsOnly, line_quantity-sort_lines, All-sort_lines, check_lines-HasRoom,
}
use schick.Inventory.Balance.Loops.{lookup-merge, reserve_lines-Holds}

-- Two numbers that are not negative have two reservation ids.
pub reservation_id_injective : (m n : ℕ) → reservation_id (pos m) ≡ reservation_id (pos n) → m ≡ n
unfolding reservation_id
reservation_id_injective m n h =
    decimal6_injective m n (append_cancel_left (codes "res_") (decimal6 m) (decimal6 n) h)

IsOnly-sort_lines :
    (items ls : List ReservationItem) → All (IsOnly items) ls → All (IsOnly (sort_lines items)) ls
IsOnly-sort_lines items [] h = tt
IsOnly-sort_lines items (l ∷ ls) h =
    (line_quantity-sort_lines l.sku_id items ∙ h.0, IsOnly-sort_lines items ls h.1)

fresh_id :
    (s : Store) (h : IsStocked s) (n : ℕ)
    → h.numbered < n
    → lookup (reservation_id (pos n)) s.reservations ≡ none
fresh_id s h n b = elim (Option-cases (lookup (reservation_id (pos n)) s.reservations)) [
  | inl e ↦ e
  | inr (r, e) ↦
      let (m, same, c) = h.issued (reservation_id (pos n)) r e in
      let equal = reservation_id_injective n m same in ground (arith, equal, b, c)
]

reserved_stock :
    (s : Store) (items : List ReservationItem) (now : ℕ)
    → IsStocked s
    → All IsLine items
    → All (IsOnly items) items
    → check_lines s.items (sort_lines items) ≡ none
    → (k : Text)
    → Holds
        (lookup k (merge (reserve_lines s.items now (sort_lines items) []) s.items))
        (held k s.reservations + line_quantity k items)
unfolding lookup
reserved_stock s items now h lines only e k =
    let sorted = sort_lines items in
    let held_now = λ (j : Text). held j s.reservations in
    subst (λ o. Holds o (held k s.reservations + line_quantity k items))
      (sym (lookup-merge k (reserve_lines s.items now sorted []) s.items))
      (subst
        (λ n.
          Holds (current (reserve_lines s.items now sorted []) s.items k)
            (held k s.reservations + n))
        (line_quantity-sort_lines k items)
        (reserve_lines-Holds s.items now sorted [] held_now (All-sort_lines IsLine items lines)
          (check_lines-HasRoom s.items sorted held_now (All-sort_lines IsLine items lines)
            (IsOnly-sort_lines items sorted (All-sort_lines (IsOnly items) items only)) h.stock e)
          k))

new_lines :
    (s : Store) (r : Reservation) (k : Text) (q : Reservation)
    → All IsLine r.items
    → IsStocked s
    → lookup k (insert r.id r s.reservations) ≡ some q
    → All IsLine q.items
new_lines s r k q lines h e = elim (found-insert r.id k r q s.reservations e) [
  | inl (_, same) ↦ rw same lines
  | inr there ↦ h.lines k q there
]

new_issued :
    (s : Store) (r : Reservation) (k : Text) (q : Reservation) (h : IsStocked s)
    → r.id ≡ reservation_id (pos (suc h.numbered))
    → lookup k (insert r.id r s.reservations) ≡ some q
    → (n : ℕ) × (k ≡ reservation_id (pos n)) × (n ≤ suc h.numbered)
new_issued s r k q h same e = elim (found-insert r.id k r q s.reservations e) [
  | inl (here, _) ↦ (suc h.numbered, here ∙ same, omega arith)
  | inr there ↦ let (n, named, b) = h.issued k q there in (n, named, omega arith)
]

-- A reservation of lines of at least 1, no two of one SkuID, that is made in a store that is right
-- leaves a store that is right.
pub create_reservation-IsStocked :
    (s : Store) (order_id : Text) (items : List ReservationItem) (now : ℕ) (h : IsStocked s)
    → suc h.numbered < 2 ^ 63
    → All IsLine items
    → All (IsOnly items) items
    → Keeps (create_reservation s order_id items now)
unfolding create_reservation new_reservation
create_reservation-IsStocked s order_id items now h b lines only =
    let n : Word.add s.next_id (pos 1) ≡ pos (suc h.numbered) =
      rw h.last (add-pos h.numbered 1 (omega arith) ∙ ap pos (omega arith)) in
    let r = new_reservation (reservation_id (pos (suc h.numbered))) order_id items now in
    let new = fresh_id s h (suc h.numbered) (omega arith) in
    elim (Option-cases (check_lines s.items (sort_lines items))) [
      | inr (e, f) ↦ rw (create_reservation, f) tt
      | inl f ↦
          rw (create_reservation, f)
            (rw n (record {
              stock = λ k.
                  subst
                    (Holds
                      (lookup k (merge (reserve_lines s.items now (sort_lines items) []) s.items)))
                    (ground (arith, held-insert_fresh k r.id r s.reservations new))
                    (reserved_stock s items now h lines only f k);
              lines = λ k q e. new_lines s r k q lines h e;
              numbered = suc h.numbered;
              last = refl;
              issued = λ k q e. new_issued s r k q h refl e;
            }))
    ]
