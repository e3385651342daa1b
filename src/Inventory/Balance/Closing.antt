-- ===== src/Inventory/Balance/Closing.antt =====
-- FinalizeReservation on a store that is right (product/pkg/infra/memory/inventory_store.go).
use schick.Prelude.{
  ℕ, ◌+◌, ◌≡◌, ◌≢◌, refl, subst, List, Option, some, arith, Text, eq_refl, inl, inr, ok, err,
  lookup, insert, lookup-insert, found-insert,
}
use schick.Inventory.{
  StoreError, reservation_closed, reservation_already_committed, reservation_already_released,
  StockItem, ReservationStatus, active, committed, released, Reservation, ProductStore, Store,
}
use schick.Inventory.Reserving.{sort_lines, is_committed, finalize_reservation}
use schick.Inventory.Balance.{line_quantity, held_by, held, Holds, IsLine, IsStocked, held-insert}
use schick.Inventory.Balance.Lines.{line_quantity-sort_lines, All-sort_lines}
use schick.Inventory.Balance.Loops.{settle_lines-Holds}

-- The store after a reservation is closed.
pub closed_stock :
    (s : Store) (id : Text) (r q : Reservation)
    → IsStocked s
    → lookup id s.reservations ≡ some r
    → r.status ≡ active
    → ((k : Text) → held_by k q ≡ 0)
    → (k : Text)
    → Holds
        (lookup k s.items)
        (held k (insert id q s.reservations) + line_quantity k (sort_lines r.items))
closed_stock s id r q h e is_active is_closed k =
    subst (Holds (lookup k s.items))
      (ground (
        arith,
        held-insert k id q r s.reservations e,
        is_closed k,
        line_quantity-sort_lines k r.items,
        is_active,
      ))
      (h.stock k)

closed-IsStocked :
    (s : Store) (id : Text) (r q : Reservation) (items : List (Text × StockItem))
    → IsStocked s
    → lookup id s.reservations ≡ some r
    → q.items ≡ r.items
    → ((k : Text) → Holds (lookup k items) (held k (insert id q s.reservations)))
    → IsStocked (record s { items = items; reservations = insert id q s.reservations })
closed-IsStocked s id r q items h e same stock = record {
  stock = stock;
  lines = λ k p f. elim (found-insert id k q p s.reservations f) [
    | inl (_, g) ↦ rw g (rw same (h.lines id r e))
    | inr there ↦ h.lines k p there
  ];
  numbered = h.numbered;
  last = h.last;
  issued = λ k p f. elim (found-insert id k q p s.reservations f) [
    | inl (g, _) ↦ rw g (h.issued id r e)
    | inr there ↦ h.issued k p there
  ];
}

restocked-IsStocked :
    (s : Store) (p : Option ProductStore) → IsStocked s → IsStocked (record s { products = p })
restocked-IsStocked s p h = record {
  stock = h.stock;
  lines = h.lines;
  numbered = h.numbered;
  last = h.last;
  issued = h.issued;
}

pub closed_holds :
    (k : Text) (r : Reservation) (status : ReservationStatus) (now : ℕ)
    → status ≢ active
    → held_by k (record r { status = status; updated_at = now }) ≡ 0
closed_holds k r status now h = ground (arith, h)

-- On a store that is right, closing an active reservation succeeds: the answer is the reservation with
-- the new status, and the store that is left is right.
pub finalize_reservation_lem :
    (s : Store) (id : Text) (r : Reservation) (status : ReservationStatus) (now : ℕ)
    → IsStocked s
    → lookup id s.reservations ≡ some r
    → r.status ≡ active
    → status ≢ active
    → IsStocked (finalize_reservation s id status now).0
      × ((finalize_reservation s id status now).1
          ≡ ok (record r { status = status; updated_at = now }))
      × (lookup id (finalize_reservation s id status now).0.reservations
          ≡ some (record r { status = status; updated_at = now }))
unfolding finalize_reservation
finalize_reservation_lem s id r status now h e is_active is_closed =
    let q = record r { status = status; updated_at = now } in
    let (after, same, stock) =
      settle_lines-Holds (is_committed status) now (sort_lines r.items) s.items
        (λ k. held k (insert id q s.reservations)) (All-sort_lines IsLine r.items (h.lines id r e))
        (closed_stock s id r q h e is_active (λ k. closed_holds k r status now is_closed)) in
    rw (finalize_reservation, e)
      (rw is_active (
        rw same (
          restocked-IsStocked
              (record s { items = after; reservations = insert id q s.reservations }) _
              (closed-IsStocked s id r q after h e refl stock),
          refl,
          rw (lookup-insert id id q s.reservations) (ground (arith, eq_refl id)),
        )))

-- The error of closing a reservation again.
abbrev closed_error : ReservationStatus → StoreError
closed_error committed = reservation_already_committed
closed_error released = reservation_already_released
closed_error active = reservation_closed

closed_again :
    (t : Store) (id : Text) (q : Reservation) (status again : ReservationStatus) (later : ℕ)
    → lookup id t.reservations ≡ some q
    → q.status ≡ status
    → status ≢ active
    → finalize_reservation t id again later ≡ (t, err (closed_error status))
unfolding finalize_reservation
closed_again t id q active again later e f k = absurd (k refl)
closed_again t id q committed again later e f k = rw (finalize_reservation, e) (rw f refl)
closed_again t id q released again later e f k = rw (finalize_reservation, e) (rw f refl)

-- A reservation is closed once: a second attempt, of whatever kind, changes nothing and says how it was
-- closed.
pub finalize_reservation_once :
    (s : Store) (id : Text) (r : Reservation) (status again : ReservationStatus) (now later : ℕ)
    → IsStocked s
    → lookup id s.reservations ≡ some r
    → r.status ≡ active
    → status ≢ active
    → let t = (finalize_reservation s id status now).0 in
      finalize_reservation t id again later ≡ (t, err (closed_error status))
finalize_reservation_once s id r status again now later h e is_active is_closed =
    let (_, _, f) = finalize_reservation_lem s id r status now h e is_active is_closed in
    closed_again (finalize_reservation s id status now).0 id _ status again later f refl is_closed
