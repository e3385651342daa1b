-- ===== src/Inventory/Balance/Sales.antt =====
-- What the commit of a reservation sells (product/pkg/infra/memory/inventory_store.go).
use schick.Prelude.{
  ℕ, suc, ◌+◌, ◌-◌, ◌≡◌, refl, ◌∙◌, sym, ap, subst, pos, true, List, [], ◌∷◌, Option, none, some,
  arith, Text, ◌==◌, eq_iff, eq_refl, inl, inr, Bool-cases, Option-cases, All, lookup, insert,
  lookup-insert,
}
use schick.Prelude.Word.{sub-pos}
use schick.Inventory.{
  StoreError, StockItem, ReservationStatus, active, committed, ReservationItem, Reservation, Store,
}
use schick.Inventory.Reserving.{sort_lines, settle_lines, finalized, finalize_reservation}
use schick.Inventory.Balance.{line_quantity, held, Holds, IsLine, IsStocked}
use schick.Inventory.Balance.Lines.{line_quantity-sort_lines, All-sort_lines}
use schick.Inventory.Balance.Closing.{closed_stock}
use schick.Inventory.Balance.Loops.{share_of, settled, settle_item_lem, settled-Holds}

-- The second state of an item is the first with n sold.
abbrev pub HasSold : ℕ → Option StockItem → Option StockItem → Type 0
HasSold n none none = n ≡ 0
HasSold n (some i) (some j) = (p : ℕ) × (i.quantity ≡ pos (p + n)) × (j.quantity ≡ pos p)
HasSold n _ _ = ⊥

HasSold-trans :
    (o p q : Option StockItem) (m n : ℕ) → HasSold m o p → HasSold n p q → HasSold (m + n) o q
HasSold-trans none none none m n h k = omega (arith, h, k)
HasSold-trans (some i) (some j) (some l) m n (a, b, c) (d, e, f) = (d, ground arith, f)
HasSold-trans none none (some l) m n h k = k
HasSold-trans none (some j) q m n h k = absurd h
HasSold-trans (some i) none q m n h k = absurd h
HasSold-trans (some i) (some j) none m n h k = k

HasSold-none : (o : Option StockItem) (n : ℕ) → Holds o n → HasSold 0 o o
HasSold-none none n h = refl
HasSold-none (some i) n (q, a, b, c, d) = (q, a ∙ ap pos (omega arith), a)

settled-HasSold :
    (now : ℕ) (l : ReservationItem) (i : StockItem) (items : List (Text × StockItem)) (n a : ℕ)
    (h : Text → ℕ) (k : Text)
    → l.quantity ≡ pos n
    → lookup l.sku_id items ≡ some i
    → Holds (some i) (a + n)
    → Holds (lookup k items) (h k)
    → HasSold
        (share_of l n k)
        (lookup k items)
        (lookup k (insert l.sku_id (settled true now l i) items))
settled-HasSold now l i items n a h k e f held_here held_there =
    rw (lookup-insert l.sku_id k (settled true now l i) items) (elim (Bool-cases (l.sku_id == k)) [
      | inl b ↦
          let there : lookup k items ≡ some i =
            subst (λ x. lookup x items ≡ some i) (ground (arith, eq_iff l.sku_id k)) f in
          let (q, c, d, g, m) = held_here in
          rw (b, there) (q - n, c ∙ ap pos (omega arith), rw c (rw e (sub-pos q n (omega arith) m)))
      | inr b ↦ rw b (HasSold-none (lookup k items) (h k) held_there)
    ])

settle_lines-HasSold :
    (now : ℕ) (ls : List ReservationItem) (items : List (Text × StockItem)) (h : Text → ℕ)
    → All IsLine ls
    → ((k : Text) → Holds (lookup k items) (h k + line_quantity k ls))
    → (k : Text)
    → HasSold (line_quantity k ls) (lookup k items) (lookup k (settle_lines true now ls items).0)
unfolding settle_lines line_quantity
settle_lines-HasSold now [] items h lines holds k =
    HasSold-none (lookup k items) (h k + 0) (holds k)
settle_lines-HasSold now (l ∷ ls) items h ((n, e), lines) holds k =
    let asked : h l.sku_id + line_quantity l.sku_id (l ∷ ls)
        ≡ h l.sku_id + line_quantity l.sku_id ls + suc n =
      ground (arith, e, eq_refl l.sku_id) in
    let here = subst (Holds (lookup l.sku_id items)) asked (holds l.sku_id) in
    elim (Option-cases (lookup l.sku_id items)) [
      | inl f ↦
          let none_held =
            subst (λ o. Holds o (h l.sku_id + line_quantity l.sku_id ls + suc n)) f here in
          ground (arith, none_held)
      | inr (i, f) ↦
          let held_here =
            subst (λ o. Holds o (h l.sku_id + line_quantity l.sku_id ls + suc n)) f here in
          let (p, g) =
            settle_item_lem true now l i items (suc n) (h l.sku_id + line_quantity l.sku_id ls) e
              held_here in
          let sold =
            settled-HasSold now l i items (suc n) (h l.sku_id + line_quantity l.sku_id ls)
              (λ x. h x + line_quantity x (l ∷ ls)) k e f held_here (holds k) in
          let later =
            settle_lines-HasSold now ls (insert l.sku_id (settled true now l i) items) h lines
              (settled-Holds l ls items h (settled true now l i) (suc n) e holds g) k in
          let all = HasSold-trans _ _ _ (share_of l (suc n) k) (line_quantity k ls) sold later in
          let round : settle_lines true now (l ∷ ls) items
              ≡ settle_lines true now ls (insert l.sku_id (settled true now l i) items) =
            rw f (rw p refl) in
          subst
            (λ (r : List (Text × StockItem) × Option StoreError).
              HasSold (line_quantity k (l ∷ ls)) (lookup k items) (lookup k r.0))
            (sym round)
            (subst
              (λ m. HasSold m (lookup k items) (
                lookup k
                  (settle_lines true now ls (insert l.sku_id (settled true now l i) items)).0))
              (ground (arith, e)) all)
    ]

finalized-items :
    (s : Store) (id : Text) (r : Reservation) (status : ReservationStatus) (now : ℕ)
    (settled : List (Text × StockItem) × Option StoreError)
    → (finalized s id r status now settled).0.items ≡ settled.0
finalized-items s id r status now (items, none) = refl
finalized-items s id r status now (items, some e) = refl

-- On a store that is right, the commit of an active reservation takes from the quantity of each item
-- exactly what the reservation's lines ask of it.
pub finalize_reservation-HasSold :
    (s : Store) (id : Text) (r : Reservation) (now : ℕ) (k : Text)
    → IsStocked s
    → lookup id s.reservations ≡ some r
    → r.status ≡ active
    → HasSold
        (line_quantity k r.items)
        (lookup k s.items)
        (lookup k (finalize_reservation s id committed now).0.items)
unfolding finalize_reservation
finalize_reservation-HasSold s id r now k h e is_active =
    let q = record r { status = committed; updated_at = now } in
    let sold =
      settle_lines-HasSold now (sort_lines r.items) s.items
        (λ j. held j (insert id q s.reservations)) (All-sort_lines IsLine r.items (h.lines id r e))
        (closed_stock s id r q h e is_active (λ j. refl)) k in
    let left : (finalize_reservation s id committed now).0.items
        ≡ (settle_lines true now (sort_lines r.items) s.items).0 =
      rw (finalize_reservation, e)
        (rw is_active (
          finalized-items s id r committed now
            (settle_lines true now (sort_lines r.items) s.items))) in
    subst (λ items. HasSold (line_quantity k r.items) (lookup k s.items) (lookup k items))
      (sym left)
      (subst
        (λ n.
          HasSold n (lookup k s.items)
            (lookup k (settle_lines true now (sort_lines r.items) s.items).0))
        (line_quantity-sort_lines k r.items) sold)
