-- ===== src/Inventory/Balance.antt =====
-- What is to hold of a store of product/pkg/infra/memory/inventory_store.go between two calls, and the
-- calls on its items.
pub mod Lines
pub mod Loops
pub mod Steps
pub mod Closing
pub mod Sales
use schick.Prelude.{
  ℕ, suc, ◌+◌, ◌-◌, ◌^◌, ◌<◌, ◌≤◌, ◌≡◌, refl, ◌∙◌, sym, ap, subst, ℤ, pos, negsuc, pos_part,
  neg_part, ltb_ℤ, Bool, true, false, not, ◌&&◌, ◌||◌, List, [], ◌∷◌, ◌++◌, Option, none, some,
  arith, Text, ◌==◌, eq_iff, eq_refl, ◌⊎◌, inl, inr, if◌then◌else◌, Bool-cases, Option-cases,
  if_rule_eq, Result, ok, err, All, lookup, insert, lookup-insert,
}
use schick.Prelude.Word
use schick.Prelude.Word.{IsInt64, add-IsInt64, add-pos, sub-pos}
use schick.Inventory.{
  StoreError, StockItem, ReservationStatus, active, ReservationItem, Reservation, Store,
  ensure_item, set_quantity, adjust_quantity,
}
use schick.Inventory.Reserving.{reservation_id}

-- What the lines ask of an item, and what the reservations hold of it.
unfoldable pub line_quantity : Text → List ReservationItem → ℕ
line_quantity k [] = 0
line_quantity k (l ∷ ls) = (if l.sku_id == k then pos_part l.quantity else 0) + line_quantity k ls

abbrev pub held_by : Text → Reservation → ℕ
held_by k r = elim r.status [ active ↦ line_quantity k r.items | _ ↦ 0 ]

unfoldable pub held : Text → List (Text × Reservation) → ℕ
held k [] = 0
held k ((_, r) ∷ rs) = held_by k r + held k rs

-- An item with n of it reserved.
abbrev pub Holds : Option StockItem → ℕ → Type 0
Holds none n = n ≡ 0
Holds (some i) n = (q : ℕ) × (i.quantity ≡ pos q) × (i.reserved ≡ pos n) × (n ≤ q) × (q < 2 ^ 63)

-- A line of at least 1.
abbrev pub IsLine : ReservationItem → Type 0
IsLine l = (n : ℕ) × (l.quantity ≡ pos (suc n))

pub record IsStocked (s : Store) : Type 0 where
  pub stock : (k : Text) → Holds (lookup k s.items) (held k s.reservations)
  pub lines : (k : Text) (r : Reservation) → lookup k s.reservations ≡ some r → All IsLine r.items
  pub numbered : ℕ
  pub last : s.next_id ≡ pos numbered
  pub issued :
      (k : Text) (r : Reservation)
      → lookup k s.reservations ≡ some r
      → (n : ℕ) × (k ≡ reservation_id (pos n)) × (n ≤ numbered)

pub held-insert_fresh :
    (k id : Text) (r : Reservation) (rs : List (Text × Reservation))
    → lookup id rs ≡ none
    → held k (insert id r rs) ≡ held_by k r + held k rs
unfolding lookup insert held
held-insert_fresh k id r [] h = refl
held-insert_fresh k id r ((j, p) ∷ rs) h = ground (arith, held-insert_fresh k id r rs)

pub held-insert :
    (k id : Text) (q r : Reservation) (rs : List (Text × Reservation))
    → lookup id rs ≡ some r
    → held k (insert id q rs) + held_by k r ≡ held k rs + held_by k q
unfolding lookup insert held
held-insert k id q r [] h = cc
held-insert k id q r ((j, p) ∷ rs) h = ground (arith, held-insert k id q r rs)

insert-Holds :
    (k j : Text) (i : StockItem) (items : List (Text × StockItem)) (h : Text → ℕ)
    → Holds (some i) (h k)
    → Holds (lookup j items) (h j)
    → Holds (lookup j (insert k i items)) (h j)
insert-Holds k j i items h here there = rw (lookup-insert k j i items) (elim (Bool-cases (k == j)) [
  | inl e ↦ rw e (subst (λ x. Holds (some i) (h x)) (ground (arith, eq_iff k j)) here)
  | inr e ↦ rw e there
])

insert-IsStocked :
    (s : Store) (k : Text) (i : StockItem)
    → IsStocked s
    → Holds (some i) (held k s.reservations)
    → IsStocked (record s { items = insert k i s.items })
insert-IsStocked s k i h here = record {
  stock = λ j. insert-Holds k j i s.items (λ x. held x s.reservations) here (h.stock j);
  lines = h.lines;
  numbered = h.numbered;
  last = h.last;
  issued = h.issued;
}

-- A row that is made for a SkuID without one keeps the store right.
pub ensure_item-IsStocked :
    (s : Store) (sku_id sku : Text) (now : ℕ)
    → IsStocked s
    → IsStocked (ensure_item s sku_id sku now)
unfolding ensure_item
ensure_item-IsStocked s sku_id sku now h = elim (Option-cases (lookup sku_id s.items)) [
  | inl e ↦
      let none_held : held sku_id s.reservations ≡ 0 =
        subst (λ o. Holds o (held sku_id s.reservations)) e (h.stock sku_id) in
      rw (ensure_item, e)
        (insert-IsStocked s sku_id _ h (0, refl, ap pos (sym none_held), ground arith, omega arith))
  | inr (i, e) ↦ rw (ensure_item, e) h
]

-- A call that succeeds leaves the store right; one that fails does not return a store.
abbrev pub Keeps : {A : Type 0} → Result StoreError (Store × A) → Type 0
Keeps (ok (s, _)) = IsStocked s
Keeps (err _) = Unit

item_reserved :
    (s : Store) (k : Text) (i : StockItem)
    → IsStocked s
    → lookup k s.items ≡ some i
    → Holds (some i) (held k s.reservations)
item_reserved s k i h e = subst (λ o. Holds o (held k s.reservations)) e (h.stock k)

requantified-Holds :
    (i : StockItem) (quantity : ℤ) (now n : ℕ)
    → Holds (some i) n
    → IsInt64 quantity
    → ltb_ℤ quantity i.reserved ≡ false
    → Holds (some (record i { quantity = quantity; updated_at = now })) n
requantified-Holds i (pos q) now n (p, e, f, _, _) b g = (q, refl, f, ground arith, b.0)
requantified-Holds i (negsuc q) now n (p, e, f, _, _) b g = ground arith

pub set_quantity-IsStocked :
    (s : Store) (sku_id : Text) (quantity : ℤ) (now : ℕ)
    → IsStocked s
    → IsInt64 quantity
    → Keeps (set_quantity s sku_id quantity now)
unfolding set_quantity
set_quantity-IsStocked s sku_id quantity now h b = elim (Option-cases (lookup sku_id s.items)) [
  | inl f ↦ rw (set_quantity, f) tt
  | inr (i, f) ↦
      rw (set_quantity, f)
        (if_rule_eq (λ (r : Result StoreError (Store × StockItem)). Keeps r)
          (ltb_ℤ quantity i.reserved) (λ e. tt)
          (λ e. insert-IsStocked s sku_id _ h (
            requantified-Holds i quantity now (held sku_id s.reservations)
              (item_reserved s sku_id i h f) b e)))
]

pub adjust_quantity-IsStocked :
    (s : Store) (sku_id : Text) (delta : ℤ) (now : ℕ)
    → IsStocked s
    → Keeps (adjust_quantity s sku_id delta now)
unfolding adjust_quantity
adjust_quantity-IsStocked s sku_id delta now h = elim (Option-cases (lookup sku_id s.items)) [
  | inl f ↦ rw (adjust_quantity, f) tt
  | inr (i, f) ↦
      let next = Word.add i.quantity delta in
      rw (adjust_quantity, f)
        (if_rule_eq (λ (r : Result StoreError (Store × StockItem)). Keeps r)
          (ltb_ℤ next (pos 0) || ltb_ℤ next i.reserved) (λ e. tt)
          (λ e. insert-IsStocked s sku_id _ h (
            requantified-Holds i next now (held sku_id s.reservations)
              (item_reserved s sku_id i h f) (add-IsInt64 i.quantity delta) (ground arith))))
]
