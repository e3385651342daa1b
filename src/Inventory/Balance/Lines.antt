-- ===== src/Inventory/Balance/Lines.antt =====
-- The loops over a reservation's lines (product/pkg/infra/memory/inventory_store.go), item by item.
use schick.Prelude.{
  ℕ, suc, ◌+◌, ◌^◌, ◌<◌, ◌≤◌, ◌≡◌, refl, ◌∙◌, ap, subst, pos, pos_part, ltb_ℤ, false, List, [], ◌∷◌,
  Option, none, some, arith, Text, ◌==◌, eq_iff, text_ltb, ◌⊎◌, inl, inr, if◌then◌else◌, Bool-cases,
  Option-cases, if_rule_eq, All, lookup,
}
use schick.Prelude.Word.{sub-pos}
use schick.Inventory.{StockItem, available, ReservationItem}
use schick.Inventory.Reserving.{insert_line, sort_lines, check_lines}
use schick.Inventory.Balance.{line_quantity, Holds, IsLine}

line_quantity-insert_line :
    (k : Text) (l : ReservationItem) (ls : List ReservationItem)
    → line_quantity k (insert_line l ls) ≡ line_quantity k (l ∷ ls)
unfolding insert_line line_quantity
line_quantity-insert_line k l [] = refl
line_quantity-insert_line k l (m ∷ ms) = ground (arith, line_quantity-insert_line k l ms)

pub line_quantity-sort_lines :
    (k : Text) (ls : List ReservationItem) → line_quantity k (sort_lines ls) ≡ line_quantity k ls
unfolding sort_lines line_quantity
line_quantity-sort_lines k [] = refl
line_quantity-sort_lines k (l ∷ ls) =
    line_quantity-insert_line k l (sort_lines ls)
    ∙ ap (λ n. (if l.sku_id == k then pos_part l.quantity else 0) + n)
        (line_quantity-sort_lines k ls)

module _ (P : ReservationItem → Type 0) where
  All-insert_line :
      (l : ReservationItem) (ls : List ReservationItem) → P l → All P ls → All P (insert_line l ls)
  unfolding insert_line
  All-insert_line l [] h k = (h, tt)
  All-insert_line l (m ∷ ms) h k =
      if_rule_eq (λ ls. All P ls) (text_ltb m.sku_id l.sku_id)
        (λ e. (k.0, All-insert_line l ms h k.1)) (λ e. (h, k))

  pub All-sort_lines : (ls : List ReservationItem) → All P ls → All P (sort_lines ls)
  unfolding sort_lines
  All-sort_lines [] h = tt
  All-sort_lines (l ∷ ls) h = All-insert_line l (sort_lines ls) h.0 (All-sort_lines ls h.1)

  -- The lines ask nothing of an item, or one of them is about it.
  line_of :
      (k : Text) (ls : List ReservationItem)
      → All P ls
      → (line_quantity k ls ≡ 0) ⊎ ((l : ReservationItem) × (l.sku_id ≡ k) × P l)
  unfolding line_quantity
  line_of k [] h = inl refl
  line_of k (l ∷ ls) h = elim (Bool-cases (l.sku_id == k)) [
    | inl e ↦ inr (l, ground (arith, eq_iff l.sku_id k), h.0)
    | inr e ↦ elim (line_of k ls h.1) [ inl z ↦ inl (rw e (omega arith)) | inr found ↦ inr found ]
  ]

-- An item with n of it reserved, and room for m more.
abbrev pub HasRoom : Option StockItem → ℕ → ℕ → Type 0
HasRoom none n m = (n ≡ 0) × (m ≡ 0)
HasRoom (some i) n m =
    (q : ℕ) × (i.quantity ≡ pos q) × (i.reserved ≡ pos n) × (n + m ≤ q) × (q < 2 ^ 63)

abbrev IsAvailable : List (Text × StockItem) → ReservationItem → Type 0
IsAvailable items l =
    (i : StockItem) × (lookup l.sku_id items ≡ some i) × (ltb_ℤ (available i) l.quantity ≡ false)

check_lines-IsAvailable :
    (items : List (Text × StockItem)) (ls : List ReservationItem)
    → check_lines items ls ≡ none
    → All (IsAvailable items) ls
unfolding check_lines
check_lines-IsAvailable items [] h = tt
check_lines-IsAvailable items (l ∷ ls) h = elim (Option-cases (lookup l.sku_id items)) [
  | inl e ↦ ground (arith, e)
  | inr (i, e) ↦ elim (Bool-cases (ltb_ℤ (available i) l.quantity)) [
    | inl f ↦ ground (arith, e, f)
    | inr f ↦ ((i, e, f), check_lines-IsAvailable items ls (ground (arith, e, f)))
  ]
]

All-zip :
    (P Q : ReservationItem → Type 0) (ls : List ReservationItem)
    → All P ls
    → All Q ls
    → All (λ l. P l × Q l) ls
All-zip P Q [] h k = tt
All-zip P Q (l ∷ ls) h k = ((h.0, k.0), All-zip P Q ls h.1 k.1)

-- The line of its item: no other line is about the same.
abbrev pub IsOnly : List ReservationItem → ReservationItem → Type 0
IsOnly ls l = line_quantity l.sku_id ls ≡ pos_part l.quantity

HasRoom-none : (o : Option StockItem) (n : ℕ) → Holds o n → HasRoom o n 0
HasRoom-none none n h = (h, refl)
HasRoom-none (some i) n (q, a, b, c, d) = (q, a, b, omega arith, d)

available-HasRoom :
    (i : StockItem) (n m : ℕ)
    → Holds (some i) n
    → ltb_ℤ (available i) (pos m) ≡ false
    → HasRoom (some i) n m
unfolding available
available-HasRoom i n m (q, a, b, c, d) h = (q, a, b, ground (arith, sub-pos q n c d), d)

pub check_lines-HasRoom :
    (items : List (Text × StockItem)) (ls : List ReservationItem) (h : Text → ℕ)
    → All IsLine ls
    → All (IsOnly ls) ls
    → ((k : Text) → Holds (lookup k items) (h k))
    → check_lines items ls ≡ none
    → (k : Text) → HasRoom (lookup k items) (h k) (line_quantity k ls)
check_lines-HasRoom items ls h lines only holds e k =
    elim (line_of (λ l. IsLine l × (IsOnly ls l × IsAvailable items l)) k ls
      (All-zip IsLine _ ls lines
        (All-zip (IsOnly ls) (IsAvailable items) ls only (check_lines-IsAvailable items ls e)))) [
          | inl z ↦ rw z (HasRoom-none (lookup k items) (h k) (holds k))
          | inr (l, same, ((n, f), (o, (i, g, a)))) ↦
              let there : lookup k items ≡ some i = rw same at g in
              let much : line_quantity k ls ≡ suc n = ground (arith, same, o, f) in
              rw (there, much)
                (available-HasRoom i (h k) (suc n) (subst (λ x. Holds x (h k)) there (holds k))
                  (rw f at a))
        ]
