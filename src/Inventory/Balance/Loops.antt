-- ===== src/Inventory/Balance/Loops.antt =====
-- What the loops that change items do to them (product/pkg/infra/memory/inventory_store.go).
use schick.Prelude.{
  ℕ, suc, ◌+◌, ◌-◌, ◌≡◌, refl, ◌∙◌, sym, ap, subst, pos, Bool, true, false, List, [], ◌∷◌, Option,
  none, some, arith, Text, ◌==◌, eq_iff, eq_refl, inl, inr, if◌then◌else◌, Bool-cases, Option-cases,
  All, lookup, insert, lookup-insert,
}
use schick.Prelude.Word
use schick.Prelude.Word.{add-pos, sub-pos}
use schick.Inventory.{StockItem, ReservationItem}
use schick.Inventory.Reserving.{
  bumped, bumped_in, current, reserve_lines, merge, settle_item, settle_lines,
}
use schick.Inventory.Balance.{line_quantity, Holds, IsLine}
use schick.Inventory.Balance.Lines.{HasRoom}

pub lookup-merge :
    (k : Text) (updated items : List (Text × StockItem))
    → lookup k (merge updated items) ≡ current updated items k
unfolding merge lookup
lookup-merge k [] items = refl
lookup-merge k ((j, i) ∷ updated) items =
    ground (arith, lookup-insert j k i (merge updated items), lookup-merge k updated items)

pub current-insert :
    (k j : Text) (i : StockItem) (updated items : List (Text × StockItem))
    → current (insert k i updated) items j ≡ (if k == j then some i else current updated items j)
current-insert k j i updated items = ground (arith, lookup-insert k j i updated)

-- What a line of n adds at an item.
abbrev pub share_of : ReservationItem → ℕ → Text → ℕ
share_of l n k = if l.sku_id == k then n else 0

bumped-HasRoom :
    (l : ReservationItem) (i : StockItem) (now n m a : ℕ)
    → l.quantity ≡ pos n
    → HasRoom (some i) a (n + m)
    → HasRoom (some (bumped i l.quantity now)) (a + n) m
bumped-HasRoom l i now n m a e (q, f, g, b, c) =
    (q, f, rw g (rw e (add-pos a n (omega arith))), omega arith, c)

HasRoom-Holds : (o : Option StockItem) (n : ℕ) → HasRoom o n 0 → Holds o (n + 0)
HasRoom-Holds none n h = omega (arith, h.0)
HasRoom-Holds (some i) n (q, a, b, c, d) = (q, a, b ∙ ap pos (omega arith), c, d)

absurd_room {ℓ} :
    {A : Type ℓ} (l : ReservationItem) (ls : List ReservationItem) (a n : ℕ)
    → l.quantity ≡ pos (suc n)
    → HasRoom none a (line_quantity l.sku_id (l ∷ ls))
    → A
unfolding line_quantity
absurd_room l ls a n e h = ground (arith, e, h, eq_refl l.sku_id)

other_room : (o : Option StockItem) (n m : ℕ) → HasRoom o n (0 + m) → HasRoom o (n + 0) m
other_room none n m h = (omega (arith, h.0), omega (arith, h.1))
other_room (some i) n m (q, a, b, c, d) = (q, a, b ∙ ap pos (omega arith), omega arith, d)

bumped_room :
    (l : ReservationItem) (ls : List ReservationItem) (items updated : List (Text × StockItem))
    (h : Text → ℕ) (i : StockItem) (n now : ℕ)
    → l.quantity ≡ pos (suc n)
    → current updated items l.sku_id ≡ some i
    → ((k : Text) → HasRoom (current updated items k) (h k) (line_quantity k (l ∷ ls)))
    → (k : Text)
    → HasRoom
        (current (insert l.sku_id (bumped i l.quantity now) updated) items k)
        (h k + share_of l (suc n) k)
        (line_quantity k ls)
unfolding line_quantity
bumped_room l ls items updated h i n now e f room k =
    let asked : line_quantity k (l ∷ ls) ≡ share_of l (suc n) k + line_quantity k ls =
      ground (arith, e) in
    let there = subst (HasRoom (current updated items k) (h k)) asked (room k) in
    subst (λ o. HasRoom o (h k + share_of l (suc n) k) (line_quantity k ls))
      (sym (current-insert l.sku_id k (bumped i l.quantity now) updated items))
      (elim (Bool-cases (l.sku_id == k)) [
        | inl b ↦
            let same : l.sku_id ≡ k = ground (arith, eq_iff l.sku_id k) in
            let known : current updated items k ≡ some i =
              subst (λ x. current updated items x ≡ some i) same f in
            rw b (
              bumped-HasRoom l i now (suc n) (line_quantity k ls) (h k) e
                (subst (λ o. HasRoom o (h k) (suc n + line_quantity k ls)) known (rw b at there)))
        | inr b ↦
            rw b (other_room (current updated items k) (h k) (line_quantity k ls) (rw b at there))
      ])

pub reserve_lines-Holds :
    (items : List (Text × StockItem)) (now : ℕ) (ls : List ReservationItem)
    (updated : List (Text × StockItem)) (h : Text → ℕ)
    → All IsLine ls
    → ((k : Text) → HasRoom (current updated items k) (h k) (line_quantity k ls))
    → (k : Text)
    → Holds (current (reserve_lines items now ls updated) items k) (h k + line_quantity k ls)
unfolding reserve_lines line_quantity
reserve_lines-Holds items now [] updated h lines room k =
    HasRoom-Holds (current updated items k) (h k) (room k)
reserve_lines-Holds items now (l ∷ ls) updated h ((n, e), lines) room k =
    elim (Option-cases (current updated items l.sku_id)) [
      | inl f ↦
          absurd_room l ls (h l.sku_id) n e (
            subst (λ o. HasRoom o (h l.sku_id) (line_quantity l.sku_id (l ∷ ls))) f (room l.sku_id))
      | inr (i, f) ↦
          subst
            (λ o.
              Holds (current (reserve_lines items now ls (bumped_in o l now updated)) items k)
                (h k + line_quantity k (l ∷ ls)))
            (sym f)
            (subst
              (Holds (
                current
                  (reserve_lines items now ls (insert l.sku_id (bumped i l.quantity now) updated))
                  items k))
              (ground (arith, e))
              (reserve_lines-Holds items now ls (insert l.sku_id (bumped i l.quantity now) updated)
                (λ j. h j + share_of l (suc n) j) lines
                (bumped_room l ls items updated h i n now e f room) k))
    ]

-- What a round does to an item that its line was reserved of.
abbrev pub settled : Bool → ℕ → ReservationItem → StockItem → StockItem
settled is_commit now l i =
    let j = record i { reserved = Word.sub i.reserved l.quantity } in
    record j {
      quantity = if is_commit then Word.sub j.quantity l.quantity else j.quantity;
      updated_at = now;
    }

pub settle_item_lem :
    (is_commit : Bool) (now : ℕ) (l : ReservationItem) (i : StockItem)
    (items : List (Text × StockItem)) (n a : ℕ)
    → l.quantity ≡ pos n
    → Holds (some i) (a + n)
    → (settle_item (some i) is_commit now l items
        ≡ (insert l.sku_id (settled is_commit now l i) items, none))
      × Holds (some (settled is_commit now l i)) a
settle_item_lem true now l i items n a e (q, f, g, b, c) = (
  ground (arith, e, f, g),
  (
    q - n,
    rw f (rw e (sub-pos q n (omega arith) c)),
    rw g (rw e (sub-pos (a + n) n (omega arith) (omega arith) ∙ ap pos (omega arith))),
    omega arith,
    omega arith,
  ),
)
settle_item_lem false now l i items n a e (q, f, g, b, c) = (
  ground (arith, e, f, g),
  (
    q,
    f,
    rw g (rw e (sub-pos (a + n) n (omega arith) (omega arith) ∙ ap pos (omega arith))),
    omega arith,
    c,
  ),
)

pub settled-Holds :
    (l : ReservationItem) (ls : List ReservationItem) (items : List (Text × StockItem))
    (h : Text → ℕ) (i : StockItem) (n : ℕ)
    → l.quantity ≡ pos n
    → ((k : Text) → Holds (lookup k items) (h k + line_quantity k (l ∷ ls)))
    → Holds (some i) (h l.sku_id + line_quantity l.sku_id ls)
    → (k : Text) → Holds (lookup k (insert l.sku_id i items)) (h k + line_quantity k ls)
unfolding line_quantity
settled-Holds l ls items h i n e holds here k =
    rw (lookup-insert l.sku_id k i items) (elim (Bool-cases (l.sku_id == k)) [
      | inl b ↦ rw b (
          subst (λ x. Holds (some i) (h x + line_quantity x ls)) (ground (arith, eq_iff l.sku_id k))
            here)
      | inr b ↦ rw b (subst (Holds (lookup k items)) (ground (arith, b)) (holds k))
    ])

pub settle_lines-Holds :
    (is_commit : Bool) (now : ℕ) (ls : List ReservationItem) (items : List (Text × StockItem))
    (h : Text → ℕ)
    → All IsLine ls
    → ((k : Text) → Holds (lookup k items) (h k + line_quantity k ls))
    → (after : List (Text × StockItem)) × (settle_lines is_commit now ls items ≡ (after, none))
      × ((k : Text) → Holds (lookup k after) (h k))
unfolding settle_lines line_quantity
settle_lines-Holds is_commit now [] items h lines holds =
    (items, refl, λ k. subst (Holds (lookup k items)) (omega arith) (holds k))
settle_lines-Holds is_commit now (l ∷ ls) items h ((n, e), lines) holds =
    let asked : h l.sku_id + line_quantity l.sku_id (l ∷ ls)
        ≡ h l.sku_id + line_quantity l.sku_id ls + suc n =
      ground (arith, e, eq_refl l.sku_id) in
    let here = subst (Holds (lookup l.sku_id items)) asked (holds l.sku_id) in
    elim (Option-cases (lookup l.sku_id items)) [
      | inl f ↦
          let none_held =
            subst (λ o. Holds o (h l.sku_id + line_quantity l.sku_id ls + suc n)) f here in
          ground (arith, none_held)
      | inr (i, f) ↦
          let (p, k) =
            settle_item_lem is_commit now l i items (suc n) (h l.sku_id + line_quantity l.sku_id ls)
              e (subst (λ o. Holds o (h l.sku_id + line_quantity l.sku_id ls + suc n)) f here) in
          let (after, same, then_holds) =
            settle_lines-Holds is_commit now ls (insert l.sku_id (settled is_commit now l i) items)
              h lines (settled-Holds l ls items h (settled is_commit now l i) (suc n) e holds k) in
          (after, rw f (rw p same), then_holds)
    ]
