-- ===== src/Inventory/Requests.antt =====
-- The lines that resolveReservationItems makes of a request (product/pkg/service/inventory_service.go).
pub mod Serving
use schick.Prelude.{
  ℕ, zero, suc, ◌+◌, ◌^◌, ◌<◌, ◌≤◌, ◌≡◌, refl, ◌∙◌, sym, ap, subst, ℤ, pos, negsuc, pos_part, leb_ℤ,
  Bool, true, false, List, [], ◌∷◌, Option, none, some, arith, Text, ◌==◌, eq_iff, eq_refl, inl,
  inr, if◌then◌else◌, Bool-cases, Option-cases, All, Result, ok, err, >>=-eq-ok, refuse_if, lookup,
  insert, lookup-insert, found-insert,
}
use schick.Prelude.Word
use schick.Prelude.Word.{add-pos}
use schick.Inventory.{ReservationItem}
use schick.Inventory.Balance.{line_quantity, IsLine}
use schick.Inventory.Balance.Lines.{IsOnly}
use schick.Inventory.Service.{
  Error, invalid_quantity, ReservationItemRef, VariantResolver, resolve, add_line, to_lines,
  aggregate, resolve_reservation_items,
}

abbrev Lines : Type 0
Lines = List (Text × (Text × ℤ))

abbrev IsDistinct : Lines → Type 0
IsDistinct [] = Unit
IsDistinct ((k, _) ∷ m) = (lookup k m ≡ none) × IsDistinct m

insert-IsDistinct : (k : Text) (v : Text × ℤ) (m : Lines) → IsDistinct m → IsDistinct (insert k v m)
unfolding insert lookup
insert-IsDistinct k v [] h = (refl, tt)
insert-IsDistinct k v ((j, w) ∷ m) h = elim (Bool-cases (j == k)) [
  | inl e ↦ rw e (subst (λ x. lookup x m ≡ none) (ground (arith, eq_iff j k)) h.0, h.1)
  | inr e ↦ rw e (
    rw (lookup-insert k j v m) (ground (arith, eq_iff j k, eq_iff k j, h.0)),
    insert-IsDistinct k v m h.1,
  )
]

-- The lines made so far, when the request has asked for n: each has at least 1, and n at most.
record IsWithin (m : Lines) (n : ℕ) : Type 0 where
  distinct : IsDistinct m
  counted :
      (k : Text) (v : Text × ℤ) → lookup k m ≡ some v → (q : ℕ) × (v.1 ≡ pos (suc q)) × (suc q ≤ n)

abbrev pub requested : List ReservationItemRef → ℕ
requested [] = 0
requested (item ∷ items) = pos_part item.quantity + requested items

inserted-IsWithin :
    (k : Text) (v : Text × ℤ) (m : Lines) (n a q : ℕ)
    → IsWithin m n
    → v.1 ≡ pos (suc q)
    → suc q ≤ n + a
    → IsWithin (insert k v m) (n + a)
inserted-IsWithin k v m n a q h e b = record {
  distinct = insert-IsDistinct k v m h.distinct;
  counted = λ j w f. elim (found-insert k j v w m f) [
    | inl (_, same) ↦ (q, rw same e, b)
    | inr there ↦ let (p, g, c) = h.counted j w there in (p, g, omega arith)
  ];
}

add_line-IsWithin :
    (k sku : Text) (a : ℕ) (m : Lines) (n : ℕ)
    → IsWithin m n
    → n + suc a < 2 ^ 63
    → IsWithin (add_line k sku (pos (suc a)) m) (n + suc a)
unfolding add_line
add_line-IsWithin k sku a m n h b = elim (Option-cases (lookup k m)) [
  | inl e ↦
      rw (add_line, e) (inserted-IsWithin k (sku, pos (suc a)) m n (suc a) a h refl (omega arith))
  | inr ((first, q), e) ↦
      let (p, f, c) = h.counted k (first, q) e in
      rw (add_line, e)
        (inserted-IsWithin k (first, Word.add q (pos (suc a))) m n (suc a) (p + suc a) h
          (rw f (add-pos (suc p) (suc a) (omega arith) ∙ ap pos (omega arith))) (omega arith))
]

abbrev amount : Option (Text × ℤ) → ℕ
amount none = 0
amount (some v) = pos_part v.1

line_quantity-to_lines :
    (k : Text) (m : Lines) → IsDistinct m → line_quantity k (to_lines m) ≡ amount (lookup k m)
unfolding lookup to_lines line_quantity
line_quantity-to_lines k [] h = refl
line_quantity-to_lines k ((j, v) ∷ m) h =
    ground (arith, eq_iff j k, line_quantity-to_lines k m h.1, h.0)

lines-IsOnly :
    (all : List ReservationItem) (m : Lines)
    → IsDistinct m
    → ((k : Text) (v : Text × ℤ) → lookup k m ≡ some v → line_quantity k all ≡ pos_part v.1)
    → All (IsOnly all) (to_lines m)
unfolding lookup to_lines
lines-IsOnly all [] d h = tt
lines-IsOnly all ((j, v) ∷ m) d h = (
  h j v (ground (arith, eq_refl j)),
  lines-IsOnly all m d.1 (λ k w e. h k w (ground (arith, eq_iff j k, d.0, e))),
)

lines_IsLine :
    (m : Lines)
    → IsDistinct m
    → ((k : Text) (v : Text × ℤ) → lookup k m ≡ some v → (q : ℕ) × (v.1 ≡ pos (suc q)))
    → All IsLine (to_lines m)
unfolding lookup to_lines
lines_IsLine [] d h = tt
lines_IsLine ((j, v) ∷ m) d h = (
  h j v (ground (arith, eq_refl j)),
  lines_IsLine m d.1 (λ k w e. h k w (ground (arith, eq_iff j k, d.0, e))),
)

positive :
    (q : ℤ) → refuse_if (leb_ℤ q (pos 0)) invalid_quantity ≡ ok tt → (a : ℕ) × (q ≡ pos (suc a))
positive (pos zero) h = ground (arith, h)
positive (pos (suc a)) h = (a, refl)
positive (negsuc a) h = ground (arith, h)

no_lines : IsWithin [] 0
unfolding lookup
no_lines = record { distinct = tt; counted = λ k v e. ground (arith, e) }

module _ (variants : VariantResolver) where
  aggregate-IsWithin :
      (items : List ReservationItemRef) (m after : Lines) (n : ℕ)
      → IsWithin m n
      → n + requested items < 2 ^ 63
      → aggregate variants items m ≡ ok after
      → IsWithin after (n + requested items)
  unfolding aggregate
  aggregate-IsWithin [] m after n h b e =
      let same : m ≡ after = cc in
      subst (λ x. IsWithin x (n + 0)) same (subst (IsWithin m) (omega arith) h)
  aggregate-IsWithin (item ∷ items) m after n h b e =
      let (_, g, e1) = >>=-eq-ok (refuse_if (leb_ℤ item.quantity (pos 0)) invalid_quantity) _ e in
      let (v, _, e2) = >>=-eq-ok (resolve variants item.ref) _ e1 in
      let (a, f) = positive item.quantity g in
      let here = add_line-IsWithin v.0 v.1 a m n h (ground (arith, f, b)) in
      subst (IsWithin after) (ground (arith, f)) (
        aggregate-IsWithin items (add_line v.0 v.1 item.quantity m) after (n + suc a) (rw f here)
          (ground (arith, f, b)) e2)

  -- A request for less than 2^63 in all is resolved to lines of at least 1 each, no two of which are of
  -- one SkuID.
  pub resolve_reservation_items_lem :
      (items : List ReservationItemRef) (lines : List ReservationItem)
      → requested items < 2 ^ 63
      → resolve_reservation_items variants items ≡ ok lines
      → All IsLine lines × All (IsOnly lines) lines
  unfolding resolve_reservation_items
  resolve_reservation_items_lem [] lines b e = ground (arith, e)
  resolve_reservation_items_lem (item ∷ items) lines b e =
      let (m, f, g) = >>=-eq-ok (aggregate variants (item ∷ items) []) _ e in
      let h = aggregate-IsWithin (item ∷ items) [] m 0 no_lines (omega (arith, b)) f in
      let same : to_lines m ≡ lines = cc in
      subst (λ ls. All IsLine ls × All (IsOnly ls) ls) same
        (
          lines_IsLine m h.distinct (λ k v here. let (q, p, _) = h.counted k v here in (q, p)),
          lines-IsOnly (to_lines m) m h.distinct
              (λ k v here. line_quantity-to_lines k m h.distinct ∙ ap amount here),
        )
