-- ===== src/Order/Repository/Rows.antt =====
-- The repository of orders as a table that the drainer can use (order/pkg/infra/memory/repository.go).
use schick.Prelude.{ℕ, suc, ◌≡◌, refl, ap, List, ◌∷◌, ◌++◌, none, Text, ok}
use schick.Order.{Error}
use schick.Order.Repository.{
  Repository, list_pending_outbox, mark_outbox_published, record_outbox_attempt,
}
use schick.Outbox.{Message, take, Store, attempted}
use schick.Outbox.Memory.{
  list_until_lem, pending_of, change_entry_lem, IsKeyed, as_published, as_attempted,
}

abbrev pub order_pending : Repository → List Message
order_pending r = pending_of r.outbox

pub order_listed :
    (r : Repository) (n : ℕ) → list_pending_outbox r (suc n) ≡ ok (take (suc n) (order_pending r))
unfolding list_pending_outbox
order_listed r n = ap ok (list_until_lem (suc n) r.outbox)

pub order_marked :
    (r : Repository) (xs ys : List Message) (m : Message)
    → IsKeyed r.outbox
    → order_pending r ≡ xs ++ (m ∷ ys)
    → IsKeyed (mark_outbox_published r m.id).0.outbox
      × (order_pending (mark_outbox_published r m.id).0 ≡ xs ++ ys)
      × ((mark_outbox_published r m.id).1 ≡ none)
unfolding mark_outbox_published pending_of
order_marked r xs ys m v h =
    let (fs, c) = change_entry_lem as_published (λ e. refl) m xs ys r.outbox v h in
    rw (c.found) (c.keyed, c.rest, refl)

pub order_recorded :
    (r : Repository) (xs ys : List Message) (m : Message) (message : Text)
    → IsKeyed r.outbox
    → order_pending r ≡ xs ++ (m ∷ ys)
    → IsKeyed (record_outbox_attempt r m.id message).0.outbox
      × (order_pending (record_outbox_attempt r m.id message).0 ≡ xs ++ (attempted message m ∷ ys))
unfolding record_outbox_attempt pending_of
order_recorded r xs ys m message v h =
    let (fs, c) = change_entry_lem (as_attempted message) (λ e. refl) m xs ys r.outbox v h in
    rw (c.found) (c.keyed, c.rest)

abbrev pub order_outbox : Store Repository Error
order_outbox = record {
  list_pending_outbox = list_pending_outbox;
  mark_outbox_published = mark_outbox_published;
  record_outbox_attempt = record_outbox_attempt;
  IsValid = λ r. IsKeyed r.outbox;
  pending = order_pending;
  listed = order_listed;
  marked = order_marked;
  recorded = order_recorded;
}
