-- ===== src/Order/Service/Paying/Again.antt =====
-- A payment.succeeded that is delivered twice (order/pkg/service/service.go), with no other request in
-- between.
use schick.Prelude.{
  ◌+◌, ◌≡◌, refl, sym, ap, ◌∙◌, subst, ℤ, Bool, true, false, not, List, [], some, Text, inl, inr,
  trim, is_empty, eq_iff, Bool-cases, Option-cases, if◌then◌else◌, lookup, ok,
}
use schick.Order.{OrderStatus, Order}
use schick.Order.Lifecycle.{is_pending, is_canceled}
use schick.Order.Repository.{Repository, save_if, save_paid_if_pending, save_paid_if_canceled, get}
use schick.Order.Repository.Updates.{Stands, lookup-write_order}
use schick.Order.World.{World, Env, Task, pure, ◌>>=◌, let_go, or_undo}
use schick.Order.World.Keeps.{Keeps, Keeps-or_undo, Keeps-let_go}
use schick.Order.World.Ensures.{
  IsAlone, Ensured, Ensures, OnOk, Any, Ensures-pure, Ensures-fail, Ensures-if_eq, Ensures-bind,
  Ensures-skip, Ensures-access, Ensures-of_Keeps, Ensures-given, Ensures-value, Ensures-or_undo,
}
use schick.Order.Service.{already_paid, stored_order, try_drain_outbox}
use schick.Order.Service.Paying.{
  as_saved, persist_paid, drop_reinstated, marked_paid, saved_at_last, pay_again, reconcile,
  after_persist, persist, pay_reinstated, recheck, pay_pending, pay_order, mark_order_paid,
}
use schick.Order.Service.Paying.Results.{mark_order_paid_replay}
use schick.Order.Service.Paying.Kept.{
  try_drain_Keeps, paid_events-Keeps, reinstate_Keeps, marked_Keeps, drop_Keeps, reinstate_Yields,
  IsPaid, marked_Yields,
}
use schick.Outbox.{Event}

module _ (env : Env) (alone : IsAlone env) (id p : Text) (a : ℤ) (stored : Order)
    (own : stored.id ≡ id) (trimmed : trim p ≡ p) where
  abbrev Before : Repository → Type 0
  Before r = Stands id stored r

  abbrev Paid : Repository → Order → Type 0
  Paid r o = Stands id o r × (already_paid o p ≡ true)

  abbrev AfterSave : Order → Repository → Bool → Type 0
  AfterSave m r true = Stands id m r
  AfterSave m r false = Before r

  -- MarkPaid, or what is undone where it fails.
  marked_Ensures :
      (undo : Task (Unit {0})) (order : Order)
      → order.id ≡ id
      → Ensures Before
          (or_undo env undo (marked_paid env order p a))
          (λ r m. Before r × IsPaid id p m)
  marked_Ensures undo order e =
      Ensures-or_undo env Before (λ r m. Before r × IsPaid id p m) undo _
        (Ensures-value Before (IsPaid id p) _ (marked_Keeps env order p a)
          (marked_Yields env id p a trimmed order e))

  saved_if :
      (asked : OrderStatus → Bool) (m : Order) (events : List Event) (r : Repository)
      → m.id ≡ id
      → Before r
      → OnOk
          (AfterSave m)
          (as_saved (save_if asked r m events)).0
          (as_saved (save_if asked r m events)).1
  unfolding save_if
  saved_if asked m events r e h =
      let found : lookup m.id r.orders ≡ some stored =
        subst (λ k. lookup k r.orders ≡ some stored) (sym e) h in
      rw (save_if, found)
        (elim (Bool-cases (asked stored.status)) [
          | inl t ↦ rw t (
              lookup-write_order m.id m events m.updated_at r id
              ∙ ap (λ b. if b then some m else lookup id r.orders) ((eq_iff m.id id).1 e))
          | inr t ↦ rw t h
        ])

  persist_paid_Ensures :
      (undo : Task (Unit {0})) (m : Order) (events : List Event) (from_canceled : Bool)
      → m.id ≡ id
      → Ensures Before (or_undo env undo (persist_paid env m events from_canceled)) (AfterSave m)
  unfolding persist_paid save_paid_if_canceled save_paid_if_pending
  persist_paid_Ensures undo m events true e =
      Ensures-or_undo env Before (AfterSave m) undo _ (
        Ensures-access env alone Before (AfterSave m) _
          (λ r h. saved_if is_canceled m events r e h))
  persist_paid_Ensures undo m events false e =
      Ensures-or_undo env Before (AfterSave m) undo _ (
        Ensures-access env alone Before (AfterSave m) _ (λ r h. saved_if is_pending m events r e h))

  -- The drain, and the order that was saved.
  drained-Paid :
      (m : Order)
      → already_paid m p ≡ true
      → Ensures (λ r. Stands id m r) (try_drain_outbox env >>= λ _. pure m) Paid
  drained-Paid m h =
      Ensures-bind (Stands id m) Paid _ _ (λ r _. Stands id m r)
        (Ensures-of_Keeps (Stands id m) _ (try_drain_Keeps env alone id m))
        (λ _. Ensures-pure (Stands id m) Paid m (λ r k. (k, h)))

  last_Paid :
      (reservation : Text) (m : Order) (b : Bool)
      → already_paid m p ≡ true
      → Ensures (λ r. AfterSave m r b) (saved_at_last env reservation m b) Paid
  last_Paid reservation m true h = drained-Paid m h
  last_Paid reservation m false h = Ensures-skip Before Paid _ _ (λ _. Ensures-fail Any Paid _)

  -- A step that saves nothing.
  kept :
      {A : Type 0} (undo : Task (Unit {0})) (m : Task A)
      → Keeps Before undo
      → Keeps Before m
      → Ensures Before (or_undo env undo m) (λ r _. Before r)
  kept undo m k l = Ensures-of_Keeps Before _ (Keeps-or_undo env undo m k l)

  again_Paid : (fresh : Order) → fresh.id ≡ id → Ensures Before (pay_again env p a fresh) Paid
  unfolding pay_again
  again_Paid fresh e =
      Ensures-bind Before Paid _ _ (λ r x. Before r × (x.0.id ≡ id))
        (Ensures-value Before (λ (x : Order × Text). x.0.id ≡ id) _ (reinstate_Keeps env fresh)
          (reinstate_Yields env id fresh e))
        (λ (order, reservation). Ensures-given Before _ Paid (λ same.
          Ensures-bind Before Paid _ _ (λ r m. Before r × IsPaid id p m)
            (marked_Ensures (let_go env reservation) order same)
            (λ m. Ensures-given Before _ Paid (λ ready.
              Ensures-bind Before Paid _ _ (λ r _. Before r)
                (kept (let_go env reservation) _ (Keeps-let_go env reservation)
                  (paid_events-Keeps env m))
                (λ events.
                  Ensures-bind Before Paid _ _ (AfterSave m)
                    (persist_paid_Ensures (let_go env reservation) m events true ready.0)
                    (λ saved. last_Paid reservation m saved ready.1))))))

  reconcile-Paid :
      (reservation : Text) (fresh : Order)
      → Ensures
          (λ r. Stands id fresh r × (fresh ≡ stored))
          (reconcile env p a reservation fresh)
          Paid
  unfolding reconcile
  reconcile-Paid reservation fresh = Ensures-given (Stands id fresh) _ Paid (λ same.
      Ensures-if_eq (Stands id fresh) Paid (already_paid fresh p) _ _
        (λ h.
          Ensures-bind (Stands id fresh) Paid _ _ (λ r _. Stands id fresh r)
            (Ensures-of_Keeps (Stands id fresh) _ (drop_Keeps env reservation))
            (λ _. Ensures-pure (Stands id fresh) Paid fresh (λ r k. (k, h))))
        (λ _.
          Ensures-if_eq (Stands id fresh) Paid (is_canceled fresh.status) _ _
            (λ _. record {
              at = λ w k.
                  (again_Paid fresh (ap (λ (o : Order). o.id) same ∙ own)).at w
                    (subst (λ o. Stands id o w.repo) same k);
            })
            (λ _. Ensures-skip (Stands id fresh) Paid _ _ (λ _. Ensures-fail Any Paid _))))

  -- A read of the order, which no other request has changed.
  read_again :
      (key : Text)
      → key ≡ id
      → Ensures Before (stored_order env key) (λ r fresh. Stands id fresh r × (fresh ≡ stored))
  unfolding stored_order get
  read_again key e =
      Ensures-access env alone Before (λ r fresh. Stands id fresh r × (fresh ≡ stored)) _
        (λ r h.
          let found : lookup key r.orders ≡ some stored =
            subst (λ k. lookup k r.orders ≡ some stored) (sym e) h in
          rw (get, found) (h, refl))

  after_persist-Paid :
      (reservation : Text) (m : Order) (b : Bool)
      → IsPaid id p m
      → Ensures (λ r. AfterSave m r b) (after_persist env p a reservation m b) Paid
  after_persist-Paid reservation m true h = drained-Paid m h.1
  after_persist-Paid reservation m false h =
      Ensures-bind Before Paid _ _ (λ r fresh. Stands id fresh r × (fresh ≡ stored))
        (Ensures-or_undo env Before (λ r fresh. Stands id fresh r × (fresh ≡ stored)) _ _
          (read_again m.id h.0))
        (reconcile-Paid reservation)

  persist-Paid :
      (reservation : Text) (m : Order)
      → IsPaid id p m
      → Ensures Before (persist env p a reservation m) Paid
  unfolding persist
  persist-Paid reservation m h =
      Ensures-bind Before Paid _ _ (λ r _. Before r)
        (kept (drop_reinstated env reservation) _ (drop_Keeps env reservation)
          (paid_events-Keeps env m))
        (λ events.
          Ensures-bind Before Paid _ _ (AfterSave m)
            (persist_paid_Ensures (drop_reinstated env reservation) m events
              (not (is_empty reservation)) h.0)
            (λ saved. after_persist-Paid reservation m saved h))

  reinstated_Paid :
      (undo : Text → Task (Unit {0})) (order : Order)
      → order.id ≡ id
      → Ensures Before (pay_reinstated env undo p a order) Paid
  unfolding pay_reinstated
  reinstated_Paid undo order e =
      Ensures-bind Before Paid _ _ (λ r x. Before r × (x.0.id ≡ id))
        (Ensures-value Before (λ (x : Order × Text). x.0.id ≡ id) _ (reinstate_Keeps env order)
          (reinstate_Yields env id order e))
        (λ (again, reservation). Ensures-given Before _ Paid (λ same.
          Ensures-bind Before Paid _ _ (λ r m. Before r × IsPaid id p m)
            (marked_Ensures (undo reservation) again same)
            (λ m. Ensures-given Before _ Paid (λ ready. persist-Paid reservation m ready))))

  recheck-Paid :
      (m fresh : Order)
      → IsPaid id p m
      → Ensures (λ r. Stands id fresh r × (fresh ≡ stored)) (recheck env p a m fresh) Paid
  unfolding recheck
  recheck-Paid m fresh h = Ensures-given (Stands id fresh) _ Paid (λ same.
      let go : (n : Task Order) → Ensures Before n Paid → Ensures (Stands id fresh) n Paid =
        λ n k. subst (λ o. Ensures (Stands id o) n Paid) (sym same) k in
      Ensures-if_eq (Stands id fresh) Paid (already_paid fresh p) _ _
        (λ e. Ensures-pure (Stands id fresh) Paid fresh (λ r k. (k, e)))
        (λ _.
          Ensures-if_eq (Stands id fresh) Paid (is_canceled fresh.status) _ _
            (λ _. go _ (reinstated_Paid (let_go env) fresh (ap (λ (o : Order). o.id) same ∙ own)))
            (λ _. go _ (persist-Paid [] m h))))

  pay_order-Paid : Ensures Before (pay_order env p a stored) Paid
  unfolding pay_order pay_pending
  pay_order-Paid =
      Ensures-if_eq Before Paid (already_paid stored p) _ _
        (λ e. Ensures-pure Before Paid stored (λ r k. (k, e)))
        (λ _.
          Ensures-if_eq Before Paid (is_canceled stored.status) _ _
            (λ _. reinstated_Paid (drop_reinstated env) stored own)
            (λ _.
              Ensures-bind Before Paid _ _ (λ r m. Before r × IsPaid id p m)
                (Ensures-value Before (IsPaid id p) _ (marked_Keeps env stored p a)
                  (marked_Yields env id p a trimmed stored own))
                (λ m. Ensures-given Before _ Paid (λ ready.
                  Ensures-bind Before Paid _ _ (λ r fresh. Stands id fresh r × (fresh ≡ stored))
                    (read_again m.id ready.0) (λ fresh. recheck-Paid m fresh ready)))))

-- An order that MarkOrderPaid returns is the stored one, and it carries the payment.
returned_Paid :
    (env : Env) (key p : Text) (a : ℤ) (P : Repository → Type 0)
    → IsAlone env
    → ((r : Repository) (stored : Order) → P r → Stands (trim key) stored r → stored.id ≡ trim key)
    → trim p ≡ p
    → Ensures P
        (mark_order_paid env key p a)
        (λ r o. Stands (trim key) o r × (already_paid o p ≡ true))
unfolding mark_order_paid stored_order get
returned_Paid env key p a P alone own trimmed =
    let Found : Repository → Order → Type 0 =
      λ r stored. Stands (trim key) stored r × (stored.id ≡ trim key) in
    Ensures-bind P _ _ _ Found
      (Ensures-access env alone P Found _ (λ r h. elim (Option-cases (lookup (trim key) r.orders)) [
        | inl none_there ↦ rw (get, none_there) tt
        | inr (stored, there) ↦ rw (get, there) (there, own r stored h there)
      ]))
      (λ stored.
        Ensures-given (Stands (trim key) stored) _ _
          (λ same. pay_order-Paid env alone (trim key) p a stored same trimmed))

-- Where no other request comes in between and no repository call fails, and the order of the id is stored
-- under its own id: a payment.succeeded with a trimmed payment id that MarkOrderPaid has answered with an
-- order (paid before, paid from pending, or reinstated from canceled) and that comes again after that gets
-- the same order and changes nothing: the repository with its outbox and the calls of the stock are what
-- the first left.
pub mark_order_paid_again :
    (env : Env) (key p : Text) (a : ℤ) (w v : World) (o : Order)
    → IsAlone env
    → ((stored : Order) → Stands (trim key) stored w.repo → stored.id ≡ trim key)
    → trim p ≡ p
    → mark_order_paid env key p a w ≡ (v, ok o)
    → mark_order_paid env key p a v ≡ (record v { tick = v.tick + 1 }, ok o)
mark_order_paid_again env key p a w v o alone own trimmed e =
    let (there, carried) =
      subst (Ensured (λ r o. Stands (trim key) o r × (already_paid o p ≡ true))) e (
        (returned_Paid env key p a (λ r. r ≡ w.repo) alone
            (λ r stored same h. own stored (subst (Stands (trim key) stored) same h)) trimmed).at
          w refl) in
    mark_order_paid_replay env key p a v o (alone.fails v.tick)
      (subst (Stands (trim key) o) (sym (alone.others v.tick v.repo)) there) carried
    ∙ ap (λ r. (record v { repo = r; tick = v.tick + 1 }, ok o)) (alone.others v.tick v.repo)
