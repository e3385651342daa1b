-- ===== src/Order/Service/Paying/Results.antt =====
-- The orders that MarkOrderPaid of order/pkg/service/service.go returns.
use schick.Prelude.{
  ℕ, ◌+◌, ◌≡◌, refl, subst, ℤ, Bool, true, false, [], none, Text, arith, trim, inl, inr, ◌⊎◌,
  if_rule, if_rule_eq, is_empty, not, eqb_ℤ, Option, Result, ok, eqb_ℤ_iff,
}
use schick.Order.{Error, paid, Order}
use schick.Order.Lifecycle.{mark_paid, is_pending, is_canceled}
use schick.Order.Repository.{get}
use schick.Order.Repository.Updates.{Stands}
use schick.Order.World.{World, Env, Task, pure, ◌>>=◌, access, let_go}
use schick.Order.World.Holds.{
  HoldsOf, Yields, Yields-bind, Yields-pure, Yields-lift, Yields-any, Yields-fail, Yields-or_undo,
}
use schick.Order.Service.{already_paid, returned, stored_order}
use schick.Order.Service.Paying.{
  marked_paid, saved_at_last, pay_again, reconcile, after_persist, persist, pay_reinstated, recheck,
  drop_reinstated, pay_pending, pay_order, mark_order_paid,
}

-- The order was paid by the payment before, or by exactly its total now.
abbrev pub PaidBy : Text → ℤ → Order → Type 0
PaidBy p a o =
    (already_paid o p ≡ true) ⊎ ((o.status ≡ paid) × (o.payment_id ≡ trim p) × (o.total_cents ≡ a))

module _ (p : Text) (a : ℤ) where
  returned_PaidBy :
      (order : Order) (now : ℕ) → HoldsOf (PaidBy p a) (returned (mark_paid order p a now))
  unfolding mark_paid
  returned_PaidBy order now =
      let Q : Order × Option Error → Type 0 = λ x. HoldsOf (PaidBy p a) (returned x) in
      if_rule Q (not (is_pending order.status)) tt (
        if_rule Q (is_empty (trim p)) tt (
          if_rule_eq Q (not (eqb_ℤ a order.total_cents)) (λ _. tt)
            (λ same. inr (refl, refl, ground (arith, eqb_ℤ_iff a order.total_cents)))))

  module _ (env : Env) where
    marked_PaidBy : (order : Order) → Yields (PaidBy p a) (marked_paid env order p a)
    unfolding marked_paid
    marked_PaidBy order =
        Yields-bind _ _ (λ _. Unit {0}) _ (Yields-any _)
          (λ now _. Yields-lift (PaidBy p a) _ (returned_PaidBy order now))

    -- A method that goes on whatever the first part gives.
    after :
        {A : Type 0} (m : Task A) (next : A → Task Order)
        → ((x : A) → Yields (PaidBy p a) (next x))
        → Yields (PaidBy p a) (m >>= next)
    after m next h = Yields-bind m next (λ _. Unit {0}) (PaidBy p a) (Yields-any m) (λ x _. h x)

    last_PaidBy :
        (reservation : Text) (order : Order) (b : Bool)
        → PaidBy p a order
        → Yields (PaidBy p a) (saved_at_last env reservation order b)
    last_PaidBy reservation order true h = after _ _ (λ _. Yields-pure (PaidBy p a) order h)
    last_PaidBy reservation order false h = after _ _ (λ _. Yields-fail (PaidBy p a) _)

    again_PaidBy : (fresh : Order) → Yields (PaidBy p a) (pay_again env p a fresh)
    unfolding pay_again
    again_PaidBy fresh = after _ _ (λ (order, reservation).
        Yields-bind _ _ (PaidBy p a) _ (Yields-or_undo (PaidBy p a) env _ _ (marked_PaidBy order))
          (λ marked h.
            after _ _ (λ events. after _ _ (λ saved. last_PaidBy reservation marked saved h))))

    reconcile_PaidBy :
        (reservation : Text) (fresh : Order)
        → Yields (PaidBy p a) (reconcile env p a reservation fresh)
    unfolding reconcile
    reconcile_PaidBy reservation fresh =
        if_rule_eq (Yields (PaidBy p a)) (already_paid fresh p)
          (λ e. after _ _ (λ _. Yields-pure (PaidBy p a) fresh (inl e)))
          (λ _.
            if_rule (Yields (PaidBy p a)) (is_canceled fresh.status) (again_PaidBy fresh)
              (after _ _ (λ _. Yields-fail (PaidBy p a) _)))

    after_persist_PaidBy :
        (reservation : Text) (order : Order) (b : Bool)
        → PaidBy p a order
        → Yields (PaidBy p a) (after_persist env p a reservation order b)
    after_persist_PaidBy reservation order true h =
        after _ _ (λ _. Yields-pure (PaidBy p a) order h)
    after_persist_PaidBy reservation order false h = after _ _ (reconcile_PaidBy reservation)

    persist_PaidBy :
        (reservation : Text) (order : Order)
        → PaidBy p a order
        → Yields (PaidBy p a) (persist env p a reservation order)
    unfolding persist
    persist_PaidBy reservation order h =
        after _ _ (λ events. after _ _ (λ saved. after_persist_PaidBy reservation order saved h))

    reinstated_PaidBy :
        (undo : Text → Task (Unit {0})) (order : Order)
        → Yields (PaidBy p a) (pay_reinstated env undo p a order)
    unfolding pay_reinstated
    reinstated_PaidBy undo order = after _ _ (λ (again, reservation).
        Yields-bind _ _ (PaidBy p a) _ (Yields-or_undo (PaidBy p a) env _ _ (marked_PaidBy again))
          (λ marked h. persist_PaidBy reservation marked h))

    recheck_PaidBy :
        (order fresh : Order) → PaidBy p a order → Yields (PaidBy p a) (recheck env p a order fresh)
    unfolding recheck
    recheck_PaidBy order fresh h =
        if_rule_eq (Yields (PaidBy p a)) (already_paid fresh p)
          (λ e. Yields-pure (PaidBy p a) fresh (inl e))
          (λ _.
            if_rule (Yields (PaidBy p a)) (is_canceled fresh.status)
              (reinstated_PaidBy (let_go env) fresh) (persist_PaidBy [] order h))

    pay_order_PaidBy : (order : Order) → Yields (PaidBy p a) (pay_order env p a order)
    unfolding pay_order pay_pending
    pay_order_PaidBy order =
        if_rule_eq (Yields (PaidBy p a)) (already_paid order p)
          (λ e. Yields-pure (PaidBy p a) order (inl e))
          (λ _.
            if_rule (Yields (PaidBy p a)) (is_canceled order.status)
              (reinstated_PaidBy (drop_reinstated env) order)
              (Yields-bind _ _ (PaidBy p a) _ (marked_PaidBy order)
                (λ marked h. after _ _ (λ fresh. recheck_PaidBy marked fresh h))))

    mark_order_paid_PaidBy : (key : Text) → Yields (PaidBy p a) (mark_order_paid env key p a)
    unfolding mark_order_paid
    mark_order_paid_PaidBy key = after _ _ pay_order_PaidBy

-- Whatever other requests, stock and broker do, an order that MarkOrderPaid returns carries the payment
-- and is no longer pending, or has just been marked paid with the trimmed payment id by an amount that is
-- exactly its total.
pub mark_order_paid_result :
    (env : Env) (key p : Text) (a : ℤ) (w v : World) (o : Order)
    → mark_order_paid env key p a w ≡ (v, ok o)
    → (already_paid o p ≡ true)
      ⊎ ((o.status ≡ paid) × (o.payment_id ≡ trim p) × (o.total_cents ≡ a))
mark_order_paid_result env key p a w v o e =
    subst (λ (x : World × Result Error Order). HoldsOf (PaidBy p a) x.1) e
      ((mark_order_paid_PaidBy p a env key).at w)

pub stored_order_found :
    (env : Env) (key : Text) (w : World) (o : Order)
    → env.fails w.tick ≡ none
    → Stands key o (env.others w.tick w.repo)
    → stored_order env key w
      ≡ (record w { repo = env.others w.tick w.repo; tick = w.tick + 1 }, ok o)
unfolding stored_order access get
stored_order_found env key w o alive there = rw (alive, get, there) refl

-- A payment.succeeded that comes again for an order that carries the payment and is no longer pending
-- gets that order, and changes nothing: no stock is asked for, and of the repository only what others did
-- has changed.
pub mark_order_paid_replay :
    (env : Env) (key p : Text) (a : ℤ) (w : World) (o : Order)
    → env.fails w.tick ≡ none
    → Stands (trim key) o (env.others w.tick w.repo)
    → already_paid o p ≡ true
    → mark_order_paid env key p a w
      ≡ (record w { repo = env.others w.tick w.repo; tick = w.tick + 1 }, ok o)
unfolding mark_order_paid ◌>>=◌ pay_order pure
mark_order_paid_replay env key p a w o alive there again =
    rw (stored_order_found env (trim key) w o alive there, again) refl
