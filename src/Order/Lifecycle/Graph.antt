-- ===== src/Order/Lifecycle/Graph.antt =====
-- The diagram of the statuses, with the fields left out.
use schick.Prelude.{ℕ, ◌≡◌, true, List, [], ◌∷◌, none, arith}
use schick.Order.{OrderStatus, pending, paid, in_transit, fulfilled, canceled, Order}
use schick.Order.Lifecycle.{mark_paid, ship, cancel, reinstate_for_late_payment, fulfill}
use schick.Order.Lifecycle.Invariant.{
  Call, mark_pays, ships, cancels, reinstates, fulfills, step, run, has_left,
}

infix 40 ◌⟶◌
pub data ◌⟶◌ : OrderStatus → OrderStatus → Type 0 where
  pay : pending ⟶ paid
  send : paid ⟶ in_transit
  deliver : in_transit ⟶ fulfilled
  drop : pending ⟶ canceled
  refund : paid ⟶ canceled
  revive : canceled ⟶ pending

ruleset edges = (pay, send, deliver, drop, refund, revive)

-- A call that succeeds follows an edge of the diagram.
pub step-⟶ : (o : Order) (c : ℕ × Call) → (step o c).1 ≡ none → o.status ⟶ (step o c).0.status
unfolding step mark_paid ship cancel reinstate_for_late_payment fulfill
step-⟶ o (now, mark_pays p amount) h = grind (arith, edges)
step-⟶ o (now, ships by tracking) h = grind (arith, edges)
step-⟶ o (now, cancels) h = grind (arith, edges)
step-⟶ o (now, reinstates r) h = grind (arith, edges)
step-⟶ o (now, fulfills) h = grind (arith, edges)

step-has_left :
    (o : Order) (c : ℕ × Call) → has_left o.status ≡ true → has_left (step o c).0.status ≡ true
unfolding step mark_paid ship cancel reinstate_for_late_payment fulfill
step-has_left o (now, mark_pays p amount) h = ground arith
step-has_left o (now, ships by tracking) h = ground arith
step-has_left o (now, cancels) h = ground arith
step-has_left o (now, reinstates r) h = ground arith
step-has_left o (now, fulfills) h = ground arith

-- Once the goods have left, no sequence of calls cancels the order or brings it back.
pub run-has_left :
    (o : Order) (cs : List (ℕ × Call))
    → has_left o.status ≡ true
    → has_left (run o cs).status ≡ true
unfolding run
run-has_left o [] h = h
run-has_left o (c ∷ cs) h = run-has_left (step o c).0 cs (step-has_left o c h)
