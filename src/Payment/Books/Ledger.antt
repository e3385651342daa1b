-- ===== src/Payment/Books/Ledger.antt =====
-- CancelPayment called any number of times on one payment (payment/pkg/service/service.go).
use schick.Prelude.{
  ℕ, ◌+◌, ◌≡◌, sym, subst, List, [], ◌∷◌, ◌++◌, arith, inl, inr, Result, ok, err, Result-cases,
}
use schick.Payment.{Error, Payment}
use schick.Payment.Cancel.{ProviderCancel, CancelPaymentInput, OutboxEvent, cancel_mutation}
use schick.Payment.Books.{IsBalanced}
use schick.Payment.Books.Refunds.{
  IsAccounted, event_amounts, cancel_mutation_lem, unchanged-IsAccounted,
}

-- A call of CancelPayment on the payment: what the provider does, the input, the two readings of the
-- clock.
pub record Cancellation : Type 0 where
  pub provider : ProviderCancel
  pub input : CancelPaymentInput
  pub now : ℕ
  pub occurred : ℕ

abbrev committed : Payment → Result Error (Payment × List OutboxEvent) → Payment × List OutboxEvent
committed p (ok r) = r
committed p (err _) = (p, [])

-- MutateLocked on the payment: an error changes nothing.
unfoldable pub settle : Cancellation → Payment → Payment × List OutboxEvent
settle c p = committed p (cancel_mutation c.provider c.input c.now c.occurred p)

unfoldable pub settle_all : List Cancellation → Payment → Payment × List OutboxEvent
settle_all [] p = (p, [])
settle_all (c ∷ cs) p =
    let (q, events) = settle c p in let (r, more) = settle_all cs q in (r, events ++ more)

IsAccounted-trans :
    {p q r : Payment} {m n : ℕ} → IsAccounted p q m → IsAccounted q r n → IsAccounted p r (m + n)
IsAccounted-trans {p} {q} {r} {m} {n} h k = record {
  captured = h.captured;
  returned = h.returned;
  amount_before = h.amount_before;
  amount_after = ground arith;
  canceled_before = h.canceled_before;
  canceled_after = ground arith;
  within = ground arith;
}

settle_lem :
    (c : Cancellation) (p : Payment)
    → IsBalanced p
    → IsBalanced (settle c p).0 × IsAccounted p (settle c p).0 (event_amounts (settle c p).1)
unfolding settle
settle_lem c p h = elim (Result-cases (cancel_mutation c.provider c.input c.now c.occurred p)) [
  | inl ((q, events), e) ↦
      subst
        (λ r.
          IsBalanced (committed p r).0
          × IsAccounted p (committed p r).0 (event_amounts (committed p r).1))
        (sym e) (cancel_mutation_lem c.provider c.input c.now c.occurred p q events h e)
  | inr (_, e) ↦
      subst
        (λ r.
          IsBalanced (committed p r).0
          × IsAccounted p (committed p r).0 (event_amounts (committed p r).1))
        (sym e) (h, unchanged-IsAccounted p h)
]

event_amounts-append :
    (xs ys : List OutboxEvent) → event_amounts (xs ++ ys) ≡ event_amounts xs + event_amounts ys
event_amounts-append [] ys = omega arith
event_amounts-append (x ∷ xs) ys = omega (arith, event_amounts-append xs ys)

-- However often a payment is canceled, in whatever parts, and whatever providers report: all that the
-- events say was given back is what the payment records, and never more than was captured.
pub settle_all_lem :
    (cs : List Cancellation) (p : Payment)
    → IsBalanced p
    → IsBalanced (settle_all cs p).0
      × IsAccounted p (settle_all cs p).0 (event_amounts (settle_all cs p).1)
unfolding settle_all
settle_all_lem [] p h = (h, unchanged-IsAccounted p h)
settle_all_lem (c ∷ cs) p h =
    let (k, a) = settle_lem c p h in
    let (l, b) = settle_all_lem cs (settle c p).0 k in
    (
      l,
      subst (IsAccounted p (settle_all cs (settle c p).0).0)
          (sym (event_amounts-append (settle c p).1 (settle_all cs (settle c p).0).1))
          (IsAccounted-trans a b),
    )
