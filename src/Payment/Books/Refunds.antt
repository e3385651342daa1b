-- ===== src/Payment/Books/Refunds.antt =====
-- CancelPayment's change of a payment, and the books it leaves (payment/pkg/service/service.go).
use schick.Prelude.{
  ℕ, ◌+◌, ◌≤◌, ◌≡◌, refl, ◌∙◌, ap, pos_part, if_rule, subst, ℤ, pos, not, ◌&&◌, List, [], ◌∷◌,
  arith, Text, ◌==◌, is_empty, trim, inl, inr, Result, ok, err, >>=-eq-ok, Bool-cases,
}
use schick.Prelude.Word.{add-pos}
use schick.Payment.{Error, Payment, validate_cancel, canceled_by_amount, apply_cancel}
use schick.Payment.Cancel.{
  ProviderCancel, CancelPaymentInput, OutboxEvent, payment_canceled, payment_succeeded,
  accepted_amount, requested_amount, payment_canceled_outbox, keyed, cancel_mutation,
}
use schick.Payment.Books.{
  IsBalanced, validate_cancel_iff, validate_cancel_of_bounds, validate_cancel_at,
  canceled_by_amount-IsBalanced, accepted_amount_bounds,
}

-- Once a provider has accepted the cancel of an amount that passed the checks, recording it succeeds,
-- whatever amounts the provider reports.
pub apply_cancel_of_accepted :
    (provider : ProviderCancel) (p : Payment) (requested amount : ℤ) (reason by : Text) (now : ℕ)
    → validate_cancel p requested ≡ ok tt
    → accepted_amount provider p requested ≡ ok amount
    → apply_cancel p amount reason by now ≡ ok (canceled_by_amount p amount reason by now)
unfolding apply_cancel
apply_cancel_of_accepted provider p requested amount reason by now v e =
    let k = validate_cancel_iff p requested v in
    let b = accepted_amount_bounds provider p requested amount k.1 k.2 e in
    rw (validate_cancel_of_bounds p amount k.0 b.0 b.1) refl

abbrev refunded : Payment → CancelPaymentInput → ℕ → ℕ → Payment
refunded p input n now =
    keyed (canceled_by_amount p (pos n) input.reason input.canceled_by now)
      (trim input.idempotency_key)

-- What a change that succeeds did: nothing, or the cancel of an amount of at least 1.
data Refunds (p : Payment) (input : CancelPaymentInput) (now occurred : ℕ)
    : Payment → List OutboxEvent → Type 0 where
  replays : Refunds p input now occurred p []
  refunds :
      (n : ℕ)
      → validate_cancel p (pos n) ≡ ok tt
      → Refunds p input now occurred
          (refunded p input n now)
          (payment_canceled_outbox (refunded p input n now) (pos n) occurred)

abbrev Outcome :
    Payment → CancelPaymentInput → ℕ → ℕ → Result Error (Payment × List OutboxEvent) → Type 0
Outcome p input now occurred (ok (q, events)) = Refunds p input now occurred q events
Outcome p input now occurred (err _) = Unit

cancel_mutation-Refunds :
    (provider : ProviderCancel) (input : CancelPaymentInput) (now occurred : ℕ) (p q : Payment)
    (events : List OutboxEvent)
    → IsBalanced p
    → cancel_mutation provider input now occurred p ≡ ok (q, events)
    → Refunds p input now occurred q events
unfolding cancel_mutation apply_cancel
cancel_mutation-Refunds provider input now occurred p q events h e =
    let key = trim input.idempotency_key in
    elim (Bool-cases (not (is_empty key) && p.cancel_idempotency_key == key)) [
      | inl b ↦ subst (Outcome p input now occurred) (rw b at e) replays
      | inr b ↦
          let (_, v, e1) = >>=-eq-ok (validate_cancel p (requested_amount p input)) _ (rw b at e) in
          let (amount, a, e2) =
            >>=-eq-ok (accepted_amount provider p (requested_amount p input)) _ e1 in
          let (r, c, e3) =
            >>=-eq-ok (apply_cancel p amount input.reason input.canceled_by now) _ e2 in
          let (_, w, d) = >>=-eq-ok (validate_cancel p amount) _ c in
          let (_, (n, f, _, _)) = validate_cancel_at p h amount w in
          let same : ok (
            refunded p input n now,
            payment_canceled_outbox (refunded p input n now) (pos n) occurred,
          )
              ≡ ok (q, events) =
            cc in
          subst (Outcome p input now occurred) same (refunds n (rw f at w))
    ]

-- What the payment.canceled events say was given back.
abbrev pub event_amount : OutboxEvent → ℕ
event_amount e = elim e.payload [
  | payment_canceled c ↦ pos_part c.amount_cents
  | payment_succeeded _ ↦ 0
]

abbrev pub event_amounts : List OutboxEvent → ℕ
event_amounts [] = 0
event_amounts (e ∷ es) = event_amount e + event_amounts es

-- A payment p and the payment q that it became: the same capture, and n more given back.
pub record IsAccounted (p q : Payment) (n : ℕ) : Type 0 where
  pub captured : ℕ
  pub returned : ℕ
  pub amount_before : p.amount_cents ≡ pos captured
  pub amount_after : q.amount_cents ≡ pos captured
  pub canceled_before : p.canceled_amount_cents ≡ pos returned
  pub canceled_after : q.canceled_amount_cents ≡ pos (returned + n)
  pub within : returned + n ≤ captured

keyed-IsBalanced : (p : Payment) (key : Text) → IsBalanced p → IsBalanced (keyed p key)
keyed-IsBalanced p key h =
    if_rule IsBalanced (not (is_empty key))
      (record {
        captured = h.captured;
        returned = h.returned;
        amount = h.amount;
        canceled_amount = h.canceled_amount;
        in_range = h.in_range;
        within = h.within;
        settled = h.settled;
      })
      h

keyed-IsAccounted :
    (p q : Payment) (key : Text) (n : ℕ) → IsAccounted p q n → IsAccounted p (keyed q key) n
keyed-IsAccounted p q key n h =
    if_rule (λ r. IsAccounted p r n) (not (is_empty key))
      (record {
        captured = h.captured;
        returned = h.returned;
        amount_before = h.amount_before;
        amount_after = h.amount_after;
        canceled_before = h.canceled_before;
        canceled_after = h.canceled_after;
        within = h.within;
      })
      h

canceled_by_amount-IsAccounted :
    (p : Payment) (h : IsBalanced p) (n : ℕ) (reason by : Text) (now : ℕ)
    → n + h.returned ≤ h.captured
    → IsAccounted p (canceled_by_amount p (pos n) reason by now) n
unfolding canceled_by_amount
canceled_by_amount-IsAccounted p h n reason by now b = record {
  captured = h.captured;
  returned = h.returned;
  amount_before = h.amount;
  amount_after = h.amount;
  canceled_before = h.canceled_amount;
  canceled_after = rw h.canceled_amount (add-pos h.returned n (omega (arith, h.in_range)));
  within = omega arith;
}

pub unchanged-IsAccounted : (p : Payment) → IsBalanced p → IsAccounted p p 0
unchanged-IsAccounted p h = record {
  captured = h.captured;
  returned = h.returned;
  amount_before = h.amount;
  amount_after = h.amount;
  canceled_before = h.canceled_amount;
  canceled_after = h.canceled_amount ∙ ap pos (omega arith);
  within = omega (arith, h.within);
}

Refunds_lem :
    (p : Payment) (input : CancelPaymentInput) (now occurred : ℕ) (q : Payment)
    (events : List OutboxEvent)
    → IsBalanced p
    → Refunds p input now occurred q events
    → IsBalanced q × IsAccounted p q (event_amounts events)
unfolding payment_canceled_outbox
Refunds_lem p input now occurred q events h replays = (h, unchanged-IsAccounted p h)
Refunds_lem p input now occurred q events h (refunds n v) =
    let (k, (m, e, _, b)) = validate_cancel_at p h (pos n) v in
    let c : n + h.returned ≤ h.captured = ground arith in
    let r = canceled_by_amount p (pos n) input.reason input.canceled_by now in
    let key = trim input.idempotency_key in
    (
      keyed-IsBalanced r key
          (canceled_by_amount-IsBalanced p h n input.reason input.canceled_by now c k),
      subst (IsAccounted p (keyed r key)) (omega arith) (
          keyed-IsAccounted p r key n
            (canceled_by_amount-IsAccounted p h n input.reason input.canceled_by now c)),
    )

-- CancelPayment's change keeps a payment's amounts balanced, and what its events say was canceled is
-- what the payment's own total grows by.
pub cancel_mutation_lem :
    (provider : ProviderCancel) (input : CancelPaymentInput) (now occurred : ℕ) (p q : Payment)
    (events : List OutboxEvent)
    → IsBalanced p
    → cancel_mutation provider input now occurred p ≡ ok (q, events)
    → IsBalanced q × IsAccounted p q (event_amounts events)
cancel_mutation_lem provider input now occurred p q events h e =
    Refunds_lem p input now occurred q events h
      (cancel_mutation-Refunds provider input now occurred p q events h e)
