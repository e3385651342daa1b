-- ===== src/Payment/Books.antt =====
-- The amounts of a payment (payment/pkg/domain/payment.go), captured and canceled.
pub mod Refunds
pub mod Ledger
use schick.Prelude.{
  ℕ, ◌+◌, ◌-◌, ◌^◌, ◌<◌, ◌≤◌, ◌≡◌, refl, ℤ, pos, negsuc, ◌≤ℤ◌, ◌+ℤ◌, leb_ℤ, ltb_ℤ, Bool, true,
  false, List, [], ◌∷◌, Option, none, some, arith, Text, ◌==◌, is_empty, trim, eq_iff,
  if◌then◌else◌, Result, ok, err, >>=-eq-ok, Bool-cases, inl, inr,
}
use schick.Prelude.Word
use schick.Prelude.Word.{IsInt64, sub-pos, add-pos}
use schick.Payment.{
  Error, Payment, PaymentStatus, canceled, succeeded, method_bypass, new_payment,
  normalize_currency, mark_failed, mark_succeeded, remaining_cancelable_cents, cancelable,
  validate_cancel, canceled_by_amount, apply_cancel,
}
use schick.Payment.Cancel.{
  CancelPaymentResult, ProviderCancel, CancelPaymentInput, OutboxEvent, payment_canceled,
  reconcile_canceled_amount, accepted_amount, requested_amount, payment_canceled_outbox,
  cancel_mutation,
}

-- `pos_part`s of the two amounts, both of which are in range.
pub record IsBalanced (p : Payment) : Type 0 where
  pub captured : ℕ
  pub returned : ℕ
  pub amount : p.amount_cents ≡ pos captured
  pub canceled_amount : p.canceled_amount_cents ≡ pos returned
  pub in_range : captured < 2 ^ 63
  pub within : returned ≤ captured
  pub settled : p.status ≡ canceled → returned ≡ captured

pub remaining_at :
    (p : Payment) {c r : ℕ}
    → p.amount_cents ≡ pos c
    → p.canceled_amount_cents ≡ pos r
    → r ≤ c
    → c < 2 ^ 63
    → remaining_cancelable_cents p ≡ pos (c - r)
unfolding remaining_cancelable_cents
remaining_at p {c} {r} g h k l = rw g (rw h (rw (sub-pos c r k l) (ground arith)))

pub remaining_lem :
    (p : Payment) (h : IsBalanced p) → remaining_cancelable_cents p ≡ pos (h.captured - h.returned)
remaining_lem p h = remaining_at p h.amount h.canceled_amount h.within h.in_range

new_payment-IsBalanced :
    (id order_id customer_id : Text) (amount : ℤ) (currency provider ref url : Text) (now : ℕ)
    (p : Payment)
    → IsInt64 amount
    → new_payment id order_id customer_id amount currency provider ref url now ≡ ok p
    → IsBalanced p
unfolding new_payment normalize_currency
new_payment-IsBalanced id order_id customer_id (pos n) currency provider ref url now p b h =
    record {
      captured = n;
      returned = 0;
      amount = ground arith;
      canceled_amount = ground arith;
      in_range = ground arith;
      within = omega arith;
      settled = ground arith;
    }
new_payment-IsBalanced id order_id customer_id (negsuc n) currency provider ref url now p b h =
    ground arith

-- Whatever a provider reports that accepts the cancel of an amount within what is left, the amount to
-- record is at least 1 and at most what is left.
pub reconcile_canceled_amount_bounds :
    (result : Option CancelPaymentResult) (requested remaining : ℤ)
    → pos 1 ≤ℤ requested
    → requested ≤ℤ remaining
    → (pos 1 ≤ℤ reconcile_canceled_amount result requested remaining)
      × (reconcile_canceled_amount result requested remaining ≤ℤ remaining)
unfolding reconcile_canceled_amount
reconcile_canceled_amount_bounds none requested remaining h k = (h, k)
reconcile_canceled_amount_bounds (some r) requested remaining h k = ground arith

pub validate_cancel_iff :
    (p : Payment) (amount : ℤ)
    → validate_cancel p amount ≡ ok tt
    → (p.status ≡ succeeded) × (pos 1 ≤ℤ amount) × (amount ≤ℤ remaining_cancelable_cents p)
unfolding validate_cancel cancelable
validate_cancel_iff p amount h = ground arith

pub validate_cancel_of_bounds :
    (p : Payment) (amount : ℤ)
    → p.status ≡ succeeded
    → pos 1 ≤ℤ amount
    → amount ≤ℤ remaining_cancelable_cents p
    → validate_cancel p amount ≡ ok tt
unfolding validate_cancel cancelable
validate_cancel_of_bounds p amount h k l = ground arith

pub validate_cancel_at :
    (p : Payment) (h : IsBalanced p) (amount : ℤ)
    → validate_cancel p amount ≡ ok tt
    → (p.status ≡ succeeded)
      × ((n : ℕ) × (amount ≡ pos n) × (1 ≤ n) × (n + h.returned ≤ h.captured))
validate_cancel_at p h (pos n) e =
    let v = validate_cancel_iff p (pos n) e in
    let r = remaining_lem p h in (v.0, (n, refl, ground arith, ground arith))
validate_cancel_at p h (negsuc n) e = ground (arith, validate_cancel_iff p (negsuc n) e)

pub canceled_by_amount-IsBalanced :
    (p : Payment) (h : IsBalanced p) (n : ℕ) (reason by : Text) (now : ℕ)
    → n + h.returned ≤ h.captured
    → p.status ≡ succeeded
    → IsBalanced (canceled_by_amount p (pos n) reason by now)
unfolding canceled_by_amount remaining_cancelable_cents
canceled_by_amount-IsBalanced p h n reason by now b k =
    let c : Word.add p.canceled_amount_cents (pos n) ≡ pos (h.returned + n) =
      rw h.canceled_amount (add-pos h.returned n (omega arith)) in
    let r =
      remaining_at (record p { canceled_amount_cents = Word.add p.canceled_amount_cents (pos n) })
        h.amount c (omega arith) h.in_range in
    record {
      captured = h.captured;
      returned = h.returned + n;
      amount = h.amount;
      canceled_amount = c;
      in_range = h.in_range;
      within = omega arith;
      settled = ground (arith, r);
    }

pub accepted_amount_bounds :
    (provider : ProviderCancel) (p : Payment) (requested amount : ℤ)
    → pos 1 ≤ℤ requested
    → requested ≤ℤ remaining_cancelable_cents p
    → accepted_amount provider p requested ≡ ok amount
    → (pos 1 ≤ℤ amount) × (amount ≤ℤ remaining_cancelable_cents p)
unfolding accepted_amount
accepted_amount_bounds provider p requested amount h k e =
    elim (Bool-cases (p.method == method_bypass)) [
      | inl b ↦ ground (arith, b)
      | inr b ↦
          let (result, _, f) =
            >>=-eq-ok
              (provider (record {
                provider_ref = p.provider_ref;
                payment_id = p.id;
                amount_cents = requested;
                currency = p.currency;
              }))
              _ (rw b at e) in
          ground (
            arith,
            f,
            reconcile_canceled_amount_bounds result requested (remaining_cancelable_cents p),
          )
    ]
