-- ===== src/Payment/Tests.antt =====
-- Cancels of a captured payment.
use schick.Prelude.{
  Any, Bool-cases, inl, inr, subst, ◌==◌, ◌≡◌, refl, pos, ◌≤ℤ◌, ◌+ℤ◌, ◌-ℤ◌, false, List, [], ◌∷◌,
  Option, none, some, arith, codes, ◌==◌, eq_iff, trim, trim_right, trim_left, is_space, to_lower,
  lookup, insert, ok, err,
}
use schick.Prelude.Word
use schick.Payment.{
  provider_error, Payment, canceled, succeeded, new_payment, normalize_currency, mark_succeeded,
  remaining_cancelable_cents, cancelable, validate_cancel, canceled_by_amount, apply_cancel,
  method_credit_card,
}
use schick.Payment.Cancel.{
  CancelPaymentResult, ProviderCancel, CancelPaymentInput, reconcile_canceled_amount,
  accepted_amount, payment_canceled_outbox, payment_succeeded_outbox, cancel_mutation,
}
use schick.Payment.Books.{IsBalanced, reconcile_canceled_amount_bounds}
use schick.Payment.Books.Refunds.{IsAccounted, event_amounts, apply_cancel_of_accepted}
use schick.Payment.Books.Ledger.{Cancellation, settle, settle_all, settle_all_lem}
use schick.Payment.Store.{
  Repository, enqueue, put_locked, mutate_locked, get, complete_payment, cancel_payment,
}
use schick.Payment.Store.Retries.{HasOwnIds, cancel_payment_retry}
use schick.Payment.Store.Completing.{HasBalanced, announcement, complete_payment_of_canceled}

-- What the runs compute through.
payment_code : Unit {0}
unfolding new_payment normalize_currency mark_succeeded remaining_cancelable_cents cancelable
    validate_cancel canceled_by_amount apply_cancel reconcile_canceled_amount accepted_amount
    payment_canceled_outbox payment_succeeded_outbox cancel_mutation settle settle_all enqueue
    put_locked mutate_locked get complete_payment cancel_payment trim trim_right trim_left is_space
    to_lower lookup insert ◌==◌ ◌+ℤ◌ ◌-ℤ◌ Word.add Word.sub Word.wrap
payment_code = tt

-- 1,000 won, captured.
abbrev captured : Payment
captured = record {
  id = codes "pay_1";
  order_id = codes "order_1";
  customer_id = codes "c";
  amount_cents = pos 1000;
  currency = codes "krw";
  status = succeeded;
  method = method_credit_card;
  provider = codes "nano";
  provider_ref = codes "T1";
  checkout_url = codes "";
  created_by = codes "";
  note = codes "";
  payer_name = codes "";
  payer_phone = codes "";
  payer_email = codes "";
  idempotency_key = codes "k";
  canceled_amount_cents = pos 0;
  canceled_at = none;
  cancel_reason = codes "";
  canceled_by = codes "";
  cancel_idempotency_key = codes "";
  expires_at = 10;
  created_at = 1;
  updated_at = 2;
}

captured-IsBalanced : IsBalanced captured
captured-IsBalanced = record {
  captured = 1000;
  returned = 0;
  amount = refl;
  canceled_amount = refl;
  in_range = omega arith;
  within = omega arith;
  settled = ground arith;
}

-- A provider that reports 5,000 won canceled, whatever it was asked for.
abbrev generous : ProviderCancel
generous input = ok (
    some (record {
      canceled_amount_cents = pos 5000;
      remaining_cents = pos 0;
      remaining_known = false;
    }))

abbrev honest : ProviderCancel
honest input = ok none

abbrev broken : ProviderCancel
broken input = err (provider_error (codes "down"))

abbrev part : CancelPaymentInput
part = record {
  payment_id = codes " pay_1";
  amount_cents = pos 300;
  reason = codes "size";
  canceled_by = codes "m";
  idempotency_key = codes "r1";
}

abbrev rest : CancelPaymentInput
rest = record part { amount_cents = pos 0; idempotency_key = codes "" }

abbrev two_cancels : List Cancellation
two_cancels =
    record { provider = honest; input = part; now = 3; occurred = 4 }
    ∷ record { provider = generous; input = rest; now = 5; occurred = 6 }
    ∷ []

canceled_in_full :
    ((settle_all two_cancels captured).0.status ≡ canceled)
    × ((settle_all two_cancels captured).0.canceled_amount_cents ≡ pos 1000)
unfolding payment_code
canceled_in_full = (refl, refl)

settle_all_lem_example :
    IsBalanced (settle_all two_cancels captured).0
    × IsAccounted captured
        (settle_all two_cancels captured).0
        (event_amounts (settle_all two_cancels captured).1)
settle_all_lem_example = settle_all_lem two_cancels captured captured-IsBalanced

apply_cancel_of_accepted_example :
    apply_cancel captured (pos 1000) (codes "") (codes "") 7
    ≡ ok (canceled_by_amount captured (pos 1000) (codes "") (codes "") 7)
unfolding payment_code
apply_cancel_of_accepted_example =
    apply_cancel_of_accepted generous captured (pos 300) (pos 1000) (codes "") (codes "") 7 refl
      refl

abbrev too_much : Option CancelPaymentResult
too_much =
    some (record {
      canceled_amount_cents = pos 5000;
      remaining_cents = pos 0;
      remaining_known = false;
    })

reconcile_canceled_amount_bounds_example :
    (pos 1 ≤ℤ reconcile_canceled_amount too_much (pos 300) (pos 700))
    × (reconcile_canceled_amount too_much (pos 300) (pos 700) ≤ℤ pos 700)
reconcile_canceled_amount_bounds_example =
    reconcile_canceled_amount_bounds too_much (pos 300) (pos 700) (omega arith) (omega arith)

abbrev stored : Repository
stored = record {
  payments = (codes "pay_1", captured) ∷ [];
  by_key = (codes "k", codes "pay_1") ∷ [];
  outbox = [];
  next_outbox_id = pos 0;
}

stored-HasOwnIds : HasOwnIds stored
unfolding lookup
stored-HasOwnIds k p h = ground (arith, h, eq_iff (codes "pay_1") k)

abbrev after_part : Payment
after_part = record captured {
  canceled_amount_cents = pos 300;
  cancel_reason = codes "size";
  canceled_by = codes "m";
  canceled_at = some 3;
  updated_at = 3;
  cancel_idempotency_key = codes "r1";
}

cancels_part : (cancel_payment honest stored part 3 4 5).1 ≡ ok after_part
unfolding payment_code
cancels_part = refl

cancel_payment_retry_example :
    let first = (cancel_payment honest stored part 3 4 5).0 in
    cancel_payment generous first part 8 9 10 ≡ (first, ok after_part)
unfolding trim trim_right trim_left is_space
cancel_payment_retry_example =
    cancel_payment_retry honest generous stored part 3 4 5 8 9 10 after_part stored-HasOwnIds refl
      cancels_part

stored-HasBalanced : HasBalanced stored
unfolding lookup
stored-HasBalanced k p h = elim (Bool-cases (codes "pay_1" == k)) [
  | inl e ↦ subst IsBalanced (ground (arith, h, e)) captured-IsBalanced
  | inr e ↦ ground (arith, h, e)
]

abbrev returned : Payment
returned = record captured {
  canceled_amount_cents = pos 1000;
  status = canceled;
  cancel_reason = codes "size";
  canceled_by = codes "m";
  canceled_at = some 3;
  updated_at = 3;
}

returns_all :
    cancel_payment honest stored rest 3 4 5
    ≡ ((cancel_payment honest stored rest 3 4 5).0, ok returned)
unfolding payment_code
returns_all = refl

complete_payment_of_canceled_example :
    (t : Repository) × (v : Payment) × (complete_payment
        (cancel_payment honest stored rest 3 4 5).0
        (codes "pay_1")
        7
        8
      ≡ (t, ok v))
    × (lookup (codes "pay_1") t.payments ≡ some v)
    × (v.status ≡ succeeded)
    × (v.canceled_amount_cents ≡ pos 1000)
    × (remaining_cancelable_cents v ≡ pos 0)
    × Any
        (λ e.
          e
          ≡ announcement returned
              (Word.add (cancel_payment honest stored rest 3 4 5).0.next_outbox_id (pos 1))
              8)
        t.outbox
complete_payment_of_canceled_example =
    complete_payment_of_canceled honest stored (cancel_payment honest stored rest 3 4 5).0 rest 3 4
      5 7 8 returned stored-HasOwnIds stored-HasBalanced returns_all refl
