-- ===== src/Payment/Cancel.antt =====
-- payment/pkg/service/service.go: CancelPayment's change of the payment, which the repository runs under
-- its lock, and how it reads what the provider reports.
use schick.Prelude.{
  ℕ, ℤ, pos, eqb_ℤ, ltb_ℤ, Bool, not, ◌&&◌, List, [], ◌∷◌, Option, none, some, Text, ◌==◌, is_empty,
  trim, if◌then◌else◌, Result, ok, ◌>>=◌, ◌>>◌,
}
use schick.Prelude.Word
use schick.Payment.{
  Error, Payment, method_bypass, remaining_cancelable_cents, validate_cancel, apply_cancel,
}

pub record CancelPaymentResult : Type 0 where
  pub canceled_amount_cents : ℤ
  pub remaining_cents : ℤ
  pub remaining_known : Bool

-- What CancelPayment asks of the provider.
pub record ProviderCancelInput : Type 0 where
  pub provider_ref : Text
  pub payment_id : Text
  pub amount_cents : ℤ
  pub currency : Text

-- The CancelPayment of a ports.CheckoutProvider: an error, or a result that may be nil.
abbrev pub ProviderCancel : Type 0
ProviderCancel = ProviderCancelInput → Result Error (Option CancelPaymentResult)

pub record CancelPaymentInput : Type 0 where
  pub payment_id : Text
  pub amount_cents : ℤ
  pub reason : Text
  pub canceled_by : Text
  pub idempotency_key : Text

pub record PaymentSucceededEvent : Type 0 where
  pub order_id : Text
  pub payment_id : Text
  pub amount_cents : ℤ

pub record PaymentCanceledEvent : Type 0 where
  pub order_id : Text
  pub payment_id : Text
  pub amount_cents : ℤ
  pub remaining_cents : ℤ
  pub reason : Text
  pub canceled_by : Text
  pub occurred : ℕ

-- The event that the payload is the JSON of; the constructor is its subject and its event type.
pub data Payload : Type 0 where
  payment_succeeded : PaymentSucceededEvent → Payload
  payment_canceled : PaymentCanceledEvent → Payload

pub record OutboxEvent : Type 0 where
  pub aggregate_id : Text
  pub payload : Payload

-- What the provider reports, before it is brought into range.
abbrev reported : CancelPaymentResult → ℤ → ℤ → ℤ
reported result requested remaining_before =
    if result.remaining_known
    then Word.sub remaining_before result.remaining_cents
    else if ltb_ℤ (pos 0) result.canceled_amount_cents
    then result.canceled_amount_cents
    else requested

abbrev clamped : ℤ → ℤ → ℤ
clamped amount remaining_before =
    let a = if ltb_ℤ amount (pos 1) then pos 1 else amount in
    if ltb_ℤ remaining_before a then remaining_before else a

unfoldable pub reconcile_canceled_amount : Option CancelPaymentResult → ℤ → ℤ → ℤ
reconcile_canceled_amount none requested remaining_before = requested
reconcile_canceled_amount (some result) requested remaining_before =
    clamped (reported result requested remaining_before) remaining_before

unfoldable pub payment_succeeded_outbox : Payment → List OutboxEvent
payment_succeeded_outbox p =
    record {
      aggregate_id = p.id;
      payload =
          payment_succeeded
            (record { order_id = p.order_id; payment_id = p.id; amount_cents = p.amount_cents });
    }
    ∷ []

unfoldable pub payment_canceled_outbox : Payment → ℤ → ℕ → List OutboxEvent
payment_canceled_outbox p amount_cents now =
    record {
      aggregate_id = p.id;
      payload = payment_canceled (record {
        order_id = p.order_id;
        payment_id = p.id;
        amount_cents = amount_cents;
        remaining_cents = remaining_cancelable_cents p;
        reason = p.cancel_reason;
        canceled_by = p.canceled_by;
        occurred = now;
      });
    }
    ∷ []

-- An amount of 0 asks for all that is left.
abbrev pub requested_amount : Payment → CancelPaymentInput → ℤ
requested_amount p input =
    if eqb_ℤ input.amount_cents (pos 0) then remaining_cancelable_cents p else input.amount_cents

-- The amount to record: a bypass payment has no provider to ask.
unfoldable pub accepted_amount : ProviderCancel → Payment → ℤ → Result Error ℤ
accepted_amount provider p requested =
    if not (p.method == method_bypass)
    then (provider (record {
      provider_ref = p.provider_ref;
      payment_id = p.id;
      amount_cents = requested;
      currency = p.currency;
    })
        >>= λ result.
            ok (reconcile_canceled_amount result requested (remaining_cancelable_cents p)))
    else ok requested

abbrev pub keyed : Payment → Text → Payment
keyed p key = if not (is_empty key) then record p { cancel_idempotency_key = key } else p

-- The function that CancelPayment gives to MutateLocked, which reads the clock twice.
unfoldable pub cancel_mutation :
    ProviderCancel
    → CancelPaymentInput
    → ℕ
    → ℕ
    → Payment
    → Result Error (Payment × List OutboxEvent)
cancel_mutation provider input now occurred p =
    let key = trim input.idempotency_key in
    if not (is_empty key) && p.cancel_idempotency_key == key then ok (p, []) else do
      let requested = requested_amount p input
      validate_cancel p requested
      amount ← accepted_amount provider p requested
      q ← apply_cancel p amount input.reason input.canceled_by now
      ok (keyed q key, payment_canceled_outbox (keyed q key) amount occurred)
