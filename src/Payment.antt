-- ===== src/Payment.antt =====
-- payment/pkg/domain/payment.go: a payment and what its methods do to it. Its modules are about the
-- cancel of the service (Cancel), the memory repository (Store) and what both keep right (Books).
pub mod Books
pub mod Cancel
pub mod Store
mod Tests
use schick.Prelude.{
  ℕ, ◌+◌, ◌*◌, ◌^◌, ◌≤◌, ◌≡◌, refl, ℤ, pos, negsuc, leb_ℤ, ltb_ℤ, eqb_ℤ, Bool, true, false, not,
  ◌&&◌, ◌||◌, Option, none, some, Text, codes, ◌==◌, is_empty, trim, to_lower, if◌then◌else◌,
  Result, ok, err, ◌>>=◌, ◌>>◌, refuse_if,
}
use schick.Prelude.Word

-- The errors of domain and ports; a provider's own error carries its text.
pub data Error : Type 0 where
  invalid_payment not_cancelable cancel_amount_invalid : Error
  not_found order_forbidden : Error
  provider_error : Text → Error

pub data PaymentStatus : Type 0 where
  requires_payment succeeded failed canceled expired : PaymentStatus

-- Instants are nanoseconds; a nil time is `none`.
pub record Payment : Type 0 where
  pub id : Text
  pub order_id : Text
  pub customer_id : Text
  pub amount_cents : ℤ
  pub currency : Text
  pub status : PaymentStatus
  pub method : Text
  pub provider : Text
  pub provider_ref : Text
  pub checkout_url : Text
  pub created_by : Text
  pub note : Text
  pub payer_name : Text
  pub payer_phone : Text
  pub payer_email : Text
  pub idempotency_key : Text
  pub canceled_amount_cents : ℤ
  pub canceled_at : Option ℕ
  pub cancel_reason : Text
  pub canceled_by : Text
  pub cancel_idempotency_key : Text
  pub expires_at : ℕ
  pub created_at : ℕ
  pub updated_at : ℕ

abbrev pub method_credit_card : Text
method_credit_card = codes "credit_card"

abbrev pub method_bypass : Text
method_bypass = codes "bypass"

abbrev pub method_bitcoin : Text
method_bitcoin = codes "bitcoin"

abbrev pub default_currency : Text
default_currency = codes "krw"

-- 5 minutes, in nanoseconds
abbrev pub default_payment_ttl : ℕ
default_payment_ttl = 5 * 60 * 10 ^ 9

-- money.NormalizeCurrency; the one caller here maps its error to invalid_payment.
unfoldable pub normalize_currency : Text → Result Error Text
normalize_currency raw =
    let c = to_lower (trim raw) in
    if is_empty c || c == default_currency then ok default_currency else err invalid_payment

-- NewPayment; the fields that the code leaves at their zero values are written out.
unfoldable pub new_payment :
    (id order_id customer_id : Text) (amount_cents : ℤ)
    (currency provider provider_ref checkout_url : Text) (now : ℕ)
    → Result Error Payment
new_payment id order_id customer_id amount_cents currency provider provider_ref checkout_url now =
    do
      refuse_if
          (is_empty id || is_empty order_id || is_empty customer_id || leb_ℤ amount_cents (pos 0))
          invalid_payment
      normalized ← normalize_currency currency
      ok (record {
        id = id;
        order_id = order_id;
        customer_id = customer_id;
        amount_cents = amount_cents;
        currency = normalized;
        status = requires_payment;
        method = method_credit_card;
        provider = provider;
        provider_ref = provider_ref;
        checkout_url = checkout_url;
        created_by = codes "";
        note = codes "";
        payer_name = codes "";
        payer_phone = codes "";
        payer_email = codes "";
        idempotency_key = codes "";
        canceled_amount_cents = pos 0;
        canceled_at = none;
        cancel_reason = codes "";
        canceled_by = codes "";
        cancel_idempotency_key = codes "";
        expires_at = now + default_payment_ttl;
        created_at = now;
        updated_at = now;
      })

unfoldable pub normalize_method : Text → Result Error Text
normalize_method method =
    let m = trim (to_lower method) in
    if is_empty m
    then ok method_credit_card
    else if m == method_credit_card || m == method_bypass || m == method_bitcoin
    then ok m
    else err invalid_payment

unfoldable pub mark_failed : Payment → ℕ → Payment
mark_failed p now = record p { status = failed; updated_at = now }

unfoldable pub mark_succeeded : Payment → ℕ → Payment
mark_succeeded p now = record p { status = succeeded; updated_at = now }

unfoldable pub remaining_cancelable_cents : Payment → ℤ
remaining_cancelable_cents p =
    let remaining = Word.sub p.amount_cents p.canceled_amount_cents in
    if ltb_ℤ remaining (pos 0) then pos 0 else remaining

abbrev pub is_succeeded : PaymentStatus → Bool
is_succeeded succeeded = true
is_succeeded _ = false

unfoldable pub cancelable : Payment → Bool
cancelable p = is_succeeded p.status && ltb_ℤ (pos 0) (remaining_cancelable_cents p)

unfoldable pub validate_cancel : Payment → ℤ → Result Error (Unit {0})
validate_cancel p amount_cents =
    if not (cancelable p)
    then err not_cancelable
    else if leb_ℤ amount_cents (pos 0) || ltb_ℤ (remaining_cancelable_cents p) amount_cents
    then err cancel_amount_invalid
    else ok tt

abbrev keep_if_blank : Text → Text → Text
keep_if_blank new old = if is_empty (trim new) then old else trim new

-- ApplyCancel once the amount is accepted.
unfoldable pub canceled_by_amount : Payment → ℤ → Text → Text → ℕ → Payment
canceled_by_amount p amount_cents reason canceled_by now =
    let c = Word.add p.canceled_amount_cents amount_cents in
    let q = record p {
      canceled_amount_cents = c;
      cancel_reason = keep_if_blank reason p.cancel_reason;
      canceled_by = keep_if_blank canceled_by p.canceled_by;
      canceled_at = some now;
      updated_at = now;
    } in
    record q {
      status = if eqb_ℤ (remaining_cancelable_cents q) (pos 0) then canceled else q.status;
    }

unfoldable pub apply_cancel : Payment → ℤ → Text → Text → ℕ → Result Error Payment
apply_cancel p amount_cents reason canceled_by now =
    validate_cancel p amount_cents >> ok (canceled_by_amount p amount_cents reason canceled_by now)
