-- ===== src/Payment/Store.antt =====
-- The memory repository of payment/pkg/infra/memory/repository.go, and the calls of
-- payment/pkg/service/service.go on it. MutateLocked holds the lock while it runs, so a call is one step;
-- a context that is cancelled before it starts is left out, and so is the drain of the outbox that follows
-- a successful call, whose failure the service ignores.
pub mod Retries
pub mod Completing
use schick.Prelude.{
  ℕ, ◌+◌, ◌≡◌, ℤ, pos, negsuc, Bool, true, false, not, ◌&&◌, List, [], ◌∷◌, ◌++◌, Option, none,
  some, Text, codes, ◌==◌, is_empty, trim, if◌then◌else◌, Result, ok, err, lookup, insert, eqb_ℤ,
}
use schick.Prelude.Word
use schick.Payment.{
  Error, invalid_payment, not_found, order_forbidden, Payment, is_succeeded, mark_succeeded,
}
use schick.Payment.Cancel.{
  ProviderCancel, CancelPaymentInput, OutboxEvent, payment_succeeded_outbox, cancel_mutation,
}

pub record OutboxMessage : Type 0 where
  pub id : ℤ
  pub event : OutboxEvent
  pub attempts : ℤ
  pub last_error : Text
  pub created_at : ℕ

pub record OutboxEntry : Type 0 where
  pub msg : OutboxMessage
  pub published : Bool

-- nextID numbers the payments of NextPaymentID, which no call here makes.
pub record Repository : Type 0 where
  pub payments : List (Text × Payment)
  pub by_key : List (Text × Text)
  pub outbox : List OutboxEntry
  pub next_outbox_id : ℤ

abbrev pub put_entry : OutboxEntry → List OutboxEntry → List OutboxEntry
put_entry e [] = e ∷ []
put_entry e (f ∷ fs) = if eqb_ℤ f.msg.id e.msg.id then e ∷ fs else f ∷ put_entry e fs

-- The loop of putLocked
unfoldable pub enqueue : List OutboxEvent → ℕ → Repository → Repository
enqueue [] now r = r
enqueue (event ∷ events) now r =
    let n = Word.add r.next_outbox_id (pos 1) in
    enqueue events now (record r {
      next_outbox_id = n;
      outbox =
          put_entry
            (record {
              msg = record {
                id = n;
                event = event;
                attempts = pos 0;
                last_error = codes "";
                created_at = now;
              };
              published = false;
            })
            r.outbox;
    })

unfoldable pub put_locked : Payment → List OutboxEvent → ℕ → Repository → Repository
put_locked p events now r = enqueue events now (record r {
  payments = insert p.id p r.payments;
  by_key =
      if not (is_empty p.idempotency_key) then insert p.idempotency_key p.id r.by_key else r.by_key;
})

abbrev pub put_result :
    Result Error (Payment × List OutboxEvent) → ℕ → Repository → Repository × Result Error Payment
put_result (err e) now r = (r, err e)
put_result (ok (p, events)) now r = (put_locked p events now r, ok p)

unfoldable pub mutate_locked :
    Repository
    → Text
    → (Payment → Result Error (Payment × List OutboxEvent))
    → ℕ
    → Repository × Result Error Payment
mutate_locked r id mutate now = elim (lookup id r.payments) [
  | none ↦ (r, err not_found)
  | some p ↦ put_result (mutate p) now r
]

unfoldable pub get : Repository → Text → Result Error Payment
get r id = elim (lookup id r.payments) [ none ↦ err not_found | some p ↦ ok p ]

-- A key whose payment is gone is not an answer of this model: byKey is only ever set beside the payment.
unfoldable pub find_by_idempotency_key : Repository → Text → Result Error Payment
find_by_idempotency_key r key = elim (lookup key r.by_key) [
  | none ↦ err not_found
  | some id ↦ get r id
]

abbrev published_entry : ℤ → List OutboxEntry → Option (List OutboxEntry)
published_entry id [] = none
published_entry id (e ∷ es) =
    let rest : Option (List OutboxEntry) = elim (published_entry id es) [
      | none ↦ none
      | some fs ↦ some (e ∷ fs)
    ] in
    if eqb_ℤ e.msg.id id
    then some (record { msg = record e.msg { last_error = codes "" }; published = true } ∷ es)
    else rest

unfoldable pub mark_outbox_published : Repository → ℤ → Repository × Option Error
mark_outbox_published r id = elim (published_entry id r.outbox) [
  | none ↦ (r, some not_found)
  | some es ↦ (record r { outbox = es }, none)
]

unfoldable pub get_payment : Repository → Text → Text → Result Error Payment
get_payment r payment_id customer_id = elim (get r payment_id) [
  | err e ↦ err e
  | ok p ↦
      if not (is_empty customer_id) && not (p.customer_id == customer_id)
      then err order_forbidden
      else ok p
]

-- CompletePayment and persistSucceeded; the clock is read by the service and by the repository.
unfoldable pub complete_payment : Repository → Text → ℕ → ℕ → Repository × Result Error Payment
complete_payment r payment_id now put_at = elim (get r payment_id) [
  | err e ↦ (r, err e)
  | ok p ↦
      let q = if not (is_succeeded p.status) then mark_succeeded p now else p in
      (put_locked q (payment_succeeded_outbox q) put_at r, ok q)
]

unfoldable pub cancel_payment :
    ProviderCancel → Repository → CancelPaymentInput → ℕ → ℕ → ℕ → Repository × Result Error Payment
cancel_payment provider r input now occurred put_at =
    let id = trim input.payment_id in
    let result = mutate_locked r id (cancel_mutation provider input now occurred) put_at in
    if is_empty id then (r, err invalid_payment) else result
