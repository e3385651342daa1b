-- ===== src/Payment/Store/Completing.antt =====
-- CompletePayment of payment/pkg/service/service.go after a CancelPayment that gave all back.
use schick.Prelude.{
  ℕ, ◌≡◌, refl, ◌∙◌, ap, sym, subst, pos, ℤ, false, codes, List, [], ◌∷◌, some, arith, Text, ok,
  lookup, Any, inl, inr, trim, is_empty, if_rule, eqb_ℤ, Bool-cases,
}
use schick.Prelude.Word
use schick.Payment.{Payment, canceled, succeeded, mark_succeeded, remaining_cancelable_cents}
use schick.Payment.Cancel.{
  ProviderCancel, CancelPaymentInput, payment_succeeded, payment_succeeded_outbox, cancel_mutation,
}
use schick.Payment.Books.{IsBalanced, remaining_lem}
use schick.Payment.Books.Refunds.{cancel_mutation_lem}
use schick.Payment.Store.{
  Repository, OutboxEntry, put_entry, enqueue, put_locked, mutate_locked, get, complete_payment,
  cancel_payment,
}
use schick.Payment.Store.Retries.{
  HasOwnIds, cancel_mutation_key, lookup-put_locked, mutate_locked_ok,
}

-- Every stored payment has its books in order.
abbrev pub HasBalanced : Repository → Type 0
HasBalanced r = (k : Text) (p : Payment) → lookup k r.payments ≡ some p → IsBalanced p

-- The row that announces that a payment has succeeded, with its whole amount and yet to be published.
abbrev pub announcement : Payment → ℤ → ℕ → OutboxEntry
announcement p id now = record {
  msg = record {
    id = id;
    event = record {
      aggregate_id = p.id;
      payload =
          payment_succeeded
            (record { order_id = p.order_id; payment_id = p.id; amount_cents = p.amount_cents });
    };
    attempts = pos 0;
    last_error = codes "";
    created_at = now;
  };
  published = false;
}

put_entry_holds :
    (P : OutboxEntry → Type 0) (e : OutboxEntry) (es : List OutboxEntry)
    → P e
    → Any P (put_entry e es)
put_entry_holds P e [] h = inl h
put_entry_holds P e (f ∷ fs) h =
    if_rule (Any P) (eqb_ℤ f.msg.id e.msg.id) (inl h) (inr (put_entry_holds P e fs h))

announced :
    (p : Payment) (now : ℕ) (r : Repository)
    → Any
        (λ e. e ≡ announcement p (Word.add r.next_outbox_id (pos 1)) now)
        (put_locked p (payment_succeeded_outbox p) now r).outbox
unfolding put_locked enqueue payment_succeeded_outbox
announced p now r =
    put_entry_holds (λ e. e ≡ announcement p (Word.add r.next_outbox_id (pos 1)) now) _ r.outbox
      refl

-- The row that a successful cancel leaves.
row_of_locked :
    (provider : ProviderCancel) (r : Repository) (id : Text) (input : CancelPaymentInput)
    (now occurred put_at : ℕ) (q : Payment)
    → HasOwnIds r
    → HasBalanced r
    → (mutate_locked r id (cancel_mutation provider input now occurred) put_at).1 ≡ ok q
    → (lookup id
          (mutate_locked r id (cancel_mutation provider input now occurred) put_at).0.payments
        ≡ some q)
      × IsBalanced q
      × (q.id ≡ id)
row_of_locked provider r id input now occurred put_at q own balanced done =
    let (p, events, f, g, same) =
      mutate_locked_ok r id (cancel_mutation provider input now occurred) put_at q done in
    let named : q.id ≡ id =
      (cancel_mutation_key provider input now occurred p q events g).1 ∙ own id p f in
    (
      subst (λ s. lookup id s.payments ≡ some q) (sym same)
          (subst (λ x. lookup x (put_locked q events put_at r).payments ≡ some q) named
            (lookup-put_locked q events put_at r)),
      (cancel_mutation_lem provider input now occurred p q events (balanced id p f) g).0,
      named,
    )

row_after_cancel :
    (provider : ProviderCancel) (r : Repository) (input : CancelPaymentInput)
    (now occurred put_at : ℕ) (q : Payment)
    → HasOwnIds r
    → HasBalanced r
    → (cancel_payment provider r input now occurred put_at).1 ≡ ok q
    → (lookup
          (trim input.payment_id)
          (cancel_payment provider r input now occurred put_at).0.payments
        ≡ some q)
      × IsBalanced q
      × (q.id ≡ trim input.payment_id)
unfolding cancel_payment
row_after_cancel provider r input now occurred put_at q own balanced done =
    elim (Bool-cases (is_empty (trim input.payment_id))) [
      | inl b ↦ ground (arith, b, done)
      | inr b ↦ rw b (
          row_of_locked provider r (trim input.payment_id) input now occurred put_at q own balanced
            (rw b at done))
    ]

complete_payment_lem :
    (r : Repository) (id : Text) (q : Payment) (now put_at : ℕ)
    → lookup id r.payments ≡ some q
    → q.status ≡ canceled
    → complete_payment r id now put_at ≡ (
      put_locked (mark_succeeded q now) (payment_succeeded_outbox (mark_succeeded q now)) put_at r,
      ok (mark_succeeded q now),
    )
unfolding complete_payment get
complete_payment_lem r id q now put_at found off = rw (complete_payment, get, found) (rw off refl)

-- A cancel that gave all back, on a repository of balanced payments under their own ids, and then a
-- CompletePayment: it succeeds, the payment that is stored is succeeded although all of it is given back,
-- so that nothing is left to cancel, and the outbox has a new row, under the next id and yet to be
-- published, of a payment.succeeded with the whole amount.
pub complete_payment_of_canceled :
    (provider : ProviderCancel) (r s : Repository) (input : CancelPaymentInput)
    (now occurred put_at later stored_at : ℕ) (q : Payment)
    → HasOwnIds r
    → HasBalanced r
    → cancel_payment provider r input now occurred put_at ≡ (s, ok q)
    → q.status ≡ canceled
    → (t : Repository) × (v : Payment) × (complete_payment s q.id later stored_at ≡ (t, ok v))
      × (lookup q.id t.payments ≡ some v)
      × (v.status ≡ succeeded)
      × (v.canceled_amount_cents ≡ q.amount_cents)
      × (remaining_cancelable_cents v ≡ pos 0)
      × Any (λ e. e ≡ announcement q (Word.add s.next_outbox_id (pos 1)) stored_at) t.outbox
unfolding mark_succeeded remaining_cancelable_cents
complete_payment_of_canceled provider r s input now occurred put_at later stored_at q own balanced
      done off =
    let (row, h, named) =
      row_after_cancel provider r input now occurred put_at q own balanced (ap (λ x. x.1) done) in
    let there : lookup q.id s.payments ≡ some q =
      subst (λ k. lookup k s.payments ≡ some q) (sym named)
        (ap (λ x. lookup (trim input.payment_id) x.0.payments) (sym done) ∙ row) in
    let v = mark_succeeded q later in
    (
      put_locked v (payment_succeeded_outbox v) stored_at s,
      v,
      complete_payment_lem s q.id q later stored_at there off,
      lookup-put_locked v (payment_succeeded_outbox v) stored_at s,
      refl,
      h.canceled_amount ∙ ap pos (h.settled off) ∙ sym h.amount,
      remaining_lem q h ∙ ap pos (omega (arith, h.settled off)),
      announced v stored_at s,
    )
