-- ===== src/Payment/Store/Retries.antt =====
-- CancelPayment called again under one idempotency key (payment/pkg/service/service.go), and what a call
-- that fails leaves.
use schick.Prelude.{
  ℕ, ◌≡◌, refl, ◌∙◌, sym, ap, subst, Bool, true, false, not, ◌&&◌, List, [], ◌∷◌, some, arith, Text,
  ◌==◌, eq_iff, eq_refl, is_empty, trim, inl, inr, if◌then◌else◌, Bool-cases, Option-cases,
  Result-cases, Result, ok, err, >>=-eq-ok, ok_injective, lookup, insert, lookup-insert,
  insert_twice,
}
use schick.Payment.{Error, Payment, validate_cancel, canceled_by_amount, apply_cancel}
use schick.Payment.Cancel.{
  ProviderCancel, CancelPaymentInput, OutboxEvent, accepted_amount, requested_amount, keyed,
  payment_canceled_outbox, cancel_mutation,
}
use schick.Payment.Store.{Repository, enqueue, put_locked, mutate_locked, cancel_payment}

-- A payment stands under its own id.
abbrev pub HasOwnIds : Repository → Type 0
HasOwnIds r = (k : Text) (p : Payment) → lookup k r.payments ≡ some p → p.id ≡ k

keyed_key :
    (p : Payment) (key : Text) → is_empty key ≡ false → (keyed p key).cancel_idempotency_key ≡ key
keyed_key p key k = ground (arith, k)

keyed_id : (p : Payment) (key : Text) → (keyed p key).id ≡ p.id
keyed_id p key = ground arith

pub cancel_mutation_key :
    (provider : ProviderCancel) (input : CancelPaymentInput) (now occurred : ℕ) (p q : Payment)
    (events : List OutboxEvent)
    → cancel_mutation provider input now occurred p ≡ ok (q, events)
    → (is_empty (trim input.idempotency_key) ≡ false
        → q.cancel_idempotency_key ≡ trim input.idempotency_key)
      × (q.id ≡ p.id)
unfolding cancel_mutation apply_cancel canceled_by_amount
cancel_mutation_key provider input now occurred p q events e =
    let key = trim input.idempotency_key in
    elim (Bool-cases (not (is_empty key) && p.cancel_idempotency_key == key)) [
      | inl b ↦
          let same : p ≡ q =
            ap (λ (x : Payment × List OutboxEvent). x.0)
              (ok_injective (p, []) (q, events) _ _ refl refl (rw b at e)) in
          (
            λ k. ground (arith, eq_iff p.cancel_idempotency_key key, same),
            ap (λ (x : Payment). x.id) (sym same),
          )
      | inr b ↦
          let (_, v, e1) = >>=-eq-ok (validate_cancel p (requested_amount p input)) _ (rw b at e) in
          let (amount, a, e2) =
            >>=-eq-ok (accepted_amount provider p (requested_amount p input)) _ e1 in
          let (r, c, e3) =
            >>=-eq-ok (apply_cancel p amount input.reason input.canceled_by now) _ e2 in
          let (_, w, d) = >>=-eq-ok (validate_cancel p amount) _ c in
          let same : keyed r key ≡ q =
            ap (λ (x : Payment × List OutboxEvent). x.0)
              (ok_injective (keyed r key, payment_canceled_outbox (keyed r key) amount occurred)
                (q, events) _ _ refl refl e3) in
          let applied : canceled_by_amount p amount input.reason input.canceled_by now ≡ r =
            ok_injective _ r _ _ refl refl d in
          (
            λ k. subst (λ (x : Payment). x.cancel_idempotency_key ≡ key) same (keyed_key r key k),
            subst (λ (x : Payment). x.id ≡ p.id) same
                (keyed_id r key ∙ ap (λ (x : Payment). x.id) (sym applied)),
          )
    ]

enqueue_keeps :
    (events : List OutboxEvent) (now : ℕ) (r : Repository)
    → ((enqueue events now r).payments ≡ r.payments) × ((enqueue events now r).by_key ≡ r.by_key)
unfolding enqueue
enqueue_keeps [] now r = (refl, refl)
enqueue_keeps (e ∷ es) now r = enqueue_keeps es now _

-- A call of CancelPayment that fails, for whatever reason, leaves the repository as it was.
pub cancel_payment_error :
    (provider : ProviderCancel) (r : Repository) (input : CancelPaymentInput)
    (now occurred put_at : ℕ) {e : Error}
    → (cancel_payment provider r input now occurred put_at).1 ≡ err e
    → (cancel_payment provider r input now occurred put_at).0 ≡ r
unfolding cancel_payment mutate_locked
cancel_payment_error provider r input now occurred put_at h = ground (arith, h)

insert_if_twice :
    (b : Bool) (k v : Text) (m : List (Text × Text))
    → let n = if b then insert k v m else m in (if b then insert k v n else n) ≡ n
insert_if_twice true k v m = insert_twice k v m
insert_if_twice false k v m = refl

put_locked_twice :
    (p : Payment) (events : List OutboxEvent) (now later : ℕ) (r : Repository)
    → put_locked p [] later (put_locked p events now r) ≡ put_locked p events now r
unfolding put_locked enqueue
put_locked_twice p events now later r =
    let s = put_locked p events now r in
    let k = enqueue_keeps events now (record r {
      payments = insert p.id p r.payments;
      by_key =
          if not (is_empty p.idempotency_key)
          then insert p.idempotency_key p.id r.by_key
          else r.by_key;
    }) in
    let payments : insert p.id p s.payments ≡ s.payments =
      subst (λ m. insert p.id p m ≡ m) (sym k.0) (insert_twice p.id p r.payments) in
    let keys : (if not (is_empty p.idempotency_key)
          then insert p.idempotency_key p.id s.by_key
          else s.by_key)
        ≡ s.by_key =
      subst
        (λ m. (if not (is_empty p.idempotency_key) then insert p.idempotency_key p.id m else m) ≡ m)
        (sym k.1)
        (insert_if_twice (not (is_empty p.idempotency_key)) p.idempotency_key p.id r.by_key) in
    λ i. record s { payments = payments i; by_key = keys i }

pub lookup-put_locked :
    (p : Payment) (events : List OutboxEvent) (now : ℕ) (r : Repository)
    → lookup p.id (put_locked p events now r).payments ≡ some p
unfolding put_locked
lookup-put_locked p events now r =
    subst (λ m. lookup p.id m ≡ some p) (sym (enqueue_keeps events now _).0)
      (lookup-insert p.id p.id p r.payments ∙ ground (arith, eq_refl p.id))

cancel_mutation_again :
    (provider : ProviderCancel) (input : CancelPaymentInput) (now occurred : ℕ) (p : Payment)
    → is_empty (trim input.idempotency_key) ≡ false
    → p.cancel_idempotency_key ≡ trim input.idempotency_key
    → cancel_mutation provider input now occurred p ≡ ok (p, [])
unfolding cancel_mutation
cancel_mutation_again provider input now occurred p k e =
    let found : not (is_empty (trim input.idempotency_key))
          && p.cancel_idempotency_key == trim input.idempotency_key
        ≡ true =
      ground (arith, eq_iff p.cancel_idempotency_key (trim input.idempotency_key)) in
    rw found refl

replayed :
    (s : Repository) (id : Text) (mutate : Payment → Result Error (Payment × List OutboxEvent))
    (now : ℕ) (q : Payment)
    → lookup id s.payments ≡ some q
    → mutate q ≡ ok (q, [])
    → put_locked q [] now s ≡ s
    → mutate_locked s id mutate now ≡ (s, ok q)
unfolding mutate_locked
replayed s id mutate now q e f g = rw (mutate_locked, e) (rw f (ap (λ t. (t, ok q)) g))

pub mutate_locked_ok :
    (r : Repository) (id : Text) (mutate : Payment → Result Error (Payment × List OutboxEvent))
    (now : ℕ) (q : Payment)
    → (mutate_locked r id mutate now).1 ≡ ok q
    → (p : Payment) × (events : List OutboxEvent) × (lookup id r.payments ≡ some p)
      × (mutate p ≡ ok (q, events))
      × ((mutate_locked r id mutate now).0 ≡ put_locked q events now r)
unfolding mutate_locked
mutate_locked_ok r id mutate now q h = elim (Option-cases (lookup id r.payments)) [
  | inl e ↦ ground (arith, h, e)
  | inr (p, e) ↦ elim (Result-cases (mutate p)) [
    | inr (x, f) ↦ ground (arith, h, e, f)
    | inl ((q', events), f) ↦
        let same : q' ≡ q = ground (arith, h, e, f) in
        (p, events, e, f ∙ ap (λ (x : Payment). ok (x, events)) same, ground (arith, e, f, same))
  ]
]

-- The same cancel asked for again, when the first one succeeded.
mutate_locked_again :
    (provider other : ProviderCancel) (r : Repository) (id : Text) (input : CancelPaymentInput)
    (now occurred put_at now' occurred' put_at' : ℕ) (q : Payment)
    → HasOwnIds r
    → is_empty (trim input.idempotency_key) ≡ false
    → (mutate_locked r id (cancel_mutation provider input now occurred) put_at).1 ≡ ok q
    → let first = (mutate_locked r id (cancel_mutation provider input now occurred) put_at).0 in
      mutate_locked first id (cancel_mutation other input now' occurred') put_at' ≡ (first, ok q)
mutate_locked_again provider other r id input now occurred put_at now' occurred' put_at' q own k e =
    let (p, events, f, g, same) =
      mutate_locked_ok r id (cancel_mutation provider input now occurred) put_at q e in
    let (key, named) = cancel_mutation_key provider input now occurred p q events g in
    let here : q.id ≡ id = named ∙ own id p f in
    subst (λ s. mutate_locked s id (cancel_mutation other input now' occurred') put_at' ≡ (s, ok q))
      (sym same)
      (replayed (put_locked q events put_at r) id _ put_at' q
        (subst (λ x. lookup x (put_locked q events put_at r).payments ≡ some q) here
          (lookup-put_locked q events put_at r))
        (cancel_mutation_again other input now' occurred' q k (key k))
        (put_locked_twice q events put_at put_at' r))

-- CancelPayment asked for again under the key of a cancel that succeeded, at any later time and whatever
-- the provider would now do: the answer is the same payment, and the repository stays as it is, its
-- outbox included.
pub cancel_payment_retry :
    (provider other : ProviderCancel) (r : Repository) (input : CancelPaymentInput)
    (now occurred put_at now' occurred' put_at' : ℕ) (q : Payment)
    → HasOwnIds r
    → is_empty (trim input.idempotency_key) ≡ false
    → (cancel_payment provider r input now occurred put_at).1 ≡ ok q
    → let first = (cancel_payment provider r input now occurred put_at).0 in
      cancel_payment other first input now' occurred' put_at' ≡ (first, ok q)
unfolding cancel_payment
cancel_payment_retry provider other r input now occurred put_at now' occurred' put_at' q own k e =
    elim (Bool-cases (is_empty (trim input.payment_id))) [
      | inl b ↦ ground (arith, b, e)
      | inr b ↦ rw b (
          mutate_locked_again provider other r (trim input.payment_id) input now occurred put_at
            now' occurred' put_at' q own k (rw b at e))
    ]
