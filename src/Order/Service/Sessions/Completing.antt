-- ===== src/Order/Service/Sessions/Completing.antt =====
-- Two completions of one checkout session (order/pkg/service/checkout.go).
use schick.Prelude.{
  ℕ, ◌+◌, ◌≡◌, ◌≢◌, refl, Bool, true, false, not, Option, none, some, Text, ltb, eq_refl, Result,
  ok, err, lookup, lookup-insert, if_rule,
}
use schick.Order.{Error, Order}
use schick.Order.Checkout.{CheckoutSession, CheckoutStatus, completed, is_open, expired}
use schick.Order.Repository.{
  Repository, complete_found, complete_checkout_session_if_open, is_open_status,
}
use schick.Order.World.{
  World, Env, Task, fail, attempt, as_value, continue, ◌>>=◌, read_clock, access, accessed,
}
use schick.Order.World.Holds.{Yields, HoldsOf, Yields-bind, Yields-fail, Yields-any}
use schick.Order.World.Keeps.{IsPolite}
use schick.Order.Service.Sessions.{CompleteCheckoutResult, of_claim, claim_session}

-- The stored session is completed, or expired.
abbrev pub IsClosed : Text → Repository → Type 0
IsClosed id r = (s : CheckoutSession) × (lookup id r.sessions ≡ some s) × (s.status ≢ is_open)

not_open : (s : CheckoutStatus) → s ≢ is_open → is_open_status s ≡ false
not_open is_open h = absurd (h refl)
not_open completed h = refl
not_open expired h = refl

Claims : Text → Repository × Bool → Type 0
Claims id x = x.1 ≡ true → IsClosed id x.0

found_IsClosed :
    (r : Repository) (id order_id : Text) (now : ℕ) (found : Option CheckoutSession)
    → Claims id (complete_found r id order_id now found)
unfolding Claims
found_IsClosed r id order_id now none h = cc
found_IsClosed r id order_id now (some s) h =
    if_rule (Claims id) (not (is_open_status s.status)) (λ h. cc)
      (if_rule (Claims id) (ltb s.expires_at now) (λ h. cc)
        (λ _. (
          record s { status = completed; order_id = order_id; updated_at = now },
          rw
              (
                lookup-insert id id
                    (record s { status = completed; order_id = order_id; updated_at = now })
                    r.sessions,
                eq_refl id,
              )
              refl,
          λ e. cc e,
        )))
      h

-- A claim that goes through closes the session.
pub claimed_IsClosed :
    (r : Repository) (id order_id : Text) (now : ℕ)
    → (complete_checkout_session_if_open r id order_id now).1 ≡ true
    → IsClosed id (complete_checkout_session_if_open r id order_id now).0
unfolding complete_checkout_session_if_open Claims
claimed_IsClosed r id order_id now = found_IsClosed r id order_id now (lookup id r.sessions)

closed_stays :
    (r : Repository) (id order_id : Text) (now : ℕ)
    → IsClosed id r
    → complete_checkout_session_if_open r id order_id now ≡ (r, false)
unfolding complete_checkout_session_if_open
closed_stays r id order_id now (s, there, closed) = rw (there, not_open s.status closed) refl

module _ (env : Env) (session : CheckoutSession) (order : Order) where
  lost :
      (e : Error) {A B : Type 0} (m : Task A) → Yields {A = B} (λ _. ⊥) (attempt m >>= λ _. fail e)
  lost e m = Yields-bind _ _ (λ _. Unit {0}) (λ _. ⊥) (Yields-any _) (λ _ _. Yields-fail _ e)

  lost_claim :
      (now : ℕ) (x : Result Error Bool)
      → x ≢ ok true
      → Yields (λ _. ⊥) (of_claim env session order now x)
  lost_claim now (ok true) h = absurd (h refl)
  lost_claim now (ok false) h = lost _ _
  lost_claim now (err e) h = lost e _

  lost_next :
      (now : ℕ) (x : World × Result Error Bool)
      → x.1 ≢ ok true
      → HoldsOf (λ _. ⊥) (continue (as_value x) (of_claim env session order now)).1
  lost_next now (v, x) h = (lost_claim now x h).at v

  abbrev call : ℕ → Repository → Repository × Result Error Bool
  call now r =
      let (s, won) = complete_checkout_session_if_open r session.id order.id now in (s, ok won)

  no_claim :
      (now : ℕ) (stop : Option Error) (w : World)
      → IsClosed session.id w.repo
      → (accessed env stop (call now) w).1 ≢ ok true
  no_claim now none w closed e = cc (rw (closed_stays w.repo session.id order.id now closed) at e)
  no_claim now (some failure) w closed e = cc e

  claim_lost :
      (w : World)
      → IsPolite env (IsClosed session.id)
      → IsClosed session.id w.repo
      → HoldsOf (λ _. ⊥) (claim_session env session order w).1
  unfolding claim_session ◌>>=◌ read_clock attempt access
  claim_lost w polite closed =
      lost_next (env.clock w.tick) _
        (no_claim (env.clock w.tick) (env.fails (w.tick + 1)) _ (polite (w.tick + 1) w.repo closed))

not_ok : {A : Type 0} (x : Result Error A) (a : A) → HoldsOf (λ _. ⊥) x → x ≢ ok a
not_ok (ok b) a h e = h
not_ok (err e) a h same = cc same

-- A checkout session is completed at most once: after a claim of the session has gone through, or once it
-- has expired, no completion of it that is under way succeeds, whatever other requests do but open the
-- session again.
pub claim_session_closed :
    (env : Env) (session : CheckoutSession) (order : Order) (w : World)
    (result : CompleteCheckoutResult)
    → IsPolite env (IsClosed session.id)
    → IsClosed session.id w.repo
    → (claim_session env session order w).1 ≢ ok result
claim_session_closed env session order w result polite closed =
    not_ok _ result (claim_lost env session order w polite closed)
