-- ===== src/Outbox.antt =====
-- shared/pkg/outbox/outbox.go: events that a service writes together with a change of its state, and the
-- drainer that publishes them. A Store is a service's own table, behind the laws that the drainer needs.
pub mod Memory
pub mod Draining
use schick.Prelude.{
  ℕ, zero, suc, ◌+◌, ◌≡◌, ℤ, pos, List, [], ◌∷◌, ◌++◌, Option, none, some, Text, Result, ok, err,
}
use schick.Prelude.Word

pub record Event : Type 0 where
  pub aggregate_id : Text
  pub subject : Text
  pub payload : Text

pub record Message : Type 0 where
  pub id : ℤ  -- int64
  pub event : Event
  pub created_at : ℕ
  pub attempts : ℤ  -- int
  pub last_error : Text

-- What RecordOutboxAttempt does to a row.
abbrev pub attempted : Text → Message → Message
attempted message m = record m { attempts = Word.add m.attempts (pos 1); last_error = message }

unfoldable pub take {ℓ} : {A : Type ℓ} → ℕ → List A → List A
take zero xs = []
take (suc n) [] = []
take (suc n) (x ∷ xs) = x ∷ take n xs

unfoldable pub drop {ℓ} : {A : Type ℓ} → ℕ → List A → List A
drop zero xs = xs
drop (suc n) [] = []
drop (suc n) (x ∷ xs) = drop n xs

-- The three methods on a table in the state `S`, in which `pending` are the rows that are not published,
-- in the order in which the table lists them.
pub record Store (S : Type 0) (E : Type 0) : Type 1 where
  pub list_pending_outbox : S → ℕ → Result E (List Message)
  pub mark_outbox_published : S → ℤ → S × Option E
  pub record_outbox_attempt : S → ℤ → Text → S × Option E
  pub IsValid : S → Type 0
  pub pending : S → List Message
  pub listed : (s : S) (n : ℕ) → list_pending_outbox s (suc n) ≡ ok (take (suc n) (pending s))
  pub marked :
      (s : S) (xs ys : List Message) (m : Message)
      → IsValid s
      → pending s ≡ xs ++ (m ∷ ys)
      → IsValid (mark_outbox_published s m.id).0
        × (pending (mark_outbox_published s m.id).0 ≡ xs ++ ys)
        × ((mark_outbox_published s m.id).1 ≡ none)
  pub recorded :
      (s : S) (xs ys : List Message) (m : Message) (message : Text)
      → IsValid s
      → pending s ≡ xs ++ (m ∷ ys)
      → IsValid (record_outbox_attempt s m.id message).0
        × (pending (record_outbox_attempt s m.id message).0 ≡ xs ++ (attempted message m ∷ ys))

-- The broker's answers to the calls of Publish, by their number: `none` where it takes the event.
abbrev pub Publisher : Type 0 → Type 0
Publisher E = ℕ → Text → Text → Option E

-- `if err != nil && firstErr == nil { firstErr = err }`
abbrev pub first_error {ℓ} : {E : Type ℓ} → Option E → Option E → Option E
first_error (some e) _ = some e
first_error none later = later

-- `if err != nil { return err }` in a loop over a table.
abbrev pub unless_failed :
    {S : Type 0} {E : Type 0} → S × Option E → (S → S × Option E) → S × Option E
unless_failed (s, none) rest = rest s
unless_failed (s, some e) rest = (s, some e)

module _ {S : Type 0} {E : Type 0} (store : Store S E) (describe : E → Text) where
  open store use {list_pending_outbox, mark_outbox_published, record_outbox_attempt}

  -- The loop of Drain where no broker is configured: it ends at the first error.
  unfoldable pub mark_all : List Message → S → S × Option E
  mark_all [] s = (s, none)
  mark_all (m ∷ ms) s = unless_failed (mark_outbox_published s m.id) (mark_all ms)

  -- One round of the loop of Drain.
  unfoldable pub deliver : Option E → Message → S → Option E → S × Option E
  deliver (some e) m s first =
      ((record_outbox_attempt s m.id (describe e)).0, first_error first (some e))
  deliver none m s first =
      let (t, failure) = mark_outbox_published s m.id in (t, first_error first failure)

  unfoldable pub publish_all : Publisher E → ℕ → List Message → S → Option E → S × Option E
  publish_all publish n [] s first = (s, first)
  publish_all publish n (m ∷ ms) s first =
      let (t, e) = deliver (publish n m.event.subject m.event.payload) m s first in
      publish_all publish (n + 1) ms t e

  -- Drain; the publisher is `none` where no broker is configured.
  unfoldable pub drain : Option (Publisher E) → S → S × Option E
  drain none s = elim (list_pending_outbox s 100) [ err e ↦ (s, some e) | ok ms ↦ mark_all ms s ]
  drain (some publish) s = elim (list_pending_outbox s 50) [
    | err e ↦ (s, some e)
    | ok ms ↦ publish_all publish 0 ms s none
  ]
