-- ===== src/Outbox/Draining.antt =====
-- What drains leave in an outbox (shared/pkg/outbox/outbox.go).
use schick.Prelude.{
  ℕ, zero, suc, ◌+◌, ◌*◌, ◌-◌, ◌≤◌, ◌≡◌, refl, sym, ap, ◌∙◌, List, [], ◌∷◌, ◌++◌, Option, none,
  some, Text, arith, length, length-append, All, Result-cases, inl, inr, ℤ,
}
use schick.Outbox.{
  Message, attempted, take, drop, Store, Publisher, unless_failed, mark_all, deliver, publish_all,
  drain,
}

take-append-drop {ℓ} : {A : Type ℓ} (n : ℕ) (xs : List A) → take n xs ++ drop n xs ≡ xs
unfolding take drop
take-append-drop zero xs = refl
take-append-drop (suc n) [] = refl
take-append-drop (suc n) (x ∷ xs) = ap (λ ys. x ∷ ys) (take-append-drop n xs)

append_assoc {ℓ} : {A : Type ℓ} (xs ys zs : List A) → (xs ++ ys) ++ zs ≡ xs ++ (ys ++ zs)
append_assoc [] ys zs = refl
append_assoc (x ∷ xs) ys zs = ap (λ ws. x ∷ ws) (append_assoc xs ys zs)

append_nil {ℓ} : {A : Type ℓ} (xs : List A) → xs ++ [] ≡ xs
append_nil [] = refl
append_nil (x ∷ xs) = ap (λ ws. x ∷ ws) (append_nil xs)

-- The messages that the broker refuses, with the attempt on them.
abbrev refused : {E : Type 0} → (E → Text) → Option E → Message → List Message → List Message
refused describe none m rest = rest
refused describe (some e) m rest = attempted (describe e) m ∷ rest

unfoldable pub kept : {E : Type 0} → (E → Text) → Publisher E → ℕ → List Message → List Message
kept describe publish n [] = []
kept describe publish n (m ∷ ms) =
    refused describe (publish n m.event.subject m.event.payload) m
      (kept describe publish (n + 1) ms)

length-refused :
    {E : Type 0} (describe : E → Text) (answer : Option E) (m : Message) (rest : List Message)
    → length (refused describe answer m rest) ≤ suc (length rest)
length-refused describe none m rest = omega arith
length-refused describe (some e) m rest = omega arith

length-kept :
    {E : Type 0} (describe : E → Text) (publish : Publisher E) (n : ℕ) (ms : List Message)
    → length (kept describe publish n ms) ≤ length ms
unfolding kept
length-kept describe publish n [] = omega arith
length-kept describe publish n (m ∷ ms) = omega (
  arith,
  length-refused describe (publish n m.event.subject m.event.payload) m
      (kept describe publish (n + 1) ms),
  length-kept describe publish (n + 1) ms,
)

length-drop : (n : ℕ) (ms : List Message) → length (drop n ms) ≤ length ms - n
unfolding drop
length-drop zero ms = omega arith
length-drop (suc n) [] = omega arith
length-drop (suc n) (m ∷ ms) = omega (arith, length-drop n ms)

length_zero : (ms : List Message) → length ms ≤ 0 → ms ≡ []
length_zero [] h = refl
length_zero (m ∷ ms) h = absurd (omega arith)

module _ {S : Type 0} {E : Type 0} (store : Store S E) (describe : E → Text) where
  open store use {IsValid, pending, listed, marked, recorded}

  deliver_lem :
      (answer : Option E) (xs ys : List Message) (m : Message) (s : S) (first : Option E)
      → IsValid s
      → pending s ≡ xs ++ (m ∷ ys)
      → IsValid (deliver store describe answer m s first).0
        × (pending (deliver store describe answer m s first).0
            ≡ (xs ++ refused describe answer m []) ++ ys)
  unfolding deliver
  deliver_lem none xs ys m s first v h =
      let (valid, rest, _) = marked s xs ys m v h in
      (valid, rest ∙ ap (λ zs. zs ++ ys) (sym (append_nil xs)))
  deliver_lem (some e) xs ys m s first v h =
      let (valid, rest) = recorded s xs ys m (describe e) v h in
      (valid, rest ∙ sym (append_assoc xs (attempted (describe e) m ∷ []) ys))

  refused-append :
      (answer : Option E) (xs ms ys : List Message) (m : Message)
      → (xs ++ refused describe answer m []) ++ (ms ++ ys)
        ≡ xs ++ (refused describe answer m ms ++ ys)
  refused-append none xs ms ys m = ap (λ zs. zs ++ (ms ++ ys)) (append_nil xs)
  refused-append (some e) xs ms ys m = append_assoc xs (attempted (describe e) m ∷ []) (ms ++ ys)

  publish_all_lem :
      (publish : Publisher E) (n : ℕ) (xs ms ys : List Message) (s : S) (first : Option E)
      → IsValid s
      → pending s ≡ xs ++ (ms ++ ys)
      → IsValid (publish_all store describe publish n ms s first).0
        × (pending (publish_all store describe publish n ms s first).0
            ≡ xs ++ (kept describe publish n ms ++ ys))
  unfolding publish_all kept
  publish_all_lem publish n xs [] ys s first v h = (v, h)
  publish_all_lem publish n xs (m ∷ ms) ys s first v h =
      let answer : Option E = publish n m.event.subject m.event.payload in
      let (valid, rest) = deliver_lem answer xs (ms ++ ys) m s first v h in
      let (t, e) = deliver store describe answer m s first in
      let (valid', rest') =
        publish_all_lem publish (n + 1) (xs ++ refused describe answer m []) ms ys t e valid rest in
      (valid', rest' ∙ refused-append answer xs (kept describe publish (n + 1) ms) ys m)

  -- A drain takes out of the outbox those of its first 50 rows that the broker accepts. What it refuses
  -- stays where it was, with one attempt more, and what lies behind stays as it was.
  pub pending-drain :
      (publish : Publisher E) (s : S)
      → IsValid s
      → IsValid (drain store describe (some publish) s).0
        × (pending (drain store describe (some publish) s).0
            ≡ kept describe publish 0 (take 50 (pending s)) ++ drop 50 (pending s))
  unfolding drain
  pending-drain publish s v =
      rw (drain, listed s 49)
        (publish_all_lem publish 0 [] (take 50 (pending s)) (drop 50 (pending s)) s none v
          (sym (take-append-drop 50 (pending s))))

  -- Drains one after the other, each with the broker's answers.
  unfoldable pub drains : List (Publisher E) → S → S
  drains [] s = s
  drains (publish ∷ later) s = drains later (drain store describe (some publish) s).0

  abbrev Accepts : Publisher E → Type 0
  Accepts publish = (n : ℕ) (subject payload : Text) → publish n subject payload ≡ none

  kept_none :
      (publish : Publisher E) (n : ℕ) (ms : List Message)
      → Accepts publish
      → kept describe publish n ms ≡ []
  unfolding kept
  kept_none publish n [] h = refl
  kept_none publish n (m ∷ ms) h =
      rw (h n m.event.subject m.event.payload) (kept_none publish (n + 1) ms h)

  drains_emptied :
      (later : List (Publisher E)) (s : S)
      → IsValid s
      → All Accepts later
      → length (pending s) ≤ 50 * length later
      → pending (drains later s) ≡ []
  unfolding drains
  drains_emptied [] s v a h = length_zero (pending s) (omega arith)
  drains_emptied (publish ∷ later) s v (a, more) h =
      let (valid, rest) = pending-drain publish s v in
      let left = rest ∙ ap (λ zs. zs ++ drop 50 (pending s)) (kept_none publish 0 _ a) in
      drains_emptied later (drain store describe (some publish) s).0 valid more
        (omega (arith, ap length left, length-drop 50 (pending s)))

  -- After any outage, once the broker takes every event again, the outbox is empty after as many drains
  -- as its rows fill batches of 50.
  pub drains_empty :
      (outage recovered : List (Publisher E)) (s : S)
      → IsValid s
      → All Accepts recovered
      → length (pending s) ≤ 50 * length recovered
      → pending (drains (outage ++ recovered) s) ≡ []
  unfolding drains
  drains_empty [] recovered s v a h = drains_emptied recovered s v a h
  drains_empty (publish ∷ outage) recovered s v a h =
      let (valid, rest) = pending-drain publish s v in
      drains_empty outage recovered (drain store describe (some publish) s).0 valid a (
        omega (
          arith,
          ap length rest,
          length-append (kept describe publish 0 (take 50 (pending s))) (drop 50 (pending s)),
          length-kept describe publish 0 (take 50 (pending s)),
          ap length (take-append-drop 50 (pending s)),
          length-append (take 50 (pending s)) (drop 50 (pending s)),
        ))

-- What both ways to change a row keep, a drain keeps.
module _ {S : Type 0} {E : Type 0} (store : Store S E) (describe : E → Text) (P : S → Type 0)
    (marking : (s : S) (id : ℤ) → P s → P (store.mark_outbox_published s id).0)
    (recording : (s : S) (id : ℤ) (message : Text)
      → P s
      → P (store.record_outbox_attempt s id message).0) where
  unless_failed_keeps :
      (x : S × Option E) (rest : S → S × Option E)
      → P x.0
      → ((s : S) → P s → P (rest s).0)
      → P (unless_failed x rest).0
  unless_failed_keeps (s, none) rest p k = k s p
  unless_failed_keeps (s, some e) rest p k = p

  mark_all_keeps : (ms : List Message) (s : S) → P s → P (mark_all store describe ms s).0
  unfolding mark_all
  mark_all_keeps [] s p = p
  mark_all_keeps (m ∷ ms) s p = unless_failed_keeps _ _ (marking s m.id p) (mark_all_keeps ms)

  deliver_keeps :
      (answer : Option E) (m : Message) (s : S) (first : Option E)
      → P s
      → P (deliver store describe answer m s first).0
  unfolding deliver
  deliver_keeps none m s first p = marking s m.id p
  deliver_keeps (some e) m s first p = recording s m.id (describe e) p

  publish_all_keeps :
      (publish : Publisher E) (n : ℕ) (ms : List Message) (s : S) (first : Option E)
      → P s
      → P (publish_all store describe publish n ms s first).0
  unfolding publish_all
  publish_all_keeps publish n [] s first p = p
  publish_all_keeps publish n (m ∷ ms) s first p =
      publish_all_keeps publish (n + 1) ms _ _ (deliver_keeps _ m s first p)

  pub drain_keeps :
      (publish : Option (Publisher E)) (s : S) → P s → P (drain store describe publish s).0
  unfolding drain
  drain_keeps none s p = elim (Result-cases (store.list_pending_outbox s 100)) [
    | inl (ms, e) ↦ rw (drain, e) (mark_all_keeps ms s p)
    | inr (failure, e) ↦ rw (drain, e) p
  ]
  drain_keeps (some publish) s p = elim (Result-cases (store.list_pending_outbox s 50)) [
    | inl (ms, e) ↦ rw (drain, e) (publish_all_keeps publish 0 ms s none p)
    | inr (failure, e) ↦ rw (drain, e) p
  ]
