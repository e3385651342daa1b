-- ===== src/Order/Service/Placing/Repeats.antt =====
-- CreateOrder of order/pkg/service/service.go called again under the idempotency key of a call that
-- succeeded, where no other request comes between.
use schick.Prelude.{
  ℕ, ◌+◌, ◌≡◌, refl, sym, ap, ◌∙◌, subst, true, false, not, List, [], ◌∷◌, Option, none, some, Text,
  ◌==◌, eq_iff, eq_refl, is_empty, trim, arith, if_rule_eq, Result, ok, err, lookup, lookup-insert,
}
use schick.Prelude.Strings.Trim.{trim_idem}
use schick.Order.{Error, idempotency_conflict, Order}
use schick.Order.Repository.{
  Repository, IdempotencyRecord, IdempotencyEntry, idem_key, claim_key, claim_with, written,
  write_order, save_with_outbox, find_by_idempotency_key, get, enqueue, with_rows,
  mark_outbox_published, record_outbox_attempt,
}
use schick.Order.Repository.Updates.{lookup-write_order}
use schick.Order.World.{Env, World, pure, fail, attempt, ◌>>=◌, is_not_found}
use schick.Order.World.Keeps.{Keeps, IsPolite, Keeps-bind, Keeps-attempt, Keeps-access, Keeps-pure}
use schick.Order.World.Ensures.{
  IsAlone, Ensured, Ensures, OnOk, Any, Ensures-pure, Ensures-fail, Ensures-attempt, Ensures-if,
  Ensures-if_eq, OnOk-intro, Ensures-bind, Ensures-skip, Ensures-access, Ensures-of_Keeps,
  access_alone,
}
use schick.Order.Service.{stored_order, drained, try_drain_outbox}
use schick.Order.Service.Fingerprints.{CreateOrderInput, hash_create_order_input}
use schick.Order.Service.Placing.{
  idem_record, load_idempotent_order, of_replay, replayed, of_second_replay, save_failed,
  after_save, save_new_order, place_order, unless_replayed, create_order,
}
use schick.Order.Repository.Rows.{order_outbox}
use schick.Order.Service.Closing.Left.{with_rows_orders}
use schick.Outbox.{Event}
use schick.Outbox.Draining.{drain_keeps}
use schick.Outbox.Memory.{Entry}

-- The key leads to the order, under the hash.
pub record Found (c key hash : Text) (r : Repository) (o : Order) : Type 0 where
  pub rec : IdempotencyRecord
  pub found : find_by_idempotency_key r c key ≡ ok rec
  pub same : (rec.request_hash == hash) ≡ true
  pub there : get r rec.order_id ≡ ok o

module _ (env : Env) (alone : IsAlone env) (c key hash : Text) where
  abbrev IsFound : IdempotencyRecord → Repository → Type 0
  IsFound rec r = find_by_idempotency_key r c key ≡ ok rec

  abbrev IsSame : Repository → IdempotencyRecord → Type 0
  IsSame r rec = IsFound rec r × ((rec.request_hash == hash) ≡ true)

  load_Found :
      (P : Repository → Type 0)
      → Ensures P (load_idempotent_order env c key hash) (Found c key hash)
  unfolding load_idempotent_order stored_order
  load_Found P =
      Ensures-bind P (Found c key hash) _ _ (λ r rec. IsFound rec r)
        (Ensures-access env alone P _ _ (λ r _.
          OnOk-intro (λ s rec. IsFound rec s) r (find_by_idempotency_key r c key) (λ rec e. e)))
        (λ rec.
          Ensures-bind (IsFound rec) (Found c key hash) _ _ IsSame
            (Ensures-if_eq (IsFound rec) IsSame (not (rec.request_hash == hash)) _ _
              (λ _. Ensures-fail _ _ _)
              (λ e. Ensures-pure (IsFound rec) IsSame rec (λ r h. (h, ground arith))))
            (λ again.
              Ensures-access env alone (λ r. IsSame r again) (Found c key hash) _
                (λ r (f, s).
                  OnOk-intro (Found c key hash) r (get r again.order_id)
                    (λ o e. record { rec = again; found = f; same = s; there = e }))))

  -- And it answers where the key leads to the order.
  load_again :
      (w : World) (o : Order)
      → Found c key hash w.repo o
      → load_idempotent_order env c key hash w ≡ (record w { tick = w.tick + 1 + 1 }, ok o)
  unfolding load_idempotent_order stored_order ◌>>=◌ fail pure
  load_again w o h =
      rw (access_alone env alone _ w, h.found, h.same, access_alone env alone _ _, h.there) refl

  abbrev Answers : Repository → Option Order → Type 0
  Answers r none = Unit
  Answers r (some o) = Found c key hash r o

  of_replay-Answers :
      (x : Result Error Order)
      → Ensures (λ r. OnOk (Found c key hash) r x) (of_replay env x) Answers
  of_replay-Answers (ok o) = Ensures-pure _ Answers (some o) (λ r h. h)
  of_replay-Answers (err e) =
      Ensures-if _ Answers (is_not_found e) _ _ (Ensures-pure _ Answers none (λ r h. tt))
        (Ensures-fail _ Answers e)

  attempt-Found :
      Ensures Any (attempt (load_idempotent_order env c key hash)) (OnOk (Found c key hash))
  attempt-Found = Ensures-attempt Any (Found c key hash) _ (load_Found Any)

  second_Found :
      (e : Error) (x : Result Error Order)
      → Ensures (λ r. OnOk (Found c key hash) r x) (of_second_replay env e x) (Found c key hash)
  second_Found e (ok o) = Ensures-pure _ _ o (λ r h. h)
  second_Found e (err idempotency_conflict) = Ensures-fail _ _ _
  second_Found e (err _) = Ensures-fail _ _ e

-- A drain leaves orders and keys alone.
same_maps :
    (r s : Repository)
    → s.orders ≡ r.orders
    → s.idempotency ≡ r.idempotency
    → (c key hash : Text) (o : Order) → Found c key hash r o
    → Found c key hash s o
unfolding find_by_idempotency_key get
same_maps r s orders keys c key hash o h = record {
  rec = h.rec;
  found = rw keys h.found;
  same = h.same;
  there = rw orders h.there;
}

enqueue_keys :
    (events : List Event) (now : ℕ) (r : Repository)
    → (enqueue events now r).idempotency ≡ r.idempotency
unfolding enqueue
enqueue_keys [] now r = refl
enqueue_keys (event ∷ events) now r = enqueue_keys events now _

-- A customer id and a key that are used as they are.
pub record IsKey (c key : Text) : Type 0 where
  pub customer : trim c ≡ c
  pub trimmed : trim key ≡ key
  pub customer_there : is_empty c ≡ false
  pub key_there : is_empty key ≡ false

module _ (c key hash : Text) (k : IsKey c key) (order : Order) where
  abbrev entry : IdempotencyEntry
  entry = record { order_id = order.id; request_hash = hash }

  find-written :
      (r : Repository) (e : IdempotencyEntry) (events : List Event) (now : ℕ)
      → lookup (idem_key c key) r.idempotency ≡ some e
      → find_by_idempotency_key (write_order order.id order events now r) c key
        ≡ ok (record {
          key = key;
          customer_id = c;
          order_id = e.order_id;
          request_hash = e.request_hash;
        })
  unfolding find_by_idempotency_key write_order
  find-written r e events now h =
      rw (k.customer, k.trimmed, k.customer_there, k.key_there, enqueue_keys events now _, h) refl

  written_Found :
      (r : Repository) (e : IdempotencyEntry) (events : List Event) (now : ℕ)
      → lookup (idem_key c key) r.idempotency ≡ some e
      → (e.request_hash == hash) ≡ true
      → (e.order_id == order.id) ≡ true
      → Found c key hash (write_order order.id order events now r) order
  unfolding get
  written_Found r e events now h same mine = record {
    rec = record {
      key = key;
      customer_id = c;
      order_id = e.order_id;
      request_hash = e.request_hash;
    };
    found = find-written r e events now h;
    same = same;
    there =
        rw
          (
            (eq_iff e.order_id order.id).0 mine,
            get,
            lookup-write_order order.id order events now r order.id,
            eq_refl order.id,
          )
          refl;
  }

  abbrev idem : IdempotencyRecord
  idem = record { key = key; customer_id = c; order_id = order.id; request_hash = hash }

  Written : Repository × Result Error (Unit {0}) → Type 0
  Written x = OnOk (λ r _. Found c key hash r order) x.0 x.1

  claimed_Found :
      (r : Repository) (events : List Event) (now : ℕ) (there : Option IdempotencyEntry)
      → lookup (idem_key c key) r.idempotency ≡ there
      → Written (written r order events now (claim_with order idem r there))
  unfolding Written
  claimed_Found r events now none e =
      written_Found _ entry events now
        (rw
          (
            lookup-insert (idem_key c key) (idem_key c key) entry r.idempotency,
            eq_refl (idem_key c key),
          )
          refl)
        (eq_refl hash) (eq_refl order.id)
  claimed_Found r events now (some old) e =
      if_rule_eq (λ x. Written (written r order events now x)) (not (old.request_hash == hash))
        (λ _. tt)
        (λ same.
          if_rule_eq (λ x. Written (written r order events now x)) (not (old.order_id == order.id))
            (λ _. tt) (λ mine. written_Found r old events now e (ground arith) (ground arith)))

  save_Found :
      (r : Repository) (input : CreateOrderInput) (events : List Event) (now : ℕ)
      → input.customer_id ≡ c
      → OnOk
          (λ s _. Found c key hash s order)
          (save_with_outbox r order (idem_record key input hash order) events now).0
          (save_with_outbox r order (idem_record key input hash order) events now).1
  unfolding save_with_outbox claim_key Written
  save_Found r input events now same =
      rw (k.key_there, same, k.key_there) (claimed_Found r events now _ refl)

with_rows_keys :
    (r : Repository) (rows : Option (List Entry)) → (with_rows r rows).0.idempotency ≡ r.idempotency
with_rows_keys r none = refl
with_rows_keys r (some es) = refl

module _ (env : Env) (alone : IsAlone env) (input : CreateOrderInput) (key hash : Text)
    (k : IsKey input.customer_id key) where
  abbrev FoundBy : Repository → Order → Type 0
  FoundBy r o = Found input.customer_id key hash r o

  drained_Found :
      (tick : ℕ) (r : Repository) (o : Order) → FoundBy r o → FoundBy (drained env tick r).0 o
  unfolding mark_outbox_published record_outbox_attempt
  drained_Found tick r o h =
      drain_keeps order_outbox env.describe (λ s. FoundBy s o)
        (λ s n f. same_maps s _ (with_rows_orders s _) (with_rows_keys s _) _ _ _ o f)
        (λ s n m f. same_maps s _ (with_rows_orders s _) (with_rows_keys s _) _ _ _ o f) _ r h

  polite : (o : Order) → IsPolite env (λ r. FoundBy r o)
  polite o n r h = subst (λ s. FoundBy s o) (sym (alone.others n r)) h

  try_drain_Found : (o : Order) → Keeps (λ r. FoundBy r o) (try_drain_outbox env)
  unfolding try_drain_outbox
  try_drain_Found o = record {
    at = λ w.
        (Keeps-bind _ _
            (Keeps-attempt _ (Keeps-access env _ (polite o) (λ r h. drained_Found w.tick r o h)))
            (λ _. Keeps-pure tt)).at
          w;
  }

  save_failed_Found :
      (id : Text) (e : Error) → Ensures Any (save_failed env input key hash id e) FoundBy
  unfolding save_failed
  save_failed_Found id e = Ensures-skip Any FoundBy _ _ (λ _.
      Ensures-if Any FoundBy _ _ _
        (Ensures-bind Any FoundBy _ _ (OnOk FoundBy)
          (attempt-Found env alone input.customer_id key hash)
          (second_Found env alone input.customer_id key hash e))
        (Ensures-fail Any FoundBy e))

  after_save_Found :
      (id : Text) (o : Order) (x : Result Error (Unit {0}))
      → Ensures (λ r. OnOk (λ s _. FoundBy s o) r x) (after_save env input key hash id o x) FoundBy
  after_save_Found id o (ok _) =
      Ensures-bind (λ r. FoundBy r o) FoundBy _ _ (λ r _. FoundBy r o)
        (Ensures-of_Keeps (λ r. FoundBy r o) _ (try_drain_Found o))
        (λ _. Ensures-pure (λ r. FoundBy r o) FoundBy o (λ r h. h))
  after_save_Found id o (err e) = save_failed_Found id e

  save_new_Found :
      (id : Text) (built : Order × List Event)
      → Ensures Any (save_new_order env input key hash id built) FoundBy
  unfolding save_new_order
  save_new_Found id (o, events) = Ensures-skip Any FoundBy _ _ (λ now.
      Ensures-bind Any FoundBy _ _ (OnOk (λ r _. FoundBy r o))
        (Ensures-attempt Any (λ r _. FoundBy r o) _
          (Ensures-access env alone Any (λ r _. FoundBy r o) _
            (λ r _. save_Found input.customer_id key hash k o r input events now refl)))
        (after_save_Found id o))

  place_order_Found : Ensures Any (place_order env input key hash) FoundBy
  unfolding place_order
  place_order_Found = Ensures-skip Any FoundBy _ _ (λ priced.
      Ensures-skip Any FoundBy _ _ (λ order_id.
        Ensures-skip Any FoundBy _ _ (λ id. Ensures-skip Any FoundBy _ _ (save_new_Found id))))

  unless_replayed_Found :
      (found : Option Order)
      → Ensures
          (λ r. Answers env alone input.customer_id key hash r found)
          (unless_replayed env (place_order env input key hash) found)
          FoundBy
  unless_replayed_Found none = place_order_Found
  unless_replayed_Found (some o) = Ensures-pure _ FoundBy o (λ r h. h)

  created_Found :
      Ensures Any
        (replayed env input key hash >>= unless_replayed env (place_order env input key hash))
        FoundBy
  unfolding replayed
  created_Found =
      Ensures-bind Any FoundBy _ _ (Answers env alone input.customer_id key hash)
        (Ensures-if Any (Answers env alone input.customer_id key hash) _ _ _
          (Ensures-bind Any (Answers env alone input.customer_id key hash) _ _ (OnOk FoundBy)
            (attempt-Found env alone input.customer_id key hash)
            (of_replay-Answers env alone input.customer_id key hash))
          (Ensures-pure Any (Answers env alone input.customer_id key hash) none (λ r _. tt)))
        unless_replayed_Found

replayed_again :
    (env : Env) (alone : IsAlone env) (input : CreateOrderInput) (key hash : Text) (v : World)
    (o : Order)
    → is_empty key ≡ false
    → Found input.customer_id key hash v.repo o
    → (replayed env input key hash >>= unless_replayed env (place_order env input key hash)) v
      ≡ (record v { tick = v.tick + 1 + 1 }, ok o)
unfolding replayed ◌>>=◌ attempt pure
replayed_again env alone input key hash v o keyed h =
    rw (keyed, load_again env alone input.customer_id key hash v o h) refl

-- CreateOrder asked for again with the same input after one that succeeded returns the same order, asks
-- nothing of the stock service and changes nothing, where no other request comes between and no call of
-- the repository fails, and the input has a customer id with no space around it and an idempotency key
-- that is not blank.
pub create_order_again :
    (env : Env) (input : CreateOrderInput) (w v : World) (o : Order)
    → IsAlone env
    → trim input.customer_id ≡ input.customer_id
    → is_empty input.customer_id ≡ false
    → is_empty (trim input.idempotency_key) ≡ false
    → create_order env input w ≡ (v, ok o)
    → create_order env input v ≡ (record v { tick = v.tick + 2 }, ok o)
unfolding create_order
create_order_again env input w v o alone customer there keyed e =
    let key = trim input.idempotency_key in
    let hash = hash_create_order_input env input in
    let k : IsKey input.customer_id key = record {
      customer = customer;
      trimmed = trim_idem input.idempotency_key;
      customer_there = there;
      key_there = keyed;
    } in
    let found : Found input.customer_id key hash v.repo o =
      subst (Ensured (Found input.customer_id key hash)) e
        ((created_Found env alone input key hash k).at w tt) in
    replayed_again env alone input key hash v o keyed found
    ∙ ap (λ (t : ℕ). (record v { tick = t }, ok o)) (omega arith)
