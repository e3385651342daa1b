-- ===== src/Outbox/Memory.antt =====
-- The outbox rows of a memory repository (order/pkg/infra/memory/repository.go): a map from ids to rows.
-- Go ranges over a map in an order of its choice; here it is the order of the list.
use schick.Prelude.{
  ℕ, zero, suc, ◌≡◌, ◌≢◌, ◌⊎◌, refl, sym, ap, subst, ℤ, pos, Bool, true, false, List, [], ◌∷◌, ◌++◌,
  Option, none, some, Text, codes, arith, if◌then◌else◌, eqb_ℤ, eqb_ℤ_iff, All, length,
  length-append, Bool-cases, inl, inr,
}
use schick.Outbox.{Event, Message, attempted, take}

pub record Entry : Type 0 where
  pub msg : Message
  pub published : Bool

abbrev pub fresh_message : ℤ → Event → ℕ → Message
fresh_message n event now = record {
  id = n;
  event = event;
  created_at = now;
  attempts = pos 0;
  last_error = codes "";
}

unfoldable pub put_entry : Entry → List Entry → List Entry
put_entry e [] = e ∷ []
put_entry e (f ∷ fs) = if eqb_ℤ f.msg.id e.msg.id then e ∷ fs else f ∷ put_entry e fs

-- The rows that are not published, whole: the loop of ListPendingOutbox with no limit.
unfoldable pub pending_of : List Entry → List Message
pending_of [] = []
pending_of (e ∷ es) = if e.published then pending_of es else e.msg ∷ pending_of es

-- The loop of ListPendingOutbox, which ends once `limit` rows are there.
unfoldable pub list_until : ℕ → List Entry → List Message
list_until zero es = []
list_until (suc n) [] = []
list_until (suc n) (e ∷ es) =
    let skipped = list_until (suc n) es in
    let kept = e.msg ∷ list_until n es in if e.published then skipped else kept

-- The row of an id, changed; `none` where no row has it.
unfoldable pub change_entry : ℤ → (Entry → Entry) → List Entry → Option (List Entry)
change_entry id change [] = none
change_entry id change (e ∷ es) =
    let rest : Option (List Entry) = elim (change_entry id change es) [
      | none ↦ none
      | some fs ↦ some (e ∷ fs)
    ] in
    if eqb_ℤ e.msg.id id then some (change e ∷ es) else rest

-- MarkOutboxPublished on its row, and RecordOutboxAttempt.
abbrev pub as_published : Entry → Entry
as_published e = record { msg = record e.msg { last_error = codes "" }; published = true }

abbrev pub as_attempted : Text → Entry → Entry
as_attempted message e = record e { msg = attempted message e.msg }

pub list_until_lem : (n : ℕ) (es : List Entry) → list_until n es ≡ take n (pending_of es)
unfolding list_until pending_of take
list_until_lem zero es = refl
list_until_lem (suc n) [] = refl
list_until_lem (suc n) (e ∷ es) = ground (arith, list_until_lem (suc n) es, list_until_lem n es)

-- No two rows have one id.
abbrev pub IsKeyed : List Entry → Type 0
IsKeyed [] = Unit
IsKeyed (e ∷ es) = All (λ f. f.msg.id ≢ e.msg.id) es × IsKeyed es

-- Every row with the id of a pending row of `es` has it among `es`.
All-pending :
    (id : ℤ) (es : List Entry) → All (λ f. f.msg.id ≢ id) es → All (λ m. m.id ≢ id) (pending_of es)
unfolding pending_of
All-pending id [] h = tt
All-pending id (e ∷ es) (h, hs) = elim (Bool-cases e.published) [
  | inl p ↦ rw p (All-pending id es hs)
  | inr p ↦ rw p (h, All-pending id es hs)
]

abbrev pub waiting : Message → Entry
waiting m = record { msg = m; published = false }

All-mid :
    (id : ℤ) (xs ys : List Message) (m : Message)
    → All (λ n. n.id ≢ id) (xs ++ (m ∷ ys))
    → m.id ≢ id
All-mid id [] ys m h = h.0
All-mid id (x ∷ xs) ys m h = All-mid id xs ys m h.1

nil_or_cons :
    (xs ys : List Message) (m n : Message) (ms : List Message)
    → (n ∷ ms) ≡ xs ++ (m ∷ ys)
    → ((xs ≡ []) × (n ≡ m) × (ms ≡ ys))
      ⊎ ((zs : List Message) × (xs ≡ n ∷ zs) × (ms ≡ zs ++ (m ∷ ys)))
nil_or_cons [] ys m n ms h = inl (refl, cc, cc)
nil_or_cons (x ∷ zs) ys m n ms h = inr (zs, ap (λ y. y ∷ zs) (first x zs h), tail x zs h)
  where
    first : (x : Message) (zs : List Message) → (n ∷ ms) ≡ x ∷ (zs ++ (m ∷ ys)) → x ≡ n
    first x zs h = cc

    tail : (x : Message) (zs : List Message) → (n ∷ ms) ≡ x ∷ (zs ++ (m ∷ ys)) → ms ≡ zs ++ (m ∷ ys)
    tail x zs h = cc

module _ (change : Entry → Entry) (keeps : (e : Entry) → (change e).msg.id ≡ e.msg.id) where
  -- What changes is one row, and no id.
  pub record Changed (m : Message) (xs ys : List Message) (es fs : List Entry) : Type 0 where
    pub found : change_entry m.id change es ≡ some fs
    pub keyed : IsKeyed fs
    pub others : (k : ℤ) → All (λ f. f.msg.id ≢ k) es → All (λ f. f.msg.id ≢ k) fs
    pub rest : pending_of fs ≡ xs ++ (pending_of (change (waiting m) ∷ []) ++ ys)

  Changed-here :
      (m : Message) (ys : List Message) (e : Entry) (es : List Entry)
      → IsKeyed (e ∷ es)
      → e ≡ waiting m
      → pending_of es ≡ ys
      → Changed m [] ys (e ∷ es) (change e ∷ es)
  unfolding change_entry pending_of
  Changed-here m ys e es v same h = record {
    found = ground (arith, eqb_ℤ_iff e.msg.id m.id, same);
    keyed = (rw (keeps e) v.0, v.1);
    others = λ k (a, more). (rw (keeps e) a, more);
    rest = elim (Bool-cases (change e).published) [
      | inl p ↦ rw (p, ← same, p) h
      | inr p ↦ rw (p, ← same, p) (ap (λ ms. (change e).msg ∷ ms) h)
    ];
  }

  Changed-later :
      (m : Message) (xs ys : List Message) (e : Entry) (es fs : List Entry)
      → All (λ f. f.msg.id ≢ e.msg.id) es
      → e.msg.id ≢ m.id
      → Changed m xs ys es fs
      → (ms : List Message)
      → pending_of (e ∷ fs) ≡ ms ++ (pending_of (change (waiting m) ∷ []) ++ ys)
      → Changed m ms ys (e ∷ es) (e ∷ fs)
  unfolding change_entry
  Changed-later m xs ys e es fs v differs c ms h = record {
    found = ground (arith, eqb_ℤ_iff e.msg.id m.id, c.found);
    keyed = (c.others e.msg.id v, c.keyed);
    others = λ k (a, more). (a, c.others k more);
    rest = h;
  }

  pub change_entry_lem :
      (m : Message) (xs ys : List Message) (es : List Entry)
      → IsKeyed es
      → pending_of es ≡ xs ++ (m ∷ ys)
      → (fs : List Entry) × Changed m xs ys es fs
  unfolding pending_of
  change_entry_lem m xs ys [] v h = absurd (omega (arith, ap length h, length-append xs (m ∷ ys)))
  change_entry_lem m xs ys (e ∷ es) v h = elim (Bool-cases e.published) [
    | inl p ↦
        let here : pending_of es ≡ xs ++ (m ∷ ys) = rw p at h in
        let (fs, c) = change_entry_lem m xs ys es v.1 here in
        (
          e ∷ fs,
          Changed-later m xs ys e es fs v.0
              (λ q.
                All-mid e.msg.id xs ys m
                  (subst (All (λ n. n.id ≢ e.msg.id)) here (All-pending e.msg.id es v.0)) (sym q))
              c xs (rw p c.rest),
        )
    | inr p ↦
        let all : (e.msg ∷ pending_of es) ≡ xs ++ (m ∷ ys) = rw p at h in
        elim (nil_or_cons xs ys m e.msg (pending_of es) all) [
          | inl (z, same, here) ↦ (
            change e ∷ es,
            subst (λ zs. Changed m zs ys (e ∷ es) (change e ∷ es)) (sym z)
                (Changed-here m ys e es v (ground (arith, same, p)) here),
          )
          | inr (zs, z, here) ↦
              let (fs, c) = change_entry_lem m zs ys es v.1 here in
              (
                e ∷ fs,
                Changed-later m zs ys e es fs v.0
                    (λ q.
                      All-mid e.msg.id zs ys m
                        (subst (All (λ n. n.id ≢ e.msg.id)) here (All-pending e.msg.id es v.0))
                        (sym q))
                    c xs (rw (p, z) (ap (λ ms. e.msg ∷ ms) c.rest)),
              )
        ]
  ]
