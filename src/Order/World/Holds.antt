-- ===== src/Order/World/Holds.antt =====
-- Accounts of the reservations that a method of the order service (order/pkg/service) has made and has
-- neither committed nor asked the stock service to release.
use schick.Prelude.{
  ◌≡◌, refl, sym, ap, ◌∙◌, subst, Bool, true, false, List, [], ◌∷◌, ◌++◌, Text, ◌==◌, if◌then◌else◌,
  Result, ok, err,
}
use schick.Order.{Error}
use schick.Order.World.{
  StockCall, reserved, refused, committed, released, World, Env, Task, pure, fail, lift, attempt,
  as_value, continue, ◌>>=◌, on_error, or_undo,
}

-- The first occurrence goes.
unfoldable pub without : Text → List Text → List Text
without id [] = []
without id (j ∷ js) = if j == id then js else j ∷ without id js

unfoldable pub held : List StockCall → List Text
held [] = []
held (reserved order_id items id ∷ cs) = id ∷ held cs
held (refused order_id items ∷ cs) = held cs
held (committed id ∷ cs) = without id (held cs)
held (released id ∷ cs) = without id (held cs)

-- A method that makes no call of the stock service.
pub record Quiet {A : Type 0} (m : Task A) : Type 0 where
  pub at : (w : World) → (m w).0.calls ≡ w.calls

-- A method that cannot fail, and makes no such call.
pub record Steady {A : Type 0} (m : Task A) : Type 0 where
  pub at : (w : World) → (v : World) × (a : A) × (m w ≡ (v, ok a)) × (v.calls ≡ w.calls)

abbrev pub HoldsOf : {A : Type 0} → (A → Type 0) → Result Error A → Type 0
HoldsOf P (ok a) = P a
HoldsOf P (err e) = Unit

-- Every value that a method returns satisfies P.
pub record Yields {A : Type 0} (P : A → Type 0) (m : Task A) : Type 0 where
  pub at : (w : World) → HoldsOf P (m w).1

-- A method starts with the reservations `before` on top of others. Where it succeeds with a it leaves a
-- list that `After a` allows on top of them, and where it fails it leaves the others alone.
abbrev pub Settled :
    {A : Type 0} → (A → List Text → Type 0) → List Text → World × Result Error A → Type 0
Settled After rest (w, ok a) = (l : List Text) × After a l × (held w.calls ≡ l ++ rest)
Settled After rest (w, err e) = held w.calls ≡ rest

pub record Spends {A : Type 0} (before : List Text) (m : Task A) (After : A → List Text → Type 0)
    : Type 0 where
  pub at : (w : World) (rest : List Text) → held w.calls ≡ before ++ rest → Settled After rest (m w)

abbrev pub Nothing : {A : Type 0} → A → List Text → Type 0
Nothing a l = l ≡ []

abbrev pub Just : {A : Type 0} → Text → (A → Type 0) → A → List Text → Type 0
Just id P a l = P a × (l ≡ id ∷ [])

module _ {A : Type 0} where
  pub Quiet-pure : (a : A) → Quiet (pure a)
  unfolding pure
  Quiet-pure a = record { at = λ w. refl }

  pub Quiet-fail : (e : Error) → Quiet (fail {A = A} e)
  unfolding fail
  Quiet-fail e = record { at = λ w. refl }

  pub Quiet-lift : (r : Result Error A) → Quiet (lift r)
  unfolding lift
  Quiet-lift r = record { at = λ w. refl }

  as_value_calls : (x : World × Result Error A) → (as_value x).0.calls ≡ x.0.calls
  as_value_calls (w, r) = refl

  pub Quiet-attempt : (m : Task A) → Quiet m → Quiet (attempt m)
  unfolding attempt
  Quiet-attempt m q = record { at = λ w. as_value_calls (m w) ∙ q.at w }

  pub Quiet-if : (b : Bool) (m n : Task A) → Quiet m → Quiet n → Quiet (if b then m else n)
  Quiet-if true m n p q = p
  Quiet-if false m n p q = q

  steady_attempt :
      (x : World × Result Error A) (w : World)
      → x.0.calls ≡ w.calls
      → (v : World) × (a : Result Error A) × (as_value x ≡ (v, ok a)) × (v.calls ≡ w.calls)
  steady_attempt (v, r) w h = (v, r, refl, h)

  pub Steady-attempt : (m : Task A) → Quiet m → Steady (attempt m)
  unfolding attempt
  Steady-attempt m q = record { at = λ w. steady_attempt (m w) w (q.at w) }

  pub Steady-pure : (a : A) → Steady (pure a)
  unfolding pure
  Steady-pure a = record { at = λ w. (w, a, refl, refl) }

  pub Spends-cast :
      {m : Task A} {After : A → List Text → Type 0} (before l : List Text)
      → l ≡ before
      → Spends before m After
      → Spends l m After
  Spends-cast {m} {After} before l same h = subst (λ l'. Spends l' m After) (sym same) h

  pub Spends-if :
      (b : Bool) (m n : Task A) {before : List Text} {After : A → List Text → Type 0}
      → Spends before m After
      → Spends before n After
      → Spends before (if b then m else n) After
  Spends-if true m n p q = p
  Spends-if false m n p q = q

  pub Spends-pure :
      (before : List Text) (a : A) (After : A → List Text → Type 0)
      → After a before
      → Spends before (pure a) After
  unfolding pure
  Spends-pure before a After h = record { at = λ w rest e. (before, h, e) }

  pub Spends-fail : (e : Error) (After : A → List Text → Type 0) → Spends [] (fail {A = A} e) After
  unfolding fail
  Spends-fail e After = record { at = λ w rest h. h }

  spends_quiet :
      (x : World × Result Error A) (w : World) (rest : List Text)
      → x.0.calls ≡ w.calls
      → held w.calls ≡ rest
      → Settled Nothing rest x
  spends_quiet (v, ok a) w rest q h = ([], refl, ap held q ∙ h)
  spends_quiet (v, err e) w rest q h = ap held q ∙ h

  pub Spends-Quiet : (m : Task A) → Quiet m → Spends [] m Nothing
  Spends-Quiet m q = record { at = λ w rest h. spends_quiet (m w) w rest (q.at w) h }

module _ {A B : Type 0} (m : Task A) (next : A → Task B) where
  Quiet-continue :
      (x : World × Result Error A) (w : World)
      → ((a : A) → Quiet (next a))
      → x.0.calls ≡ w.calls
      → (continue x next).0.calls ≡ w.calls
  Quiet-continue (v, ok a) w n h = (n a).at v ∙ h
  Quiet-continue (v, err e) w n h = h

  pub Quiet-bind : Quiet m → ((a : A) → Quiet (next a)) → Quiet (m >>= next)
  unfolding ◌>>=◌
  Quiet-bind q n = record { at = λ w. Quiet-continue (m w) w n (q.at w) }

  pub Steady-bind : Steady m → ((a : A) → Steady (next a)) → Steady (m >>= next)
  unfolding ◌>>=◌
  Steady-bind s n = record {
    at = λ w.
        let (v, a, e, h) = s.at w in
        let (u, b, f, k) = (n a).at v in (u, b, ap (λ x. continue x next) e ∙ f, k ∙ h);
  }

  yields_continue :
      (P : A → Type 0) (Q : B → Type 0) (x : World × Result Error A)
      → ((a : A) → P a → Yields Q (next a))
      → HoldsOf P x.1
      → HoldsOf Q (continue x next).1
  yields_continue P Q (v, ok a) n h = (n a h).at v
  yields_continue P Q (v, err e) n h = tt

  pub Yields-bind :
      (P : A → Type 0) (Q : B → Type 0)
      → Yields P m
      → ((a : A) → P a → Yields Q (next a))
      → Yields Q (m >>= next)
  unfolding ◌>>=◌
  Yields-bind P Q y n = record { at = λ w. yields_continue P Q (m w) n (y.at w) }

  spends_continue :
      (Mid : A → List Text → Type 0) (After : B → List Text → Type 0) (rest : List Text)
      (x : World × Result Error A)
      → ((a : A) (l : List Text) → Mid a l → Spends l (next a) After)
      → Settled Mid rest x
      → Settled After rest (continue x next)
  spends_continue Mid After rest (v, ok a) n (l, mid, h) = (n a l mid).at v rest h
  spends_continue Mid After rest (v, err e) n h = h

  pub Spends-bind :
      (before : List Text) (Mid : A → List Text → Type 0) (After : B → List Text → Type 0)
      → Spends before m Mid
      → ((a : A) (l : List Text) → Mid a l → Spends l (next a) After)
      → Spends before (m >>= next) After
  unfolding ◌>>=◌
  Spends-bind before Mid After s n = record {
    at = λ w rest h. spends_continue Mid After rest (m w) n (s.at w rest h);
  }

  pub Spends-after_steady :
      (before : List Text) (After : B → List Text → Type 0)
      → Steady m
      → ((a : A) → Spends before (next a) After)
      → Spends before (m >>= next) After
  unfolding ◌>>=◌
  Spends-after_steady before After s n = record {
    at = λ w rest h.
        let (v, a, e, k) = s.at w in
        subst (λ x. Settled After rest (continue x next)) (sym e) ((n a).at v rest (ap held k ∙ h));
  }

  pub Spends-after_quiet :
      (After : B → List Text → Type 0)
      → Quiet m
      → ((a : A) → Spends [] (next a) After)
      → Spends [] (m >>= next) After
  Spends-after_quiet After q n =
      Spends-bind [] Nothing After (Spends-Quiet m q)
        (λ a l e. subst (λ l'. Spends l' (next a) After) (sym e) (n a))

module _ {A : Type 0} where
  pub Yields-pure : (P : A → Type 0) (a : A) → P a → Yields P (pure a)
  unfolding pure
  Yields-pure P a h = record { at = λ w. h }

  pub Yields-lift : (P : A → Type 0) (r : Result Error A) → HoldsOf P r → Yields P (lift r)
  unfolding lift
  Yields-lift P r h = record { at = λ w. h }

  yields_any : (r : Result Error A) → HoldsOf (λ _. Unit {0}) r
  yields_any (ok a) = tt
  yields_any (err e) = tt

  pub Yields-any : (m : Task A) → Yields (λ _. Unit {0}) m
  Yields-any m = record { at = λ w. yields_any (m w).1 }

  pub Yields-fail : (P : A → Type 0) (e : Error) → Yields P (fail e)
  unfolding fail
  Yields-fail P e = record { at = λ w. tt }

  pub Yields-if :
      (P : A → Type 0) (b : Bool) (m n : Task A)
      → Yields P m
      → Yields P n
      → Yields P (if b then m else n)
  Yields-if P true m n y z = y
  Yields-if P false m n y z = z

module _ {A : Type 0} where
  yields_undo :
      (P : A → Type 0) (env : Env) (undo : Task (Unit {0})) (x : World × Result Error A)
      → HoldsOf P x.1
      → HoldsOf P (continue (as_value x) (on_error env undo)).1
  unfolding on_error
  yields_undo P env undo (v, ok a) h = (Yields-pure P a h).at v
  yields_undo P env undo (v, err e) h =
      (Yields-bind undo (λ _. fail e) (λ _. Unit {0}) P (Yields-any undo)
          (λ _ _. Yields-fail P e)).at
        v

  pub Yields-or_undo :
      (P : A → Type 0) (env : Env) (undo : Task (Unit {0})) (m : Task A)
      → Yields P m
      → Yields P (or_undo env undo m)
  unfolding or_undo ◌>>=◌ attempt
  Yields-or_undo P env undo m y = record { at = λ w. yields_undo P env undo (m w) (y.at w) }
