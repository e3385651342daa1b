-- ===== src/Order/World/Ensures.antt =====
-- What of the repository holds once a method of the order service (order/pkg/service) has succeeded, where
-- no other request comes between its calls.
use schick.Prelude.{
  ℕ, ◌+◌, ◌≡◌, refl, sym, subst, Bool, true, false, none, if◌then◌else◌, Result, ok, err,
}
use schick.Order.{Error}
use schick.Order.Repository.{Repository}
use schick.Order.World.Keeps.{Keeps}
use schick.Order.World.Holds.{HoldsOf, Yields}
use schick.Order.World.{
  World, Env, Task, pure, fail, attempt, as_value, continue, ◌>>=◌, access, accessed, on_error,
  or_undo,
}

pub record IsAlone (env : Env) : Type 0 where
  pub others : (n : ℕ) (r : Repository) → env.others n r ≡ r
  pub fails : (n : ℕ) → env.fails n ≡ none

abbrev pub Ensured : {A : Type 0} → (Repository → A → Type 0) → World × Result Error A → Type 0
Ensured Q (w, ok a) = Q w.repo a
Ensured Q (w, err e) = Unit

pub record Ensures {A : Type 0} (P : Repository → Type 0) (m : Task A) (Q : Repository → A → Type 0)
    : Type 0 where
  pub at : (w : World) → P w.repo → Ensured Q (m w)

-- What holds of the value where it is a success.
abbrev pub OnOk : {A : Type 0} → (Repository → A → Type 0) → Repository → Result Error A → Type 0
OnOk Q r (ok a) = Q r a
OnOk Q r (err e) = Unit

Ensured-kept :
    {A : Type 0} (P : Repository → Type 0) (x : World × Result Error A)
    → P x.0.repo
    → Ensured (λ r _. P r) x
Ensured-kept P (w, ok a) p = p
Ensured-kept P (w, err e) p = tt

pub OnOk-intro :
    {A : Type 0} (Q : Repository → A → Type 0) (r : Repository) (x : Result Error A)
    → ((a : A) → x ≡ ok a → Q r a)
    → OnOk Q r x
OnOk-intro Q r (ok a) h = h a refl
OnOk-intro Q r (err e) h = tt

abbrev pub Any : Repository → Type 0
Any r = Unit

module _ {A : Type 0} (P : Repository → Type 0) (Q : Repository → A → Type 0) where
  pub Ensures-pure : (a : A) → ((r : Repository) → P r → Q r a) → Ensures P (pure a) Q
  unfolding pure
  Ensures-pure a h = record { at = λ w p. h w.repo p }

  pub Ensures-fail : (e : Error) → Ensures P (fail e) Q
  unfolding fail
  Ensures-fail e = record { at = λ w p. tt }

  Ensured-value : (x : World × Result Error A) → Ensured Q x → Ensured (OnOk Q) (as_value x)
  Ensured-value (w, ok a) q = q
  Ensured-value (w, err e) q = tt

  pub Ensures-attempt : (m : Task A) → Ensures P m Q → Ensures P (attempt m) (OnOk Q)
  unfolding attempt
  Ensures-attempt m h = record { at = λ w p. Ensured-value (m w) (h.at w p) }

  pub Ensures-if_eq :
      (b : Bool) (m n : Task A)
      → (b ≡ true → Ensures P m Q)
      → (b ≡ false → Ensures P n Q)
      → Ensures P (if b then m else n) Q
  Ensures-if_eq true m n h k = h refl
  Ensures-if_eq false m n h k = k refl

  pub Ensures-if :
      (b : Bool) (m n : Task A) → Ensures P m Q → Ensures P n Q → Ensures P (if b then m else n) Q
  Ensures-if true m n h k = h
  Ensures-if false m n h k = k

module _ {A B : Type 0} (P : Repository → Type 0) (Q : Repository → B → Type 0) (m : Task A)
    (next : A → Task B) where
  Ensured-next :
      (Mid : Repository → A → Type 0) (x : World × Result Error A)
      → Ensured Mid x
      → ((a : A) → Ensures (λ r. Mid r a) (next a) Q)
      → Ensured Q (continue x next)
  Ensured-next Mid (w, ok a) h k = (k a).at w h
  Ensured-next Mid (w, err e) h k = tt

  pub Ensures-bind :
      (Mid : Repository → A → Type 0)
      → Ensures P m Mid
      → ((a : A) → Ensures (λ r. Mid r a) (next a) Q)
      → Ensures P (m >>= next) Q
  unfolding ◌>>=◌
  Ensures-bind Mid h k = record { at = λ w p. Ensured-next Mid (m w) (h.at w p) k }

  Ensured-Any : (x : World × Result Error A) → Ensured (λ r _. Any r) x
  Ensured-Any (w, ok a) = tt
  Ensured-Any (w, err e) = tt

  -- The first part is of no account.
  pub Ensures-skip : ((a : A) → Ensures Any (next a) Q) → Ensures P (m >>= next) Q
  Ensures-skip k = Ensures-bind (λ r _. Any r) (record { at = λ w p. Ensured-Any (m w) }) k

module _ (env : Env) (alone : IsAlone env) where
  pub access_alone :
      {A : Type 0} (call : Repository → Repository × Result Error A) (w : World)
      → access env call w ≡ accessed env none call (record w { tick = w.tick + 1 })
  unfolding access
  access_alone call w = rw (alone.fails w.tick, alone.others w.tick w.repo) refl

  Ensured-call :
      {A : Type 0} (Q : Repository → A → Type 0) (x : Repository × Result Error A) (w : World)
      → OnOk Q x.0 x.1
      → Ensured Q (let (r, a) = x in (record w { repo = r }, a))
  Ensured-call Q (r, ok a) w h = h
  Ensured-call Q (r, err e) w h = tt

  pub Ensures-access :
      {A : Type 0} (P : Repository → Type 0) (Q : Repository → A → Type 0)
      (call : Repository → Repository × Result Error A)
      → ((r : Repository) → P r → OnOk Q (call r).0 (call r).1)
      → Ensures P (access env call) Q
  Ensures-access P Q call h = record {
    at = λ w p.
        subst (Ensured Q) (sym (access_alone call w))
          (Ensured-call Q (call w.repo) (record w { tick = w.tick + 1 }) (h w.repo p));
  }

pub Ensures-of_Keeps :
    {A : Type 0} (P : Repository → Type 0) (m : Task A) → Keeps P m → Ensures P m (λ r _. P r)
Ensures-of_Keeps P m k = record { at = λ w p. Ensured-kept P (m w) (k.at w p) }

-- What is known of the value beside the repository.
pub Ensures-given :
    {A : Type 0} {V : Type 0} (P : Repository → Type 0) (m : Task A) (Q : Repository → A → Type 0)
    → (V → Ensures P m Q)
    → Ensures (λ r. P r × V) m Q
Ensures-given P m Q h = record { at = λ w p. (h p.1).at w p.0 }

Ensured-given :
    {A : Type 0} (P : Repository → Type 0) (V : A → Type 0) (x : World × Result Error A)
    → P x.0.repo
    → HoldsOf V x.1
    → Ensured (λ r a. P r × V a) x
Ensured-given P V (w, ok a) p v = (p, v)
Ensured-given P V (w, err e) p v = tt

pub Ensures-value :
    {A : Type 0} (P : Repository → Type 0) (V : A → Type 0) (m : Task A)
    → Keeps P m
    → Yields V m
    → Ensures P m (λ r a. P r × V a)
Ensures-value P V m k y = record { at = λ w p. Ensured-given P V (m w) (k.at w p) (y.at w) }

undone :
    {A : Type 0} (env : Env) (Q : Repository → A → Type 0) (undo : Task (Unit {0}))
    (x : Result Error A)
    → Ensures (λ r. OnOk Q r x) (on_error env undo x) Q
unfolding on_error
undone env Q undo (ok a) = Ensures-pure _ Q a (λ r h. h)
undone env Q undo (err e) = Ensures-skip Any Q undo _ (λ _. Ensures-fail Any Q e)

pub Ensures-or_undo :
    {A : Type 0} (env : Env) (P : Repository → Type 0) (Q : Repository → A → Type 0)
    → (undo : Task (Unit {0})) (m : Task A) → Ensures P m Q
    → Ensures P (or_undo env undo m) Q
unfolding or_undo
Ensures-or_undo env P Q undo m h =
    Ensures-bind P Q _ _ (OnOk Q) (Ensures-attempt P Q m h) (undone env Q undo)
