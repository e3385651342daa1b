-- ===== src/Order/World/Keeps.antt =====
-- What a method of the order service (order/pkg/service) cannot make false of the repository, whether it
-- succeeds or fails, with one rule for each way to build a method.
use schick.Prelude.{
  Bool, true, false, List, Option, none, some, Text, if◌then◌else◌, Result, ok, err,
}
use schick.Prelude.{ℕ}
use schick.Order.{Error}
use schick.Order.Repository.{Repository}
use schick.Order.World.{
  StockItem, World, Env, Task, pure, fail, lift, attempt, as_value, continue, ◌>>=◌, require_task,
  read_clock, access, accessed, reserve, logged, commit_reservation, release_reservation, let_go,
  on_error, or_undo,
}

pub record Keeps {A : Type 0} (P : Repository → Type 0) (m : Task A) : Type 0 where
  pub at : (w : World) → P w.repo → P (m w).0.repo

-- What other requests do keeps it too.
abbrev pub IsPolite : Env → (Repository → Type 0) → Type 0
IsPolite env P = (n : ℕ) (r : Repository) → P r → P (env.others n r)

kept_value :
    {A : Type 0} (P : Repository → Type 0) (x : World × Result Error A)
    → P x.0.repo
    → P (as_value x).0.repo
kept_value P (w, r) p = p

kept_reserve :
    (env : Env) (P : Repository → Type 0) (order_id : Text) (items : List StockItem)
    (answer : Result Error Text) (w : World)
    → P w.repo
    → P (logged env order_id items answer w).0.repo
kept_reserve env P order_id items (ok id) w p = p
kept_reserve env P order_id items (err e) w p = p

kept_require :
    (P : Repository → Type 0) (failure : Option Error) (w : World)
    → P w.repo
    → P (require_task failure w).0.repo
unfolding require_task
kept_require P none w p = p
kept_require P (some e) w p = p

module _ {A : Type 0} {P : Repository → Type 0} where
  pub Keeps-pure : (a : A) → Keeps P (pure a)
  unfolding pure
  Keeps-pure a = record { at = λ w p. p }

  pub Keeps-fail : (e : Error) → Keeps P (fail {A = A} e)
  unfolding fail
  Keeps-fail e = record { at = λ w p. p }

  pub Keeps-lift : (r : Result Error A) → Keeps P (lift r)
  unfolding lift
  Keeps-lift r = record { at = λ w p. p }

  pub Keeps-attempt : (m : Task A) → Keeps P m → Keeps P (attempt m)
  unfolding attempt
  Keeps-attempt m k = record { at = λ w p. kept_value P (m w) (k.at w p) }

  pub Keeps-if : (b : Bool) (m n : Task A) → Keeps P m → Keeps P n → Keeps P (if b then m else n)
  Keeps-if true m n k l = k
  Keeps-if false m n k l = l

module _ {A B : Type 0} {P : Repository → Type 0} (m : Task A) (next : A → Task B) where
  kept_next :
      (x : World × Result Error A)
      → ((a : A) → Keeps P (next a))
      → P x.0.repo
      → P (continue x next).0.repo
  kept_next (w, ok a) l p = (l a).at w p
  kept_next (w, err e) l p = p

  pub Keeps-bind : Keeps P m → ((a : A) → Keeps P (next a)) → Keeps P (m >>= next)
  unfolding ◌>>=◌
  Keeps-bind k l = record { at = λ w p. kept_next (m w) l (k.at w p) }

module _ (env : Env) {P : Repository → Type 0} where
  pub Keeps-read_clock : Keeps P (read_clock env)
  unfolding read_clock
  Keeps-read_clock = record { at = λ w p. p }

  kept_access :
      {A : Type 0} (stop : Option Error) (call : Repository → Repository × Result Error A)
      (w : World)
      → ((r : Repository) → P r → P (call r).0)
      → P w.repo
      → P (accessed env stop call w).0.repo
  kept_access none call w k p = k w.repo p
  kept_access (some e) call w k p = p

  pub Keeps-access :
      {A : Type 0} (call : Repository → Repository × Result Error A)
      → IsPolite env P
      → ((r : Repository) → P r → P (call r).0)
      → Keeps P (access env call)
  unfolding access
  Keeps-access call polite k = record {
    at = λ w p. kept_access (env.fails w.tick) call _ k (polite w.tick w.repo p);
  }

  pub Keeps-reserve :
      (order_id : Text) (items : List StockItem) → Keeps P (reserve env order_id items)
  unfolding reserve
  Keeps-reserve order_id items = record { at = λ w p. kept_reserve env P order_id items _ w p }

  pub Keeps-commit : (id : Text) → Keeps P (commit_reservation env id)
  unfolding commit_reservation
  Keeps-commit id = record { at = λ w p. kept_require P _ _ p }

  pub Keeps-release : (id : Text) → Keeps P (release_reservation env id)
  unfolding release_reservation
  Keeps-release id = record { at = λ w p. kept_require P _ _ p }

  pub Keeps-let_go : (id : Text) → Keeps P (let_go env id)
  unfolding let_go
  Keeps-let_go id = Keeps-bind _ _ (Keeps-attempt _ (Keeps-release id)) (λ _. Keeps-pure tt)

  kept_undo :
      {A : Type 0} (undo : Task (Unit {0})) (r : Result Error A)
      → Keeps P undo
      → Keeps P (on_error env undo r)
  unfolding on_error
  kept_undo undo (ok a) k = Keeps-pure a
  kept_undo undo (err e) k = Keeps-bind undo _ k (λ _. Keeps-fail e)

  pub Keeps-or_undo :
      {A : Type 0} (undo : Task (Unit {0})) (m : Task A)
      → Keeps P undo
      → Keeps P m
      → Keeps P (or_undo env undo m)
  unfolding or_undo
  Keeps-or_undo undo m k l = Keeps-bind _ _ (Keeps-attempt m l) (λ r. kept_undo undo r k)

pub ruleset keeps_rules = (
  Keeps-pure, Keeps-fail, Keeps-lift, Keeps-attempt, Keeps-if, Keeps-bind, Keeps-read_clock,
  Keeps-reserve, Keeps-commit, Keeps-release, Keeps-let_go, Keeps-or_undo,
)
