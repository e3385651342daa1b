-- ===== src/Order/World/Undoing.antt =====
-- The calls of an order service method (order/pkg/service) that reserve stock and let it go, accounted for.
use schick.Prelude.{
  ◌+◌, ◌≡◌, refl, sym, ap, ◌∙◌, subst, List, [], ◌∷◌, Option, none, some, Text, eq_refl, Result, ok,
  err,
}
use schick.Order.{Error}
use schick.Order.Repository.{Repository}
use schick.Order.World.{
  StockItem, released, World, Env, Task, pure, fail, attempt, as_value, continue, ◌>>=◌,
  require_task, read_clock, access, accessed, reserve, logged, release_reservation, let_go,
  on_error, or_undo,
}
use schick.Order.World.Holds.{
  held, without, Quiet, Steady, HoldsOf, Yields, Settled, Spends, Nothing, Just, Spends-pure,
  Spends-fail, Spends-bind,
}

module _ (env : Env) where
  pub Quiet-read_clock : Quiet (read_clock env)
  unfolding read_clock
  Quiet-read_clock = record { at = λ w. refl }

  pub Steady-read_clock : Steady (read_clock env)
  unfolding read_clock
  Steady-read_clock = record {
    at = λ w. (record w { tick = w.tick + 1 }, env.clock w.tick, refl, refl);
  }

  accessed_calls :
      {A : Type 0} (stop : Option Error) (call : Repository → Repository × Result Error A)
      (w : World)
      → (accessed env stop call w).0.calls ≡ w.calls
  accessed_calls none call w = refl
  accessed_calls (some e) call w = refl

  pub Quiet-access :
      {A : Type 0} (call : Repository → Repository × Result Error A) → Quiet (access env call)
  unfolding access
  Quiet-access call = record { at = λ w. accessed_calls (env.fails w.tick) call _ }

  reserve-Settled :
      (order_id : Text) (items : List StockItem) (answer : Result Error Text) (w : World)
      (rest : List Text)
      → held w.calls ≡ rest
      → Settled (λ id l. l ≡ id ∷ []) rest (logged env order_id items answer w)
  unfolding held
  reserve-Settled order_id items (ok id) w rest h = (id ∷ [], refl, ap (λ l. id ∷ l) h)
  reserve-Settled order_id items (err e) w rest h = h

  pub Spends-reserve :
      (order_id : Text) (items : List StockItem)
      → Spends [] (reserve env order_id items) (λ id l. l ≡ id ∷ [])
  unfolding reserve
  Spends-reserve order_id items = record {
    at = λ w rest h. reserve-Settled order_id items _ w rest h;
  }

  let_go-Settled :
      (id : Text) (failure : Option Error) (w : World) (rest : List Text)
      → held w.calls ≡ rest
      → Settled Nothing rest (continue (as_value (require_task failure w)) (λ _. pure tt))
  unfolding require_task pure
  let_go-Settled id none w rest h = ([], refl, h)
  let_go-Settled id (some e) w rest h = ([], refl, h)

  -- Whatever the stock service answers, the reservation has been asked to go.
  pub Spends-let_go : (id : Text) → Spends (id ∷ []) (let_go env id) Nothing
  unfolding let_go ◌>>=◌ attempt release_reservation held without
  Spends-let_go id = record {
    at = λ w rest h.
        let_go-Settled id (env.release_stock w.calls id)
          (record w { calls = released id ∷ w.calls }) rest
          (ap (without id) h ∙ rw (without, eq_refl id) refl);
  }

  undo_settled :
      {A : Type 0} (id : Text) (P : A → Type 0) (r : Result Error A)
      → HoldsOf P r
      → Spends (id ∷ []) (on_error env (let_go env id) r) (Just id P)
  unfolding on_error
  undo_settled id P (ok a) h = Spends-pure (id ∷ []) a (Just id P) (h, refl)
  undo_settled id P (err e) h =
      Spends-bind (let_go env id) (λ _. fail e) (id ∷ []) Nothing (Just id P) (Spends-let_go id)
        (λ _ l same. subst (λ l'. Spends l' (fail e) (Just id P)) (sym same) (Spends-fail e _))

  undo_at :
      {A : Type 0} (id : Text) (P : A → Type 0) (x : World × Result Error A) (w : World)
      (rest : List Text)
      → HoldsOf P x.1
      → x.0.calls ≡ w.calls
      → held w.calls ≡ id ∷ rest
      → Settled (Just id P) rest (continue (as_value x) (on_error env (let_go env id)))
  undo_at id P (v, r) w rest y q h = (undo_settled id P r y).at v rest (ap held q ∙ h)

  pub Spends-or_undo :
      {A : Type 0} (id : Text) (P : A → Type 0) (m : Task A)
      → Quiet m
      → Yields P m
      → Spends (id ∷ []) (or_undo env (let_go env id) m) (Just id P)
  unfolding or_undo ◌>>=◌ attempt
  Spends-or_undo id P m q y = record {
    at = λ w rest h. undo_at id P (m w) w rest (y.at w) (q.at w) h;
  }
