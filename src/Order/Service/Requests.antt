-- ===== src/Order/Service/Requests.antt =====
-- The requests and the work of the order service (order/pkg/service) that change an order by a
-- conditional update, one after the other, among all that other requests do.
use schick.Prelude.{◌≡◌, ℤ, true, List, [], ◌∷◌, Option, Text}
use schick.Order.{Order}
use schick.Order.Shipment.{ShipmentTracking}
use schick.Order.Lifecycle.Invariant.{has_left}
use schick.Order.Repository.Updates.{Stands}
use schick.Order.World.{World, Env, Task, ◌>>◌, pure}
use schick.Order.World.Keeps.{Keeps, IsPolite, Keeps-bind, Keeps-pure}
use schick.Order.Service.Paying.{handle_payment_succeeded}
use schick.Order.Service.Closing.{ship_order, expire_pending_orders, handle_payment_canceled}
use schick.Order.Service.Closing.Left.{
  handle_payment_succeeded-Leaves, ship_order-Leaves, expire_Leaves, handle_payment_canceled-Leaves,
}

pub data Request : Type 0 where
  payment_succeeds : Text → Text → ℤ → Request
  payment_is_canceled : Text → Text → Option ℤ → Request
  ships : Text → Text → ShipmentTracking → Request
  expires : Request

module _ (env : Env) where
  unfoldable pub serve : Request → Task (Unit {0})
  serve (payment_succeeds order_id payment_id amount) =
      handle_payment_succeeded env order_id payment_id amount
  serve (payment_is_canceled order_id payment_id remaining) =
      handle_payment_canceled env order_id payment_id remaining
  serve (ships order_id by tracking) = ship_order env order_id by tracking >> pure tt
  serve expires = expire_pending_orders env

  unfoldable pub serve_all : List Request → World → World
  serve_all [] w = w
  serve_all (request ∷ requests) w = serve_all requests (serve request w).0

  serve-Keeps :
      (id : Text) (o : Order)
      → has_left o.status ≡ true
      → IsPolite env (Stands id o)
      → (request : Request) → Keeps (Stands id o) (serve request)
  unfolding serve
  serve-Keeps id o left polite (payment_succeeds key p a) =
      handle_payment_succeeded-Leaves env id o left polite key p a
  serve-Keeps id o left polite (payment_is_canceled key p remaining) =
      handle_payment_canceled-Leaves env id o left polite key p remaining
  serve-Keeps id o left polite (ships key by tracking) =
      Keeps-bind _ _ (ship_order-Leaves env id o left polite key by tracking) (λ _. Keeps-pure tt)
  serve-Keeps id o left polite expires = expire_Leaves env id o left polite

-- An order whose goods have left stays in the repository as it is through payments, refunds, shipments
-- and expiries in any number and order, whatever they are for and whichever of their calls fail, as long
-- as the other requests that come between their calls leave it as it is.
pub serve_all_leaves :
    (env : Env) (id : Text) (o : Order) (requests : List Request) (w : World)
    → has_left o.status ≡ true
    → IsPolite env (Stands id o)
    → Stands id o w.repo
    → Stands id o (serve_all env requests w).repo
unfolding serve_all
serve_all_leaves env id o [] w left polite h = h
serve_all_leaves env id o (request ∷ requests) w left polite h =
    serve_all_leaves env id o requests (serve env request w).0 left polite
      ((serve-Keeps env id o left polite request).at w h)
