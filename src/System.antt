-- ===== src/System.antt =====
-- Requests against the order and payment services, one after another on one database. What other
-- processes do meanwhile is the platform's `others`.
use voltaris_mobility_backen.Prelude.{String, Option, List, [], ◌∷◌}
use voltaris_mobility_backen.Prelude.Int.{ℤ}
use voltaris_mobility_backen.Core.Platform.{Platform}
use voltaris_mobility_backen.Core.Action.{State}
use voltaris_mobility_backen.Core.Keeps.{Stable}
use voltaris_mobility_backen.Database.Collections.{Db}
use voltaris_mobility_backen.Orders.Models.{OrderKind, OrderStatus}
use voltaris_mobility_backen.Orders.Creation.{create_order}
use voltaris_mobility_backen.Orders.Transitions.{transition}
use voltaris_mobility_backen.Payments.Models.{Payload}
use voltaris_mobility_backen.Payments.Webhook.{handle_webhook}
use voltaris_mobility_backen.Payments.Checkout.{create_checkout_session}
use voltaris_mobility_backen.Writes.Closed.{OrderWrites, PaymentWrites}
use voltaris_mobility_backen.Writes.Orders.{create_order-Keeps, transition-Keeps}
use voltaris_mobility_backen.Writes.Payments.{handle_webhook-Keeps, create_checkout_session-Keeps}

-- The calls with their arguments, in the order of the methods' parameters.
pub data Request : Type 0 where
  order : String → String → OrderKind → Option ℤ → Option String → Option String → Request
  move_order : String → OrderStatus → Option String → Option String → Request
  checkout : String → String → String → Request
  webhook : String → String → Payload → Request

module _ (p : Platform) where
  -- A call may raise; what it wrote stays, and the next request starts from there.
  unfoldable pub handle : Request → State → State
  handle (Request.order customer_id vehicle_id kind rental_days key ip) s =
      (create_order p customer_id vehicle_id kind rental_days key ip s).1
  handle (Request.move_order order_id target actor_id reason) s =
      (transition p order_id target actor_id reason s).1
  handle (Request.checkout order_id customer_id email) s =
      (create_checkout_session p order_id customer_id email s).1
  handle (Request.webhook raw_body signature payload) s =
      (handle_webhook p raw_body signature payload s).1

  unfoldable pub serve : List Request → State → State
  unfolding handle
  serve [] s = s
  serve (r ∷ rs) s = serve rs (handle r s)

module _ (p : Platform) {P : Db → Type 0} (stable : Stable p P) (orders : OrderWrites P)
    (payments : PaymentWrites P) where
  handle-keeps : (r : Request) (s : State) → P s.db → P (handle p r s).db
  unfolding handle
  handle-keeps (Request.order customer_id vehicle_id kind rental_days key ip) =
      (create_order-Keeps p stable orders customer_id vehicle_id kind rental_days key ip).at
  handle-keeps (Request.move_order order_id target actor_id reason) =
      (transition-Keeps p stable orders order_id target actor_id reason).at
  handle-keeps (Request.checkout order_id customer_id email) =
      (create_checkout_session-Keeps p stable orders payments order_id customer_id email).at
  handle-keeps (Request.webhook raw_body signature payload) =
      (handle_webhook-Keeps p stable orders payments raw_body signature payload).at

  -- A predicate closed under the atomic writes holds after any sequence of requests.
  pub serve-keeps : (rs : List Request) (s : State) → P s.db → P (serve p rs s).db
  unfolding serve
  serve-keeps [] s h = h
  serve-keeps (r ∷ rs) s h = serve-keeps rs (handle p r s) (handle-keeps r s h)
