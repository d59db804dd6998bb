-- ===== src/Tests/Runs.antt =====
-- Runs of the services on the sample shop.
use voltaris_mobility_backen.Prelude.{String, ◌≡◌, refl, Option, none, some, List, [], ◌∷◌, map}
use voltaris_mobility_backen.Prelude.Int.{ℤ, pos}
use voltaris_mobility_backen.Core.Action.{State}
use voltaris_mobility_backen.Vehicles.Models.{VehicleStatus}
use voltaris_mobility_backen.Orders.Models.{OrderKind, OrderStatus}
use voltaris_mobility_backen.Payments.Models.{PaymentStatus, integer}
use voltaris_mobility_backen.System.{Request, serve}
use voltaris_mobility_backen.Tests.Machine.{machine}
use voltaris_mobility_backen.Tests.Samples.{shop, opening, event}

abbrev pub buy : Request
buy = Request.order "c1" "v1" OrderKind.purchase none none none

abbrev pub checkout : Request
checkout = Request.checkout "u1" "c1" "c1@example.rw"

abbrev pub signature : String
signature = "t=1700000000,v1=key|1700000000.body"

abbrev pub paid_event : Request
paid_event =
    Request.webhook "body" signature (event "e1" "payment.succeeded" "u12" (integer (pos 27000000)))

abbrev pub sale : List Request
sale = buy ∷ checkout ∷ paid_event ∷ []

-- The statuses after a run: orders, payments, vehicles, and the agency's part of each commission.
abbrev summary :
    State → List OrderStatus × List PaymentStatus × List VehicleStatus × List (Option ℤ)
summary s = (
  map (λ o. o.status) s.db.orders,
  map (λ x. x.status) s.db.payments,
  map (λ v. v.status) s.db.vehicles,
  map (λ c. c.agency_commission) s.db.commissions,
)

-- A sale from the order to the settled payment.
sale-summary : summary (serve shop sale opening) ≡ (
  OrderStatus.paid ∷ [],
  PaymentStatus.paid ∷ [],
  VehicleStatus.sold ∷ [],
  some (pos 3000000) ∷ [],
)
unfolding machine
sale-summary = refl
