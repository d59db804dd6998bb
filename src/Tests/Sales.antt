-- ===== src/Tests/Sales.antt =====
-- The theorems on orders, payments and commissions at work on the sample shop.
use voltaris_mobility_backen.Prelude.{
  suc, ◌/◌, ◌≤◌, String, string_eq, ◌≡◌, ◌≢◌, ◌↔◌, refl, sym, subst, true, false, none, some, List,
  [], ◌∷◌, get_or,
}
use voltaris_mobility_backen.Prelude.Int.{pos, ◌+ℤ◌, ◌-ℤ◌, ◌*ℤ◌, ◌≤ℤ◌, floor_div}
use voltaris_mobility_backen.Core.Action.{Result, ok, err, State}
use voltaris_mobility_backen.Core.Security.{verify_webhook_signature}
use voltaris_mobility_backen.Database.Mongo.{With, here, NoneMatch}
use voltaris_mobility_backen.Database.Indexes.{holds_vehicle}
use voltaris_mobility_backen.Commissions.Service.{CommissionBreakdown, calculate}
use voltaris_mobility_backen.Commissions.Split.{is_computed, calculate_split, calculate_iff}
use voltaris_mobility_backen.Orders.Models.{
  Order, OrderKind, OrderStatus, OrderResponse, IdempotencyKey,
}
use voltaris_mobility_backen.Orders.Idempotency.{in_scope, fingerprint}
use voltaris_mobility_backen.Orders.Documents.{serialise, new_order}
use voltaris_mobility_backen.Orders.Creation.{create_order}
use voltaris_mobility_backen.Orders.Replay.{retried, create_order_replay}
use voltaris_mobility_backen.Orders.Sound.{sum, Costs, IsOrderable, price_lem, create_order_lem}
use voltaris_mobility_backen.Vehicles.Models.{Vehicle}
use voltaris_mobility_backen.Payments.Models.{Payment, PaymentStatus}
use voltaris_mobility_backen.Payments.Events.{is_event}
use voltaris_mobility_backen.Payments.Webhook.{no_data}
use voltaris_mobility_backen.Payments.Gates.{Passes}
use voltaris_mobility_backen.Payments.Approval.{handle_webhook_applied}
use voltaris_mobility_backen.System.{Request, serve}
use voltaris_mobility_backen.Invariants.History.{
  OrderPath, PaymentPath, OrderPath-le, PaymentPath-captured, depth, captured,
}
use voltaris_mobility_backen.Invariants.Exclusive.{IsExclusive, one_order_per_vehicle}
use voltaris_mobility_backen.Tests.Machine.{machine}
use voltaris_mobility_backen.Tests.Samples.{shop, opening, leaf}
use voltaris_mobility_backen.Tests.Runs.{buy, signature}
use voltaris_mobility_backen.Tests.Witnesses.{
  shop-IsQuiet, shop-Stable, awaiting_payment, paid_payload,
}

abbrev event_id : String
event_id = "e1"

handle_webhook_applied_example :
    (verify_webhook_signature shop "body" signature "key" 300
        (shop.now awaiting_payment.calls / 1000000)
      ≡ ok tt)
    × (event_id ≡ get_or paid_payload.id "")
    × (event_id ≢ "")
    × NoneMatch (is_event "stub" "e1") awaiting_payment.db.payment_events
    × ((x : Payment) × (rest : List Payment) × With x rest awaiting_payment.db.payments
        × (x.id ≡ "u12")
        × Passes "payment.succeeded" (get_or paid_payload.event_data no_data) x PaymentStatus.paid)
unfolding machine
handle_webhook_applied_example =
    handle_webhook_applied shop shop-IsQuiet "body" signature paid_payload awaiting_payment
      PaymentStatus.paid event_id refl

-- An order that was cancelled, and a second one for the same vehicle.
abbrev second_try : List Request
second_try = buy ∷ Request.move_order "u1" OrderStatus.cancelled none none ∷ buy ∷ []

abbrev blank : Order
blank = new_order "RWF" "" "" "" leaf OrderKind.purchase (pos 0, []) 0

abbrev latest : Order
latest = record {
  id = "u19";
  reference = "VM-202311-t22";
  customer_id = "c1";
  vehicle_id = "v1";
  vehicle_slug = "nissan-leaf";
  vehicle_title = "2022 Nissan Leaf";
  kind = OrderKind.purchase;
  lines = record { label = "Vehicle"; amount = pos 27000000 } ∷ [];
  total = pos 27000000;
  currency = "RWF";
  status = OrderStatus.pending;
  payment_id = none;
  version = 0;
  created_at = 1700000000000020;
  updated_at = 1700000000000020;
}

abbrev earlier : Order
earlier = record {
  id = "u1";
  reference = "VM-202311-t4";
  customer_id = "c1";
  vehicle_id = "v1";
  vehicle_slug = "nissan-leaf";
  vehicle_title = "2022 Nissan Leaf";
  kind = OrderKind.purchase;
  lines = record { label = "Vehicle"; amount = pos 27000000 } ∷ [];
  total = pos 27000000;
  currency = "RWF";
  status = OrderStatus.cancelled;
  payment_id = none;
  version = 1;
  created_at = 1700000000000002;
  updated_at = 1700000000000011;
}

orders_tried : (serve shop second_try opening).db.orders ≡ latest ∷ earlier ∷ []
unfolding machine
orders_tried = refl

one_order_per_vehicle_example : holds_vehicle earlier ≡ false
unfolding holds_vehicle
one_order_per_vehicle_example =
    one_order_per_vehicle shop (shop-Stable IsExclusive) second_try opening tt latest earlier
      (earlier ∷ []) [] (subst (With latest (earlier ∷ [])) (sym orders_tried) (here _)) (here [])
      refl refl

abbrev calculation : CommissionBreakdown
calculation = record {
  gross_sale = pos 27000000;
  owner_settlement = pos 24000000;
  agency_commission = pos 3000000;
  payment_fees = pos 783000;
  net_revenue = pos 2217000;
  currency = "RWF";
  commission_bps = pos 800;
}

calculate_split_example :
    (pos 27000000 ≡ pos 27000000)
    × (pos 24000000 ≡ pos 24000000)
    × (pos 24000000 +ℤ pos 3000000 ≡ pos 27000000)
    × (floor_div (pos 27000000 *ℤ pos 800) 10000 ≤ℤ pos 3000000)
    × (pos 2217000 +ℤ pos 783000 +ℤ pos 24000000 ≡ pos 27000000)
    × (pos 0 ≤ℤ pos 3000000)
unfolding machine
calculate_split_example =
    calculate_split (pos 27000000) (pos 24000000) "RWF" (pos 800) (pos 290) (pos 0) calculation refl

calculate_iff_example :
    (is_computed (calculate (pos 100) (pos 101) "RWF" (pos 800) (pos 290) (pos 0)) ≡ true) ↔ (
      (pos 1 ≤ℤ pos 100)
      × (pos 0 ≤ℤ pos 101)
      × (pos 101 ≤ℤ pos 100)
      × (floor_div (pos 100 *ℤ pos 800) 10000 ≤ℤ pos 100 -ℤ pos 101))
calculate_iff_example = calculate_iff (pos 100) (pos 101) "RWF" (pos 800) (pos 290) (pos 0)

price_lem_example :
    Costs leaf (some (pos 3)) OrderKind.rental (pos 180000)
    × (sum (record { label = "Rental, 3 day(s)"; amount = pos 180000 } ∷ []) ≡ pos 180000)
unfolding machine
price_lem_example = price_lem leaf OrderKind.rental (some (pos 3)) (pos 180000) _ refl

OrderPath-le_example : 2 ≤ depth OrderStatus.paid
unfolding machine
OrderPath-le_example = OrderPath-le (
    OrderPath.step OrderStatus.paid
      (OrderPath.step OrderStatus.payment_pending OrderPath.placed refl) refl)

PaymentPath-captured_example : 1 ≡ captured PaymentStatus.refunded
unfolding machine
PaymentPath-captured_example = PaymentPath-captured (
    PaymentPath.step PaymentStatus.refunded
      (PaymentPath.step PaymentStatus.paid PaymentPath.opened refl) refl)

-- A first request with a key, and the row that it leaves.
abbrev keyed : State
keyed = serve shop (Request.order "c1" "v1" OrderKind.purchase none (some "k1") none ∷ []) opening

abbrev key_row : List IdempotencyKey → IdempotencyKey
key_row [] = record {
  id = "";
  user_id = "";
  endpoint = "";
  key = "";
  fingerprint = "";
  response = none;
  created_at = 0;
  expires_at = 0;
}
key_row (row ∷ rows) = row

create_order_replay_example :
    (seen : IdempotencyKey) × (others : List IdempotencyKey) × With seen others
      keyed.db.idempotency_keys
    × (in_scope "c1" "POST /orders" "k1" seen ≡ true)
    × (create_order shop "c1" "v1" OrderKind.purchase none (some "k1") none keyed ≡ (
      retried
          (fingerprint shop
            (record { vehicle_id = "v1"; kind = OrderKind.purchase; rental_days = none }))
          seen,
      record keyed { calls = suc keyed.calls },
    ))
unfolding machine
create_order_replay_example =
    create_order_replay shop shop-IsQuiet "c1" "v1" OrderKind.purchase none "k1" none keyed refl
      (key_row keyed.db.idempotency_keys) [] (here []) refl

-- A rental of three days.
abbrev rental : Result OrderResponse
rental = (create_order shop "c1" "v1" OrderKind.rental (some (pos 3)) none none opening).0

abbrev response_of : Result OrderResponse → OrderResponse
response_of (ok r) = r
response_of (err e) = serialise blank

create_order_lem_example :
    (v : Vehicle) × (rest : List Vehicle) × With v rest opening.db.vehicles
    × IsOrderable "v1" OrderKind.rental v
    × Costs v (some (pos 3)) OrderKind.rental (response_of rental).total
    × (sum (response_of rental).lines ≡ (response_of rental).total)
    × ((response_of rental).vehicle_id ≡ "v1")
    × ((response_of rental).status ≡ OrderStatus.pending)
unfolding machine
create_order_lem_example =
    create_order_lem shop shop-IsQuiet "c1" "v1" OrderKind.rental (some (pos 3)) none opening
      (response_of rental) refl
