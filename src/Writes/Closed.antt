-- ===== src/Writes/Closed.antt =====
-- The atomic writes that the order and payment services make, each with what is known where it is
-- made. A predicate that is closed under them, and that the other requests keep, is an invariant
-- of every service call under any interleaving: the modules beside this one show it.
use voltaris_mobility_backen.Prelude.{
  ℕ, suc, String, string_eq, ◌==◌, ◌≡◌, true, ◌&&◌, Option, some,
}
use voltaris_mobility_backen.Core.Config.{Settings}
use voltaris_mobility_backen.Core.Keeps.{InsertKeeps, UpdateKeeps, DeleteKeeps}
use voltaris_mobility_backen.Database.Collections
use voltaris_mobility_backen.Database.Collections.{Db}
use voltaris_mobility_backen.Audit.Models.{AuditEntry}
use voltaris_mobility_backen.Vehicles.Models.{
  Vehicle, VehicleStatus, available, reserved, sold, status_eq,
}
use voltaris_mobility_backen.Orders.Models as OrderModels
use voltaris_mobility_backen.Orders.Models.{Order, OrderStatus, OrderResponse, IdempotencyKey}
use voltaris_mobility_backen.Orders.Documents.{has_id, unchanged_order, to_status, vehicle_in}
use voltaris_mobility_backen.Orders.Idempotency.{in_scope}
use voltaris_mobility_backen.Payments.Models as PaymentModels
use voltaris_mobility_backen.Payments.Models.{Payment, PaymentStatus, PaymentEvent, Outcome}
use voltaris_mobility_backen.Payments.Events.{with_outcome}
use voltaris_mobility_backen.Payments.Settlement.{commission_document, split_order}
use voltaris_mobility_backen.Payments.Webhook.{unchanged_payment, moved}

abbrev pub with_vehicle_status : VehicleStatus → ℕ → Vehicle → Vehicle
with_vehicle_status target now v = record v {
  status = target;
  version = suc v.version;
  updated_at = now;
}

pub record OrderWrites (P : Db → Type 0) : Type 0 where
  pub placed :
      (o : Order)
      → o.status ≡ OrderStatus.pending
      → o.version ≡ 0
      → InsertKeeps P Collections.orders o
  pub taken_back : (order_id : String) → DeleteKeeps P Collections.orders (has_id order_id)
  pub moved_order :
      (seen : Order) (target : OrderStatus) (now : ℕ)
      → OrderModels.can_transition seen.status target ≡ true
      → UpdateKeeps P Collections.orders (unchanged_order seen) (to_status target now)
  pub held :
      (vehicle_id : String) (now : ℕ)
      → UpdateKeeps P Collections.vehicles
          (λ v. v.id == vehicle_id && v.status == available)
          (with_vehicle_status reserved now)
  pub released :
      (vehicle_id : String) (now : ℕ)
      → UpdateKeeps P Collections.vehicles
          (λ v. v.id == vehicle_id && v.status == reserved)
          (with_vehicle_status available now)
  pub sold_off :
      (vehicle_id : String) (now : ℕ)
      → UpdateKeeps P Collections.vehicles (vehicle_in vehicle_id) (with_vehicle_status sold now)
  pub claimed : (row : IdempotencyKey) → InsertKeeps P Collections.idempotency_keys row
  pub completed :
      (user_id endpoint key : String) (response : OrderResponse)
      → UpdateKeeps P Collections.idempotency_keys
          (in_scope user_id endpoint key)
          (λ row. record row { response = some response })
  pub audited : (entry : AuditEntry) → InsertKeeps P Collections.audit_logs entry

pub record PaymentWrites (P : Db → Type 0) : Type 0 where
  pub opened :
      (x : Payment)
      → x.status ≡ PaymentStatus.pending
      → x.version ≡ 0
      → InsertKeeps P Collections.payments x
  pub attached :
      (order_id payment_id : String)
      → UpdateKeeps P Collections.orders
          (has_id order_id)
          (λ o. record o { payment_id = some payment_id })
  pub moved_payment :
      (seen : Payment) (target : PaymentStatus) (now : ℕ) (transaction_id : Option String)
      → PaymentModels.can_transition seen.status target ≡ true
      → UpdateKeeps P Collections.payments
          (unchanged_payment seen)
          (moved target now transaction_id)
  pub logged : (e : PaymentEvent) → InsertKeeps P Collections.payment_events e
  pub finished :
      (row_id : String) (outcome : Outcome)
      → UpdateKeeps P Collections.payment_events (λ e. e.id == row_id) (with_outcome outcome)
  pub booked :
      (settings : Settings) (row_id : String) (now : ℕ) (o : Order) (v : Vehicle)
      → InsertKeeps P Collections.commissions
          (commission_document row_id now o (split_order settings o v))
