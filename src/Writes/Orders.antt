-- ===== src/Writes/Orders.antt =====
-- Every call of the order service keeps a predicate that is closed under its atomic writes.
use voltaris_mobility_backen.Prelude.{
  ℕ, String, not, not-eq-false, ◌≡◌, false, Option, none, some, List, inl, inr, Option-cases,
}
use voltaris_mobility_backen.Prelude.Int.{ℤ}
use voltaris_mobility_backen.Core.Platform.{Platform}
use voltaris_mobility_backen.Core.Action.{update_one}
use voltaris_mobility_backen.Core.Keeps.{
  Keeps, Stable, keeps_rules, Keeps-insert_one, Keeps-update_one, Keeps-delete_one, Keeps-raise_if,
  Keeps-or_raise,
}
use voltaris_mobility_backen.Database.Collections
use voltaris_mobility_backen.Database.Collections.{Db}
use voltaris_mobility_backen.Audit.Models.{Change}
use voltaris_mobility_backen.Audit.Service.{record_change}
use voltaris_mobility_backen.Orders.Models.{
  Order, OrderStatus, OrderKind, OrderLine, OrderResponse, RequestPayload, IdempotencyKey,
  can_transition,
}
use voltaris_mobility_backen.Orders.Documents.{unchanged_order, to_status}
use voltaris_mobility_backen.Vehicles.Models.{Vehicle}
use voltaris_mobility_backen.Orders.Creation.{
  reference, orderable_vehicle, reserve_vehicle, place_order, create_new, create_and_store,
  create_order,
}
use voltaris_mobility_backen.Orders.Idempotency.{
  check_row, replay_found, replay_or_reserve, store_idempotent_response,
}
use voltaris_mobility_backen.Orders.Transitions.{release_or_sell, transition}
use voltaris_mobility_backen.Writes.Closed.{OrderWrites}

ruleset service_rules = (keeps_rules, Keeps-raise_if, Keeps-or_raise)

module _ (p : Platform) {P : Db → Type 0} (stable : Stable p P) (writes : OrderWrites P) where
  pub record_change-Keeps : (c : Change) → Keeps P (record_change p c)
  unfolding record_change
  record_change-Keeps c = search (keeps_rules, Keeps-insert_one, writes.audited)

  pub release_or_sell-Keeps :
      (o : Order) (target : OrderStatus) → Keeps P (release_or_sell p o target)
  unfolding release_or_sell
  release_or_sell-Keeps o OrderStatus.cancelled =
      search (keeps_rules, Keeps-update_one, writes.released)
  release_or_sell-Keeps o OrderStatus.paid = search (keeps_rules, Keeps-update_one, writes.sold_off)
  release_or_sell-Keeps o _ = search keeps_rules

  order_moved-Keeps :
      (seen : Order) (target : OrderStatus) (now : ℕ)
      → not (can_transition seen.status target) ≡ false
      → Keeps P (update_one p Collections.orders (unchanged_order seen) (to_status target now))
  order_moved-Keeps seen target now legal =
      Keeps-update_one Collections.orders p stable (unchanged_order seen) (to_status target now) (
        writes.moved_order seen target now (not-eq-false (can_transition seen.status target) legal))

  pub transition-Keeps :
      (order_id : String) (target : OrderStatus) (actor_id reason : Option String)
      → Keeps P (transition p order_id target actor_id reason)
  unfolding transition
  transition-Keeps order_id target actor_id reason =
      search (service_rules, order_moved-Keeps, release_or_sell-Keeps, record_change-Keeps) depth 12

  reserve_vehicle-Keeps : (o : Order) → Keeps P (reserve_vehicle p o)
  unfolding reserve_vehicle
  reserve_vehicle-Keeps o =
      search (service_rules, Keeps-update_one, Keeps-delete_one, writes.held, writes.taken_back)
        depth 12

  reference-Keeps : Keeps P (reference p)
  unfolding reference
  reference-Keeps = search service_rules

  place_order-Keeps :
      (customer_id : String) (v : Vehicle) (kind : OrderKind) (priced : ℤ × List OrderLine)
      (ip : Option String)
      → Keeps P (place_order p customer_id v kind priced ip)
  unfolding place_order
  place_order-Keeps customer_id v kind priced ip =
      search
        (
          service_rules, Keeps-insert_one, writes.placed, reference-Keeps, reserve_vehicle-Keeps,
          record_change-Keeps,
        )
        depth 14

  check_row-Keeps : (f : String) (row : IdempotencyKey) → Keeps P (check_row f row)
  check_row-Keeps f row = elim (Option-cases row.response) [
    | inl unfinished ↦ rw unfinished (search service_rules)
    | inr (response, e) ↦ rw e (search service_rules)
  ]

  replay_found-Keeps :
      (user_id endpoint key : String) (body : RequestPayload) (row : Option IdempotencyKey)
      → Keeps P (replay_found p user_id endpoint key body row)
  unfolding replay_or_reserve
  replay_found-Keeps user_id endpoint key body none =
      search (service_rules, Keeps-insert_one, writes.claimed) depth 12
  replay_found-Keeps user_id endpoint key body (some row) = search check_row-Keeps

  replay_or_reserve-Keeps :
      (user_id endpoint key : String) (body : RequestPayload)
      → Keeps P (replay_or_reserve p user_id endpoint key body)
  unfolding replay_or_reserve
  replay_or_reserve-Keeps user_id endpoint key body = search (service_rules, replay_found-Keeps)

  store_idempotent_response-Keeps :
      (user_id endpoint key : String) (response : OrderResponse)
      → Keeps P (store_idempotent_response p user_id endpoint key response)
  unfolding store_idempotent_response
  store_idempotent_response-Keeps user_id endpoint key response =
      search (service_rules, Keeps-update_one, writes.completed) depth 12

  create_new-Keeps :
      (customer_id vehicle_id : String) (kind : OrderKind) (rental_days : Option ℤ)
      (ip : Option String)
      → Keeps P (create_new p customer_id vehicle_id kind rental_days ip)
  unfolding create_new orderable_vehicle
  create_new-Keeps customer_id vehicle_id kind rental_days ip =
      search (service_rules, place_order-Keeps) depth 12

  create_and_store-Keeps :
      (customer_id vehicle_id : String) (kind : OrderKind) (rental_days : Option ℤ) (key : String)
      (ip : Option String) (replay : Option OrderResponse)
      → Keeps P (create_and_store p customer_id vehicle_id kind rental_days key ip replay)
  create_and_store-Keeps customer_id vehicle_id kind rental_days key ip (some response) =
      search service_rules
  create_and_store-Keeps customer_id vehicle_id kind rental_days key ip none =
      search (service_rules, create_new-Keeps, store_idempotent_response-Keeps)

  pub create_order-Keeps :
      (customer_id vehicle_id : String) (kind : OrderKind) (rental_days : Option ℤ)
      (idempotency_key ip : Option String)
      → Keeps P (create_order p customer_id vehicle_id kind rental_days idempotency_key ip)
  unfolding create_order
  create_order-Keeps customer_id vehicle_id kind rental_days none ip = search create_new-Keeps
  create_order-Keeps customer_id vehicle_id kind rental_days (some key) ip =
      search (service_rules, create_new-Keeps, replay_or_reserve-Keeps, create_and_store-Keeps)
