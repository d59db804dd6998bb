-- ===== src/Orders/Transitions.antt =====
-- `OrderService.transition` and the owner's read of app/modules/orders/service.py.
use voltaris_mobility_backen.Prelude.{
  suc, String, string_eq, ◌==◌, not, ◌&&◌, Option, none, some, [], ◌∷◌,
}
use voltaris_mobility_backen.Core.Errors.{
  order_not_found, invalid_state_transition, concurrent_modification,
}
use voltaris_mobility_backen.Core.Platform.{Platform}
use voltaris_mobility_backen.Core.Action.{
  Action, pure, or_raise, ◌>>=◌, ◌>>◌, raise_if, utc_now, find_one, update_one,
}
use voltaris_mobility_backen.Database.Collections
use voltaris_mobility_backen.Audit.Models.{text, text_or_null}
use voltaris_mobility_backen.Audit.Service.{record_change}
use voltaris_mobility_backen.Vehicles.Models.{
  available, reserved, sold, status_eq as vehicle_status_eq,
}
use voltaris_mobility_backen.Orders.Models.{
  Order, OrderStatus, OrderResponse, status_value, can_transition,
}
use voltaris_mobility_backen.Orders.Documents.{
  serialise, has_id, unchanged_order, vehicle_in, to_status,
}

module _ (p : Platform) where
  -- `_release_or_sell`
  unfoldable pub release_or_sell : Order → OrderStatus → Action (Unit {0})
  release_or_sell o OrderStatus.cancelled = do
    now ← utc_now p
    update_one p Collections.vehicles (λ v. v.id == o.vehicle_id && v.status == reserved)
        (λ v. record v { status = available; version = suc v.version; updated_at = now })
    pure tt
  release_or_sell o OrderStatus.paid = do
    now ← utc_now p
    update_one p Collections.vehicles (vehicle_in o.vehicle_id)
        (λ v. record v { status = sold; version = suc v.version; updated_at = now })
    pure tt
  release_or_sell o _ = pure tt

  -- `transition`
  unfoldable pub transition :
      String → OrderStatus → Option String → Option String → Action OrderResponse
  transition order_id target actor_id reason = do
    row ← find_one p Collections.orders (has_id order_id)
    o ← or_raise row order_not_found
    raise_if (not (can_transition o.status target)) invalid_state_transition
    now ← utc_now p
    written ← update_one p Collections.orders (unchanged_order o) (to_status target now)
    o' ← or_raise written concurrent_modification
    release_or_sell o target
    record_change p (record {
      action = "order.status_changed";
      entity_type = "order";
      entity_id = order_id;
      actor_id = actor_id;
      before = some (("status", text (status_value o.status)) ∷ []);
      after = some (("status", text (status_value target)) ∷ ("reason", text_or_null reason) ∷ []);
      ip = none;
    })
    pure (serialise o')

  -- `get_for_customer`
  unfoldable pub get_for_customer : String → String → Action OrderResponse
  get_for_customer order_id customer_id = do
    row ← find_one p Collections.orders (λ o. o.id == order_id && o.customer_id == customer_id)
    o ← or_raise row order_not_found
    pure (serialise o)
