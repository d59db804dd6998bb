-- ===== src/Orders/Creation.antt =====
-- `OrderService.create_order` of app/modules/orders/service.py.
use Prim.Native.String.{◌++◌}
use voltaris_mobility_backen.Prelude.{
  suc, String, string_eq, ◌==◌, not, ◌&&◌, is_some, Option, none, some, List, [], ◌∷◌,
  if◌then◌else◌,
}
use voltaris_mobility_backen.Prelude.Int.{ℤ}
use voltaris_mobility_backen.Core.Errors.{
  vehicle_not_found, vehicle_unavailable, vehicle_not_purchasable,
}
use voltaris_mobility_backen.Core.Platform.{Platform}
use voltaris_mobility_backen.Core.Action.{
  Action, pure, raise, or_raise, ◌>>=◌, ◌>>◌, raise_if, lift, when, on_duplicate, uuid4_hex,
  token_hex, utc_now, find_one, insert_one, update_one, delete_one,
}
use voltaris_mobility_backen.Database.Collections
use voltaris_mobility_backen.Audit.Models.{text, number}
use voltaris_mobility_backen.Audit.Service.{record_change}
use voltaris_mobility_backen.Vehicles.Models.{
  Vehicle, available, reserved, status_eq as vehicle_status_eq,
}
use voltaris_mobility_backen.Orders.Models.{
  Order, OrderKind, OrderLine, OrderResponse, pending, status_value,
}
use voltaris_mobility_backen.Orders.Documents.{
  serialise, kind_disabled, is_live, has_id, vehicle_in, new_order,
}
use voltaris_mobility_backen.Orders.Pricing.{price}
use voltaris_mobility_backen.Orders.Idempotency.{replay_or_reserve, store_idempotent_response}

module _ (p : Platform) where
  -- `_reference`
  unfoldable pub reference : Action String
  reference = do
    now ← utc_now p
    suffix ← token_hex p 3
    pure ("VM-" ++ p.strftime "%Y%m" now ++ "-" ++ p.upper suffix)

  -- The checks of `create_order` on the vehicle, in their order.
  unfoldable pub orderable_vehicle : String → OrderKind → Action Vehicle
  orderable_vehicle vehicle_id kind = do
    row ← find_one p Collections.vehicles (vehicle_in vehicle_id)
    v ← or_raise (is_live row) vehicle_not_found
    raise_if (not (v.status == available)) vehicle_unavailable
    raise_if (kind_disabled kind v) vehicle_not_purchasable
    pure v

  -- Reserves the vehicle if it is still available, and takes the order back if it is not.
  unfoldable pub reserve_vehicle : Order → Action (Unit {0})
  reserve_vehicle o = do
    held ←
        update_one p Collections.vehicles (λ v. v.id == o.vehicle_id && v.status == available)
          (λ v. record v { status = reserved; version = suc v.version; updated_at = o.updated_at })
    when (not (is_some held))
        (do delete_one p Collections.orders (has_id o.id); raise vehicle_unavailable)

  -- `create_order` from the price on: the insert, the reservation, the audit entry.
  unfoldable pub place_order :
      String → Vehicle → OrderKind → ℤ × List OrderLine → Option String → Action OrderResponse
  place_order customer_id v kind priced ip = do
    order_id ← uuid4_hex p
    now ← utc_now p
    order_reference ← reference
    let o =
        new_order p.settings.default_currency order_id order_reference customer_id v kind priced now
    on_duplicate (insert_one p Collections.orders o) (raise vehicle_unavailable)
    reserve_vehicle o
    record_change p (record {
      action = "order.created";
      entity_type = "order";
      entity_id = order_id;
      actor_id = some customer_id;
      before = none;
      after = some (
          ("status", text (status_value pending))
          ∷ ("total", number o.total)
          ∷ ("vehicle_id", text v.id)
          ∷ []);
      ip = ip;
    })
    pure (serialise o)

  -- `create_order` behind the idempotency key.
  unfoldable pub create_new :
      String → String → OrderKind → Option ℤ → Option String → Action OrderResponse
  create_new customer_id vehicle_id kind rental_days ip = do
    v ← orderable_vehicle vehicle_id kind
    priced ← lift (price v kind rental_days)
    place_order customer_id v kind priced ip

  abbrev pub create_and_store :
      String
      → String
      → OrderKind
      → Option ℤ
      → String
      → Option String
      → Option OrderResponse
      → Action OrderResponse
  create_and_store customer_id vehicle_id kind rental_days key ip (some response) = pure response
  create_and_store customer_id vehicle_id kind rental_days key ip none = do
    response ← create_new customer_id vehicle_id kind rental_days ip
    store_idempotent_response p customer_id "POST /orders" key response
    pure response

  -- `create_order`; an empty key counts as no key.
  unfoldable pub create_order :
      String → String → OrderKind → Option ℤ → Option String → Option String → Action OrderResponse
  create_order customer_id vehicle_id kind rental_days none ip =
      create_new customer_id vehicle_id kind rental_days ip
  create_order customer_id vehicle_id kind rental_days (some key) ip =
      if key == ""
      then create_new customer_id vehicle_id kind rental_days ip
      else replay_or_reserve p customer_id "POST /orders" key
          (record { vehicle_id = vehicle_id; kind = kind; rental_days = rental_days })
        >>= create_and_store customer_id vehicle_id kind rental_days key ip
