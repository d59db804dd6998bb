-- ===== src/Orders/Documents.antt =====
-- The documents, queries and responses of `OrderService` in app/modules/orders/service.py.
use Prim.Native.String.{◌++◌}
use voltaris_mobility_backen.Prelude.{
  ℕ, suc, String, string_eq, nat_eq, ◌==◌, Bool, false, not, ◌&&◌, get_or, Option, none, some, List,
}
use voltaris_mobility_backen.Prelude.Int.{ℤ}
use voltaris_mobility_backen.Prelude.Text.{str}
use voltaris_mobility_backen.Vehicles.Models.{Vehicle}
use voltaris_mobility_backen.Orders.Models.{
  Order, OrderStatus, OrderKind, OrderLine, OrderResponse, pending, status_eq,
}

-- `_serialise`
unfoldable pub serialise : Order → OrderResponse
serialise o = record {
  id = o.id;
  reference = o.reference;
  vehicle_id = o.vehicle_id;
  vehicle_slug = o.vehicle_slug;
  vehicle_title = o.vehicle_title;
  kind = o.kind;
  status = o.status;
  lines = o.lines;
  total = o.total;
  currency = o.currency;
  created_at = o.created_at;
}

abbrev pub kind_disabled : OrderKind → Vehicle → Bool
kind_disabled OrderKind.purchase v = not v.purchase_enabled
kind_disabled OrderKind.rental v = not v.rental_enabled
kind_disabled OrderKind.reservation v = false

abbrev pub is_live : Option Vehicle → Option Vehicle
is_live none = none
is_live (some v) = elim v.deleted_at [ none ↦ some v | some _ ↦ none ]

abbrev pub has_id : String → Order → Bool
has_id order_id o = o.id == order_id

-- The compare-and-set queries.
abbrev pub unchanged_order : Order → Order → Bool
unchanged_order seen o = o.id == seen.id && o.status == seen.status && o.version == seen.version

abbrev pub vehicle_in : String → Vehicle → Bool
vehicle_in vehicle_id v = v.id == vehicle_id

abbrev pub to_status : OrderStatus → ℕ → Order → Order
to_status target now o = record o { status = target; version = suc o.version; updated_at = now }

-- The document that `create_order` writes.
abbrev pub new_order :
    String → String → String → String → Vehicle → OrderKind → ℤ × List OrderLine → ℕ → Order
new_order default_currency order_id order_reference customer_id v kind (total, lines) now = record {
  id = order_id;
  reference = order_reference;
  customer_id = customer_id;
  vehicle_id = v.id;
  vehicle_slug = v.slug;
  vehicle_title = str v.year ++ " " ++ v.make ++ " " ++ v.model;
  kind = kind;
  lines = lines;
  total = total;
  currency = get_or v.currency default_currency;
  status = pending;
  payment_id = none;
  version = 0;
  created_at = now;
  updated_at = now;
}
