-- ===== src/Orders/Pricing.antt =====
-- `OrderService._price` of app/modules/orders/service.py.
use Prim.Native.String.{◌++◌}
use voltaris_mobility_backen.Prelude.{
  ◌==◌, Bool, true, ◌||◌, Option, none, some, List, [], ◌∷◌, if◌then◌else◌,
}
use voltaris_mobility_backen.Prelude.Int.{ℤ, pos, ◌*ℤ◌, ltb_ℤ, int_eq}
use voltaris_mobility_backen.Prelude.Text.{str}
use voltaris_mobility_backen.Core.Errors.{app_error, invalid_request, vehicle_not_purchasable}
use voltaris_mobility_backen.Core.Action.{Result, ok, err}
use voltaris_mobility_backen.Orders.Models.{OrderKind, OrderLine}
use voltaris_mobility_backen.Vehicles.Models.{Vehicle}

-- `not value`, of an optional number
abbrev pub is_falsy : Option ℤ → Bool
is_falsy none = true
is_falsy (some n) = n == pos 0

-- `value or default`
abbrev pub or_default : Option ℤ → ℤ → ℤ
or_default none d = d
or_default (some n) d = if n == pos 0 then d else n

abbrev pub price_rental : Option ℤ → Option ℤ → Result (ℤ × List OrderLine)
price_rental daily rental_days =
    if is_falsy daily
    then err (app_error vehicle_not_purchasable)
    else let days = or_default rental_days (pos 1) in
      if ltb_ℤ days (pos 1) || ltb_ℤ (pos 365) days
      then err (app_error invalid_request)
      else let total = or_default daily (pos 0) *ℤ days in
        ok (total, record { label = "Rental, " ++ str days ++ " day(s)"; amount = total } ∷ [])

abbrev pub price_purchase : Option ℤ → Result (ℤ × List OrderLine)
price_purchase agency_price =
    if is_falsy agency_price
    then err (app_error vehicle_not_purchasable)
    else let total = or_default agency_price (pos 0) in
      ok (total, record { label = "Vehicle"; amount = total } ∷ [])

-- `_price`: a reservation is priced like a purchase.
unfoldable pub price : Vehicle → OrderKind → Option ℤ → Result (ℤ × List OrderLine)
price v OrderKind.rental rental_days = price_rental v.rental_price_per_day rental_days
price v kind rental_days = price_purchase v.agency_price
