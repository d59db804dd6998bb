-- ===== src/Orders/Listing.antt =====
-- The order history: `list_for_customer` of app/modules/orders/service.py. The texts of the cursors
-- are those of `isoformat` and `fromisoformat`, a parameter.
use voltaris_mobility_backen.Prelude.{
  ℕ, suc, String, string_eq, ◌==◌, Bool, true, false, ◌&&◌, ltb, Option, none, some, List, [], ◌∷◌,
  map, length, take,
}
use voltaris_mobility_backen.Core.Errors.{python_error}
use voltaris_mobility_backen.Core.Platform.{Platform}
use voltaris_mobility_backen.Core.Action.{Action, Result, ok, err, pure, lift, find_many, ◌>>=◌}
use voltaris_mobility_backen.Core.Security.{non_empty}
use voltaris_mobility_backen.Database.Keys.{descending, time_key}
use voltaris_mobility_backen.Database.Reads.{Sorting}
use voltaris_mobility_backen.Database.Collections
use voltaris_mobility_backen.Database.Collections.{Db}
use voltaris_mobility_backen.Orders.Models.{Order, OrderResponse}
use voltaris_mobility_backen.Orders.Documents.{serialise}

pub record Cursors : Type 0 where
  pub isoformat : ℕ → String
  pub fromisoformat : String → Option ℕ

-- The newest first.
abbrev pub newest : Sorting Order
newest = descending (λ o. time_key (some o.created_at))

abbrev pub is_earlier : Option ℕ → Order → Bool
is_earlier none o = true
is_earlier (some t) o = ltb o.created_at t

abbrev pub is_listed : String → Option ℕ → Order → Bool
is_listed customer_id before o = o.customer_id == customer_id && is_earlier before o

-- `rows[-1]["created_at"]`
abbrev pub last_created : List Order → Option ℕ
last_created [] = none
last_created (o ∷ os) = elim (last_created os) [ none ↦ some o.created_at | some t ↦ some t ]

module _ (cursors : Cursors) where
  abbrev pub next_cursor : Bool → Option ℕ → Option String
  next_cursor true (some t) = some (cursors.isoformat t)
  next_cursor true none = none
  next_cursor false t = none

  abbrev parsed : Option ℕ → Result (Option ℕ)
  parsed none = err python_error
  parsed (some t) = ok (some t)

  abbrev pub parse_cursor : Option String → Result (Option ℕ)
  parse_cursor none = ok none
  parse_cursor (some cursor) = parsed (cursors.fromisoformat cursor)

module _ (p : Platform) (cursors : Cursors) where
  -- `list_for_customer`
  unfoldable pub list_for_customer :
      String → ℕ → Option String → Action (List OrderResponse × Option String)
  list_for_customer customer_id limit cursor = do
    before ← lift (parse_cursor cursors (non_empty cursor))
    rows ← find_many p Collections.orders (is_listed customer_id before) newest 0 (suc limit)
    pure (
      map serialise (take limit rows),
      next_cursor cursors (ltb limit (length rows)) (last_created (take limit rows)),
    )
