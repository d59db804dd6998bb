-- ===== src/Vehicles/Filter.antt =====
-- The query that `VehicleService._filter` builds, as a test of a stored vehicle:
-- app/modules/vehicles/service.py. What the server's `$regex` and `$text` match is a parameter.
use voltaris_mobility_backen.Prelude.{
  String, string_eq, option_eq, ◌==◌, Bool, true, false, not, ◌&&◌, get_or, is_some, Option, none,
  some, List, [], ◌∷◌, contains, if◌then◌else◌,
}
use voltaris_mobility_backen.Prelude.Int.{ℤ, leb_ℤ}
use voltaris_mobility_backen.Core.Platform.{Platform}
use voltaris_mobility_backen.Core.Security.{split, non_empty}
use voltaris_mobility_backen.Database.Reads.{Sorting}
use voltaris_mobility_backen.Database.Keys.{ascending, descending, and_then, time_key, flag_key}
use voltaris_mobility_backen.Vehicles.Models.{Vehicle, VehicleStatus, status_eq}

-- `PUBLIC_STATUS`, with its default for a missing key
abbrev pub public_status : VehicleStatus → String
public_status VehicleStatus.available = "available"
public_status VehicleStatus.reserved = "reserved"
public_status VehicleStatus.sold = "sold"
public_status VehicleStatus.unpublished = "unavailable"
public_status _ = "unavailable"

-- `VISIBLE`
abbrev pub visible : List VehicleStatus
visible =
    VehicleStatus.available ∷ VehicleStatus.reserved ∷ VehicleStatus.sold
    ∷ VehicleStatus.unpublished ∷ []

-- `{"status": {"$in": VISIBLE}, "deleted_at": None}`
abbrev pub is_public : Vehicle → Bool
is_public v = contains visible v.status && not (is_some v.deleted_at)

-- The text operators of the server, and the product of an `int` by 0.7 and by 1.3, cut by `int`.
pub record Search : Type 0 where
  pub matches_prefix : String → String → Bool
  pub matches_text : String → Vehicle → Bool
  pub by_text_score : String → Sorting Vehicle
  pub times_0_7 : ℤ → ℤ
  pub times_1_3 : ℤ → ℤ

-- The query parameters; a parameter that was not given is `none`.
pub record Params : Type 0 where
  pub q : Option String
  pub make : Option String
  pub model : Option String
  pub body : Option String
  pub condition : Option String
  pub location : Option String
  pub verified : Option Bool
  pub dealer_id : Option String
  pub mode : Option String
  pub min_price : Option ℤ
  pub max_price : Option ℤ
  pub min_year : Option ℤ
  pub max_year : Option ℤ
  pub max_mileage : Option ℤ
  pub min_range : Option ℤ
  pub min_battery : Option ℤ
  pub sort : Option String
  pub page : Option ℤ
  pub per_page : Option ℤ

-- A condition that is left out where its parameter is missing.
abbrev pub where_given : {A : Type 0} → Option A → (A → Bool) → Bool
where_given none test = true
where_given (some a) test = test a

-- `{"$gte": bound}` and `{"$lte": bound}`, which a missing value does not meet
abbrev pub reaches : ℤ → Option ℤ → Bool
reaches bound none = false
reaches bound (some n) = leb_ℤ bound n

abbrev pub stays_below : ℤ → Option ℤ → Bool
stays_below bound none = false
stays_below bound (some n) = leb_ℤ n bound

abbrev pub between : Option ℤ → Option ℤ → Option ℤ → Bool
between low high value =
    where_given low (λ b. reaches b value) && where_given high (λ b. stays_below b value)

abbrev pub in_csv : List String → String → Bool
in_csv [] value = true
in_csv (x ∷ xs) value = contains (x ∷ xs) value

abbrev pub in_mode : Option String → Vehicle → Bool
in_mode none v = true
in_mode (some mode) v =
    if mode == "rental"
    then v.rental_enabled
    else if mode == "sale"
    then v.purchase_enabled
    else true

abbrev pub only_verified : Option Bool → Vehicle → Bool
only_verified (some true) v = v.verified
only_verified _ v = true

module _ (p : Platform) where
  parts : List String → List String
  parts [] = []
  parts (piece ∷ pieces) =
      let rest = parts pieces in
      if p.strip piece == "" then rest else p.lower (p.strip piece) ∷ rest

  -- `_csv`
  unfoldable pub csv : Option String → List String
  unfolding parts split
  csv value = parts (split b',' (get_or value ""))

  -- The conditions of the parameters that were given.
  unfoldable pub asked_for : Search → Params → Vehicle → Bool
  asked_for text_search params v =
      in_csv (csv params.make) v.make_slug
      && in_csv (csv params.body) v.body_type
      && where_given (non_empty params.model) (λ model. text_search.matches_prefix model v.model)
      && where_given (non_empty params.condition) (λ condition. v.condition == condition)
      && where_given (non_empty params.location) (λ location. v.location_slug == p.lower location)
      && only_verified params.verified v
      && where_given (non_empty params.dealer_id) (λ dealer. v.dealer_id == some dealer)
      && in_mode params.mode v
      && between params.min_price params.max_price v.agency_price
      && between params.min_year params.max_year (some v.year)
      && between none params.max_mileage (some v.mileage_km)
      && between params.min_range none (some v.range_km)
      && between params.min_battery none (some v.battery_kwh)
      && where_given (non_empty params.q) (λ q. text_search.matches_text q v)

  -- `_filter`
  unfoldable pub filter : Search → Params → Vehicle → Bool
  unfolding asked_for
  filter text_search params v = is_public v && asked_for text_search params v

-- `SORTS`
abbrev pub by_relevance : Sorting Vehicle
by_relevance =
    and_then (descending (λ v. flag_key v.verified)) (descending (λ v. time_key v.published_at))

unfoldable pub sort_named : String → Sorting Vehicle
sort_named name =
    if name == "newest"
    then descending (λ v. time_key v.published_at)
    else if name == "price_asc"
    then ascending (λ v. v.agency_price)
    else if name == "price_desc"
    then descending (λ v. v.agency_price)
    else if name == "range_desc"
    then descending (λ v. some v.range_km)
    else if name == "mileage_asc"
    then ascending (λ v. some v.mileage_km)
    else if name == "year_desc"
    then descending (λ v. some v.year)
    else by_relevance

-- A text search without a sort of its own is sorted by its score.
abbrev scored : Search → Option String → Option String → Option (Sorting Vehicle)
scored text_search none sort = none
scored text_search (some q) none = some (text_search.by_text_score q)
scored text_search (some q) (some name) =
    if name == "relevance" then some (text_search.by_text_score q) else none

unfoldable pub sorting_of : Search → Params → Sorting Vehicle
unfolding sort_named
sorting_of text_search params =
    get_or (scored text_search (non_empty params.q) params.sort)
      (sort_named (get_or (non_empty params.sort) "relevance"))
