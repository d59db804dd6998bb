-- ===== src/Dealers/Service.antt =====
-- `DealerService` of app/modules/dealers/service.py. `ErrorCode` has no DEALER_NOT_FOUND, so that
-- naming it raises AttributeError. The order of the names is the server's, a parameter.
use voltaris_mobility_backen.Prelude.{
  ℕ, ◌-◌, ◌*◌, String, string_eq, option_eq, ◌==◌, Bool, true, false, ◌&&◌, get_or, Option, none,
  some, List, [], ◌∷◌,
}
use voltaris_mobility_backen.Prelude.Int.{ℤ, is_zero}
use voltaris_mobility_backen.Core.Errors.{python_error}
use voltaris_mobility_backen.Core.Platform.{Platform}
use voltaris_mobility_backen.Core.Action.{
  Action, pure, fail, ◌>>=◌, find_one, find_many, count_documents,
}
use voltaris_mobility_backen.Core.Security.{non_empty}
use voltaris_mobility_backen.Database.Reads.{Sorting}
use voltaris_mobility_backen.Database.Keys.{descending, and_then, flag_key}
use voltaris_mobility_backen.Database.Collections
use voltaris_mobility_backen.Dealers.Models.{Dealer}
use voltaris_mobility_backen.Vehicles.Models.{Vehicle}
use voltaris_mobility_backen.Vehicles.Filter.{Search, Params, is_public}
use voltaris_mobility_backen.Vehicles.Pages.{total_pages}
use voltaris_mobility_backen.Vehicles.Views.{Summary, contact}
use voltaris_mobility_backen.Vehicles.Service.{Page}
use voltaris_mobility_backen.Vehicles.Service

pub record DealerSummary : Type 0 where
  pub id : String
  pub slug : String
  pub name : String
  pub verified : Bool
  pub city : String
  pub logo_url : Option String
  pub vehicle_count : ℕ

-- A key that the response leaves out is `none`.
pub record Profile : Type 0 where
  pub listing : DealerSummary
  pub description : String
  pub address : String
  pub phone : Option String
  pub whatsapp : Option String
  pub website : Option String
  pub established_year : Option ℤ
  pub cover_image_url : Option String

abbrev pub is_active : Dealer → Bool
is_active d = d.status == "active"

abbrev pub is_stock_of : Dealer → Vehicle → Bool
is_stock_of d v = v.dealer_id == some d.id && is_public v

abbrev non_zero : Option ℤ → Option ℤ
non_zero none = none
non_zero (some n) = elim (is_zero n) [ true ↦ none | false ↦ some n ]

abbrev dealer_params : ℤ → ℤ → String → Params
dealer_params page per_page id = record {
  q = none;
  make = none;
  model = none;
  body = none;
  condition = none;
  location = none;
  verified = none;
  dealer_id = some id;
  mode = none;
  min_price = none;
  max_price = none;
  min_year = none;
  max_year = none;
  max_mileage = none;
  min_range = none;
  min_battery = none;
  sort = none;
  page = some page;
  per_page = some per_page;
}

module _ (p : Platform) where
  -- `summary`
  unfoldable pub summary : Dealer → Action DealerSummary
  summary d = do
    count ← count_documents p Collections.vehicles (is_stock_of d) none
    pure (record {
      id = d.id;
      slug = d.slug;
      name = d.name;
      verified = d.verified;
      city = get_or d.city "";
      logo_url = d.logo_url;
      vehicle_count = count;
    })

  unfoldable pub summaries : List Dealer → Action (List DealerSummary)
  summaries [] = pure []
  summaries (d ∷ ds) = do first ← summary d; rest ← summaries ds; pure (first ∷ rest)

  -- `list`, for a positive size of the pages
  unfoldable pub list : Sorting Dealer → ℕ → ℕ → Action (Page DealerSummary)
  list by_name page per_page = do
    rows ←
        find_many p Collections.dealers is_active
          (and_then (descending (λ d. flag_key d.verified)) by_name) ((page - 1) * per_page)
          per_page
    total ← count_documents p Collections.dealers is_active none
    items ← summaries rows
    pure (record {
      items = items;
      page = page;
      per_page = per_page;
      total = total;
      total_pages = total_pages total per_page;
    })

  abbrev profile_of : Option Dealer → Action Profile
  profile_of none = fail python_error
  profile_of (some d) = do
    listing ← summary d
    pure (record {
      listing = listing;
      description = get_or d.description "";
      address = get_or d.address "";
      phone = contact d d.phone;
      whatsapp = contact d d.whatsapp;
      website = non_empty d.website;
      established_year = non_zero d.established_year;
      cover_image_url = d.cover_image_url;
    })

  -- `get`
  unfoldable pub get : String → Action Profile
  get slug = do
    row ← find_one p Collections.dealers (λ d. d.slug == slug && is_active d)
    profile_of row

  abbrev stock_of : Search → ℤ → ℤ → Option Dealer → Action (Page Summary)
  stock_of text_search page per_page none = fail python_error
  stock_of text_search page per_page (some d) =
      Service.list p text_search (dealer_params page per_page d.id)

  -- `vehicles`
  unfoldable pub vehicles : Search → String → ℤ → ℤ → Action (Page Summary)
  vehicles text_search slug page per_page = do
    row ← find_one p Collections.dealers (λ d. d.slug == slug)
    stock_of text_search page per_page row
