-- ===== src/Content/Service.antt =====
-- `ContentService` of app/modules/content/service.py and `ChargingService` of
-- app/modules/charging/service.py.
use voltaris_mobility_backen.Prelude.{
  ℕ, ◌-◌, ◌*◌, String, string_eq, option_eq, ◌==◌, Bool, true, not, ◌&&◌, get_or, Option, none,
  some, List, [], ◌∷◌, map, contains, length,
}
use voltaris_mobility_backen.Core.Errors.{invalid_request, vehicle_not_found}
use voltaris_mobility_backen.Core.Platform.{Platform}
use voltaris_mobility_backen.Core.Action.{
  Action, pure, or_raise, raise_if, ◌>>=◌, ◌>>◌, find_one, find_many, count_documents,
}
use voltaris_mobility_backen.Core.Security.{non_empty}
use voltaris_mobility_backen.Database.Collections
use voltaris_mobility_backen.Database.Reads.{Sorting}
use voltaris_mobility_backen.Database.Keys.{descending, and_then, time_key}
use voltaris_mobility_backen.Vehicles.Filter.{where_given}
use voltaris_mobility_backen.Vehicles.Pages.{total_pages}
use voltaris_mobility_backen.Vehicles.Service.{Page}
use voltaris_mobility_backen.Content.Models.{Article, Coordinates, ChargingLocation}

abbrev pub published : String
published = "published"

abbrev pub kinds : List String
kinds = "guide" ∷ "blog" ∷ []

pub record ArticleSummary : Type 0 where
  pub slug : String
  pub kind : String
  pub title : String
  pub excerpt : String
  pub category : String
  pub cover_image : Option String
  pub author : String
  pub reading_minutes : ℕ
  pub published_at : ℕ
  pub updated_at : ℕ

-- `summary`
unfoldable pub summary : Article → ArticleSummary
summary x = record {
  slug = x.slug;
  kind = get_or x.kind "guide";
  title = x.title;
  excerpt = get_or x.excerpt "";
  category = get_or x.category "insights";
  cover_image = x.cover_image;
  author = get_or x.author "Voltaris";
  reading_minutes = get_or x.reading_minutes 3;
  published_at = x.published_at;
  updated_at = x.updated_at;
}

pub record ArticlePage : Type 0 where
  pub listing : ArticleSummary
  pub body_html : String
  pub faqs : List String
  pub related_slugs : List String

abbrev pub is_article : Option String → Option String → Article → Bool
is_article kind category x =
    x.status == published
    && where_given (non_empty kind) (λ k. x.kind == some k)
    && where_given (non_empty category) (λ c. x.category == some c)

abbrev known_kind : Option String → Bool
known_kind none = true
known_kind (some kind) = contains kinds kind

pub record Charger : Type 0 where
  pub id : String
  pub slug : String
  pub name : String
  pub operator : String
  pub district : String
  pub address : String
  pub latitude : String
  pub longitude : String
  pub connectors : List String
  pub access : String
  pub open_hours : String
  pub verified_at : Option ℕ

-- A place without coordinates is answered at 0, 0.
abbrev longitude_of : Option Coordinates → String
longitude_of none = "0"
longitude_of (some c) = c.longitude

abbrev latitude_of : Option Coordinates → String
latitude_of none = "0"
latitude_of (some c) = c.latitude

unfoldable pub charger : ChargingLocation → Charger
charger x = record {
  id = x.id;
  slug = x.slug;
  name = x.name;
  operator = get_or x.operator "";
  district = get_or x.district "";
  address = get_or x.address "";
  latitude = latitude_of x.location;
  longitude = longitude_of x.location;
  connectors = x.connectors;
  access = get_or x.access "public";
  open_hours = get_or x.open_hours "";
  verified_at = x.verified_at;
}

abbrev pub is_charger : Option String → ChargingLocation → Bool
is_charger district x = x.published && where_given (non_empty district) (λ d. x.district == some d)

module _ (p : Platform) where
  -- `ContentService.list`, for a positive size of the pages
  unfoldable pub list : Option String → Option String → ℕ → ℕ → Action (Page ArticleSummary)
  list kind category page per_page = do
    raise_if (not (known_kind (non_empty kind))) invalid_request
    rows ←
        find_many p Collections.articles (is_article kind category)
          (descending (λ x. time_key (some x.published_at))) ((page - 1) * per_page) per_page
    total ← count_documents p Collections.articles (is_article kind category) none
    pure (record {
      items = map summary rows;
      page = page;
      per_page = per_page;
      total = total;
      total_pages = total_pages total per_page;
    })

  -- `ContentService.get`
  unfoldable pub get : String → Action ArticlePage
  get slug = do
    row ← find_one p Collections.articles (λ x. x.slug == slug && x.status == published)
    x ← or_raise row vehicle_not_found
    pure (record {
      listing = summary x;
      body_html = get_or x.body_html "";
      faqs = x.faqs;
      related_slugs = x.related_slugs;
    })

  -- `ContentService.sitemap`
  unfoldable pub sitemap : Option String → Action (Page (String × ℕ))
  sitemap kind = do
    rows ←
        find_many p Collections.articles (is_article kind none)
          (descending (λ x. time_key (some x.updated_at))) 0 5000
    pure (record {
      items = map (λ x. (x.slug, x.updated_at)) rows;
      page = 1;
      per_page = 5000;
      total = length rows;
      total_pages = 1;
    })

  -- `ChargingService.list`, in the server's order of the districts and of the names
  unfoldable pub chargers :
      Sorting ChargingLocation → Sorting ChargingLocation → Option String → Action (Page Charger)
  chargers by_district by_name district = do
    rows ←
        find_many p Collections.charging_locations (is_charger district)
          (and_then by_district by_name) 0 500
    pure (record {
      items = map charger rows;
      page = 1;
      per_page = length rows;
      total = length rows;
      total_pages = 1;
    })
