-- ===== src/Vehicles/Service.antt =====
-- The public queries of `VehicleService`: app/modules/vehicles/service.py.
use voltaris_mobility_backen.Prelude.{
  ℕ, ◌*◌, ◌-◌, ◌+◌, String, string_eq, ◌==◌, Bool, true, not, ◌&&◌, ◌||◌, eqb, ltb, get_or, Option,
  none, some, List, [], ◌∷◌, map, contains, length, take, if◌then◌else◌, option_eq,
}
use voltaris_mobility_backen.Prelude.Int.{ℤ, pos, int_eq, ◌-ℤ◌, pos_part, neg_part}
use voltaris_mobility_backen.Core.Errors.{vehicle_not_found, invalid_request}
use voltaris_mobility_backen.Core.Platform.{Platform}
use voltaris_mobility_backen.Core.Action.{
  Action, pure, or_raise, raise_if, ◌>>=◌, ◌>>◌, find_one, find_many, count_documents,
}
use voltaris_mobility_backen.Core.Security.{non_empty}
use voltaris_mobility_backen.Database.Collections
use voltaris_mobility_backen.Database.Keys.{ascending, descending, unsorted, time_key}
use voltaris_mobility_backen.Database.Sorting.{sort}
use voltaris_mobility_backen.Dealers.Models.{Dealer}
use voltaris_mobility_backen.Vehicles.Models.{Vehicle, status_eq}
use voltaris_mobility_backen.Vehicles.Filter.{
  Search, Params, filter, sorting_of, is_public, visible, public_status, between,
}
use voltaris_mobility_backen.Vehicles.Pages.{page_of, per_page_of, total_pages}
use voltaris_mobility_backen.Vehicles.Views.{
  Summary, summary, Seller, dealer_seller, private_view, Detail, detail_of,
}

-- A page of a listing.
pub record Page (A : Type 0) : Type 0 where
  pub items : List A
  pub page : ℕ
  pub per_page : ℕ
  pub total : ℕ
  pub total_pages : ℕ

pub record SitemapEntry : Type 0 where
  pub slug : String
  pub updated_at : ℕ
  pub status : String

abbrev sitemap_entry : Vehicle → SitemapEntry
sitemap_entry v = record {
  slug = v.slug;
  updated_at = v.updated_at;
  status = public_status v.status;
}

-- `{row["_id"]: row for row in rows}.get(id)`: the last row of an id counts.
abbrev pub by_id : String → List Vehicle → Option Vehicle
by_id id [] = none
by_id id (row ∷ rows) = elim (by_id id rows) [
  | some later ↦ some later
  | none ↦ if row.id == id then some row else none
]

-- `[by_id[i] for i in ids if i in by_id]`
abbrev pub in_order : List String → List Vehicle → List Vehicle
in_order [] rows = []
in_order (id ∷ ids) rows =
    let rest = in_order ids rows in elim (by_id id rows) [ none ↦ rest | some v ↦ v ∷ rest ]

-- The query of `compare`, without the condition on `deleted_at` that the other queries have.
abbrev pub is_compared : List String → Vehicle → Bool
is_compared ids v = contains ids v.id && contains visible v.status

-- A price of 0 is as good as none.
abbrev price_of : Vehicle → ℤ
price_of v = get_or v.agency_price (pos 0)

abbrev comparable_price : Search → ℤ → Vehicle → Bool
comparable_price text_search price v =
    if price == pos 0
    then true
    else between (some (text_search.times_0_7 price)) (some (text_search.times_1_3 price))
        v.agency_price

abbrev pub is_similar : Search → Vehicle → Vehicle → Bool
is_similar text_search base v =
    not (v.id == base.id)
    && is_public v
    && v.body_type == base.body_type
    && comparable_price text_search (price_of base) v

-- `abs(price - base price)`
abbrev distance : Vehicle → Vehicle → Option ℤ
distance base v = let d = price_of v -ℤ price_of base in some (pos (pos_part d + neg_part d))

abbrev pub seller_of : Vehicle → Option Dealer → Seller
seller_of v none = private_view v
seller_of v (some d) = dealer_seller d

module _ (p : Platform) where
  -- `list`
  unfoldable pub list : Search → Params → Action (Page Summary)
  list text_search params =
      let page = page_of params.page in
      let per_page = per_page_of params.per_page in
      do
        rows ←
            find_many p Collections.vehicles (filter p text_search params)
              (sorting_of text_search params) ((page - 1) * per_page) per_page
        total ← count_documents p Collections.vehicles (filter p text_search params) (some 10000)
        pure (record {
          items = map summary rows;
          page = page;
          per_page = per_page;
          total = total;
          total_pages = total_pages total per_page;
        })

  abbrev pub dealer_row : Option String → Action (Option Dealer)
  dealer_row none = pure none
  dealer_row (some id) = find_one p Collections.dealers (λ d. d.id == id)

  -- `_seller`
  unfoldable pub seller : Vehicle → Action Seller
  seller v = do row ← dealer_row (non_empty v.dealer_id); pure (seller_of v row)

  -- `detail`
  unfoldable pub detail : Vehicle → Action Detail
  detail v = do s ← seller v; pure (detail_of v s)

  -- `get_by_slug`
  unfoldable pub get_by_slug : String → Action Detail
  get_by_slug slug = do
    row ← find_one p Collections.vehicles (λ v. v.slug == slug && is_public v)
    v ← or_raise row vehicle_not_found
    detail v

  unfoldable pub similar_to : Search → ℕ → Vehicle → Action (List Summary)
  similar_to text_search limit base = do
    rows ← find_many p Collections.vehicles (is_similar text_search base) unsorted 0 (limit * 2)
    pure (map summary (take limit (sort (ascending (distance base)) rows)))

  abbrev similar_found : Search → ℕ → Option Vehicle → Action (List Summary)
  similar_found text_search limit none = pure []
  similar_found text_search limit (some base) = similar_to text_search limit base

  -- `similar`, for a positive limit
  unfoldable pub similar : Search → String → ℕ → Action (List Summary)
  similar text_search vehicle_id limit = do
    base ← find_one p Collections.vehicles (λ v. v.id == vehicle_id)
    similar_found text_search limit base

  unfoldable pub details : List Vehicle → Action (List Detail)
  details [] = pure []
  details (v ∷ vs) = do d ← detail v; rest ← details vs; pure (d ∷ rest)

  -- `compare`
  unfoldable pub compare : List String → Action (List Detail)
  compare ids = do
    raise_if (eqb (length ids) 0 || ltb 4 (length ids)) invalid_request
    rows ← find_many p Collections.vehicles (is_compared ids) unsorted 0 4
    details (in_order ids rows)

  -- `sitemap`, for a positive size of the pages
  unfoldable pub sitemap : ℕ → ℕ → Action (Page SitemapEntry)
  sitemap page per_page = do
    rows ←
        find_many p Collections.vehicles is_public (descending (λ v. time_key (some v.updated_at)))
          ((page - 1) * per_page) per_page
    total ← count_documents p Collections.vehicles is_public none
    pure (record {
      items = map sitemap_entry rows;
      page = page;
      per_page = per_page;
      total = total;
      total_pages = total_pages total per_page;
    })
