-- ===== src/Vehicles/Sound.antt =====
-- What the public vehicle queries show: app/modules/vehicles/service.py.
use voltaris_mobility_backen.Prelude.{
  ℕ, suc, ◌≤◌, ◌<◌, ◌*◌, ◌-◌, string_eq, option_eq, ◌≡◌, refl, sym, ap, ◌∙◌, subst, true, not, ◌⊎◌,
  and-true, is_some, Option, none, some, List, [], ◌∷◌, map, length, contains, All,
}
use voltaris_mobility_backen.Core.Platform.{Platform, IsQuiet}
use voltaris_mobility_backen.Core.Action.{ok, State}
use voltaris_mobility_backen.Core.Returns.{Returns, IsQuiet-Stable, Returns-pure}
use voltaris_mobility_backen.Core.Many.{Returns-find_many, Returns-count_documents}
use voltaris_mobility_backen.Database.Reads.{ReadLaw, select, counted}
use voltaris_mobility_backen.Database.Rows.{IsIn, rows-All, rows-length}
use voltaris_mobility_backen.Database.Collections
use voltaris_mobility_backen.Database.Collections.{Db}
use voltaris_mobility_backen.Vehicles.Models.{Vehicle, status_eq}
use voltaris_mobility_backen.Vehicles.Filter.{
  Search, Params, asked_for, filter, sorting_of, is_public, visible,
}
use voltaris_mobility_backen.Vehicles.Pages.{
  IsPage, IsSize, page_of-IsPage, per_page_of-IsSize, page_of, per_page_of, per_page_of-bounds,
  page_of-positive, total_pages_lem,
}
use voltaris_mobility_backen.Vehicles.Views.{Summary, summary}
use voltaris_mobility_backen.Vehicles.Service.{Page, list}

-- A vehicle that the public may see.
abbrev pub IsPublic : Vehicle → Type 0
IsPublic v = (contains visible v.status ≡ true) × (v.deleted_at ≡ none)

pub is_public_lem : (v : Vehicle) → is_public v ≡ true → IsPublic v
is_public_lem v h =
    let (shown, kept) = and-true (contains visible v.status) _ h in
    (shown, absent v.deleted_at kept)
  where
    absent : (o : Option ℕ) → not (is_some o) ≡ true → o ≡ none
    absent none h = refl
    absent (some t) h = absurd (cc (h))

module _ {A B : Type 0} (P : A → Type 0) (f : A → B) where
  -- Each of the results is that of some `a` with `P`.
  abbrev pub IsImage : B → Type 0
  IsImage b = (a : A) × P a × (b ≡ f a)

  pub All-IsImage : (xs : List A) → All P xs → All IsImage (map f xs)
  All-IsImage [] h = tt
  All-IsImage (x ∷ xs) h = ((x, h.0, refl), All-IsImage xs h.1)

pub length-map {ℓ κ} :
    {A : Type ℓ} {B : Type κ} (f : A → B) (xs : List A) → length (map f xs) ≡ length xs
length-map f [] = refl
length-map f (x ∷ xs) = ap (λ n. suc n) (length-map f xs)

-- What a listing answers with: the asked part of all matches in the asked order, each of which is
-- public, and how many there are.
pub record IsListing (p : Platform) (text_search : Search) (params : Params) (db : Db)
    (page : Page Summary) : Type 0 where
  pub rows : List Vehicle
  pub read :
      ReadLaw
        (filter p text_search params)
        (sorting_of text_search params)
        ((page.page - 1) * page.per_page)
        page.per_page
        db.vehicles
        rows
  pub shown : page.items ≡ map summary rows
  pub all_public : All (IsImage (λ v. IsIn db.vehicles v × IsPublic v) summary) page.items
  pub size : length page.items ≤ page.per_page
  pub asked_page : IsPage params.page page.page
  pub asked_size : IsSize params.per_page page.per_page
  pub first_page : 1 ≤ page.page
  pub per_page_bounds : (1 ≤ page.per_page) × (page.per_page ≤ 48)
  pub counts :
      page.total ≡ counted (some 10000) (length (select (filter p text_search params) db.vehicles))
  pub pages :
      (1 ≤ page.total_pages)
      × (page.total ≤ page.total_pages * page.per_page)
      × ((page.total_pages ≡ 1) ⊎ ((page.total_pages - 1) * page.per_page < page.total))

-- The vehicles and the dealers are as they were.
abbrev pub SameShop : Db → Db → Type 0
SameShop before db = (db.vehicles ≡ before.vehicles) × (db.dealers ≡ before.dealers)

filter-IsPublic :
    (p : Platform) (text_search : Search) (params : Params) (v : Vehicle)
    → filter p text_search params v ≡ true
    → IsPublic v
unfolding filter
filter-IsPublic p text_search params v h =
    is_public_lem v (and-true (is_public v) (asked_for p text_search params v) h).0

module _ (p : Platform) (quiet : IsQuiet p) (before : Db) where
  list-Returns :
      (text_search : Search) (params : Params)
      → Returns
          (SameShop before)
          (list p text_search params)
          (IsListing p text_search params before)
  unfolding list
  list-Returns text_search params =
      Returns-find_many p Collections.vehicles (IsQuiet-Stable (SameShop before) quiet) _ _ _ _ _
        (λ db rows same law.
          Returns-count_documents p Collections.vehicles (IsQuiet-Stable (SameShop before) quiet) _
            _ _
            (λ db' total same' counts. Returns-pure _ (
              let here =
                subst
                  (λ vs.
                    ReadLaw (filter p text_search params) (sorting_of text_search params)
                      ((page_of params.page - 1) * per_page_of params.per_page)
                      (per_page_of params.per_page) vs rows)
                  same.0 law in
              let bounds = per_page_of-bounds params.per_page in
              record {
                rows = rows;
                read = here;
                shown = refl;
                all_public =
                    All-IsImage (λ v. IsIn before.vehicles v × IsPublic v) summary rows
                      (rows-All here _ (λ v m. (m.1, filter-IsPublic p text_search params v m.0)));
                size =
                    subst (λ n. n ≤ per_page_of params.per_page) (sym (length-map summary rows))
                      (rows-length here bounds.0);
                asked_page = page_of-IsPage params.page;
                asked_size = per_page_of-IsSize params.per_page;
                first_page = page_of-positive params.page;
                per_page_bounds = bounds;
                counts =
                    counts
                    ∙ ap
                        (λ vs.
                          counted (some 10000) (length (select (filter p text_search params) vs)))
                        same'.0;
                pages = total_pages_lem total (per_page_of params.per_page) bounds.0;
              })))

-- Alone on the database, a listing answers with the page of the asked number and size, the first one
-- and 24 places where the request names none, of exactly the stored vehicles that meet the filter, in
-- the order of `sorting_of`; each of them has a public status and is not deleted, a page has one to
-- 48 places and no more items, and the number of pages is the total rounded up.
pub list_lem :
    (p : Platform)
    → IsQuiet p
    → (text_search : Search) (params : Params) (s : State) (page : Page Summary)
    → (list p text_search params s).0 ≡ ok page
    → IsListing p text_search params s.db page
list_lem p quiet text_search params s page e =
    (list-Returns p quiet s.db text_search params).at s (refl, refl) page e
