-- ===== src/Tests/Catalog.antt =====
-- The theorems on the public queries at work on a sample catalogue.
use voltaris_mobility_backen.Prelude.{
  ◌≤◌, ◌<◌, ◌*◌, ◌-◌, ◌≡◌, refl, ◌⊎◌, true, false, none, some, [], ◌∷◌, arith,
}
use voltaris_mobility_backen.Core.Action.{State}
use voltaris_mobility_backen.Database.Rows.{IsIn}
use voltaris_mobility_backen.Dealers.Models.{Dealer}
use voltaris_mobility_backen.Vehicles.Models.{Vehicle}
use voltaris_mobility_backen.Vehicles.Filter.{Search, Params}
use voltaris_mobility_backen.Vehicles.Pages.{total_pages, total_pages_lem}
use voltaris_mobility_backen.Vehicles.Views.{summary, Seller, detail_of}
use voltaris_mobility_backen.Vehicles.Sound.{IsPublic, IsListing, list_lem}
use voltaris_mobility_backen.Vehicles.Details.{IsSeller, get_by_slug_lem}
use voltaris_mobility_backen.Vehicles.Comparison.{IsComparison, compare_lem}
use voltaris_mobility_backen.Database.Keys.{unsorted}
use voltaris_mobility_backen.Tests.Machine.{machine}
use voltaris_mobility_backen.Tests.Samples.{shop, leaf, opening}
use voltaris_mobility_backen.Tests.Witnesses.{shop-IsQuiet}

abbrev garage : Dealer
garage = record {
  id = "d1";
  slug = "garage";
  name = "Garage";
  status = "active";
  verified = true;
  city = none;
  logo_url = none;
  description = none;
  address = none;
  public_contact = false;
  phone = some "0788000000";
  whatsapp = none;
  website = none;
  established_year = none;
  cover_image_url = none;
}

abbrev ioniq : Vehicle
ioniq = record leaf {
  id = "v2";
  slug = "hyundai-ioniq";
  make = "Hyundai";
  make_slug = "hyundai";
  model = "Ioniq";
  dealer_id = some "d1";
}

abbrev catalogue : State
catalogue = record opening {
  db = record opening.db { vehicles = leaf ∷ ioniq ∷ []; dealers = garage ∷ [] };
}

abbrev text_search : Search
text_search = record {
  matches_prefix = λ prefix s. true;
  matches_text = λ q v. true;
  by_text_score = λ q. unsorted;
  times_0_7 = λ n. n;
  times_1_3 = λ n. n;
}

abbrev hyundais : Params
hyundais = record {
  q = none;
  make = some "hyundai";
  model = none;
  body = none;
  condition = none;
  location = none;
  verified = none;
  dealer_id = none;
  mode = none;
  min_price = none;
  max_price = none;
  min_year = none;
  max_year = none;
  max_mileage = none;
  min_range = none;
  min_battery = none;
  sort = none;
  page = none;
  per_page = none;
}

list_lem_example :
    IsListing shop text_search hyundais catalogue.db
      (record { items = summary ioniq ∷ []; page = 1; per_page = 24; total = 1; total_pages = 1 })
unfolding machine
list_lem_example = list_lem shop shop-IsQuiet text_search hyundais catalogue _ refl

get_by_slug_lem_example :
    (v : Vehicle) × IsIn catalogue.db.vehicles v
    × (v.slug ≡ "hyundai-ioniq")
    × IsPublic v
    × ((x : Seller) × IsSeller catalogue.db v x
        × (detail_of ioniq (Seller.dealer "Garage" "garage" true none none) ≡ detail_of v x))
unfolding machine
get_by_slug_lem_example =
    get_by_slug_lem shop shop-IsQuiet "hyundai-ioniq" catalogue
      (detail_of ioniq (Seller.dealer "Garage" "garage" true none none)) refl

compare_lem_example : IsComparison ("v2" ∷ "v9" ∷ "v1" ∷ []) catalogue.db (
    detail_of ioniq (Seller.dealer "Garage" "garage" true none none)
    ∷ detail_of leaf (Seller.private_seller "Private owner" true)
    ∷ [])
unfolding machine
compare_lem_example =
    compare_lem shop shop-IsQuiet ("v2" ∷ "v9" ∷ "v1" ∷ []) catalogue ((refl, tt), (tt, tt))
      (detail_of ioniq (Seller.dealer "Garage" "garage" true none none)
        ∷ detail_of leaf (Seller.private_seller "Private owner" true)
        ∷ [])
      refl

total_pages_lem_example :
    (1 ≤ total_pages 50 24)
    × (50 ≤ total_pages 50 24 * 24)
    × ((total_pages 50 24 ≡ 1) ⊎ ((total_pages 50 24 - 1) * 24 < 50))
total_pages_lem_example = total_pages_lem 50 24 (omega arith)
