-- ===== src/Vehicles/Views.antt =====
-- The public responses of `VehicleService`: app/modules/vehicles/service.py. No response has a part
-- of `internal`. A time is answered as it is stored.
use voltaris_mobility_backen.Prelude.{
  ℕ, String, Bool, true, false, get_or, Option, none, some, List, [], ◌∷◌,
}
use voltaris_mobility_backen.Prelude.Int.{ℤ}
use voltaris_mobility_backen.Core.Security.{non_empty}
use voltaris_mobility_backen.Dealers.Models.{Dealer}
use voltaris_mobility_backen.Vehicles.Models.{Vehicle}
use voltaris_mobility_backen.Vehicles.Filter.{public_status}

pub record Summary : Type 0 where
  pub id : String
  pub slug : String
  pub make : String
  pub model : String
  pub variant : Option String
  pub year : ℤ
  pub price : Option ℤ
  pub currency : String
  pub rental_price_per_day : Option ℤ
  pub mileage_km : ℤ
  pub battery_kwh : ℤ
  pub range_km : ℤ
  pub body_type : String
  pub condition : String
  pub location_city : String
  pub location_slug : String
  pub listing_mode : String
  pub status : String
  pub verified : Bool
  pub primary_image : Option String
  pub published_at : ℕ

abbrev pub listing_mode : Bool → Bool → String
listing_mode true true = "sale_and_rental"
listing_mode false true = "rental"
listing_mode purchase_enabled false = "sale"

abbrev pub first_of : List String → Option String
first_of [] = none
first_of (x ∷ xs) = some x

-- `summary`
unfoldable pub summary : Vehicle → Summary
summary v = record {
  id = v.id;
  slug = v.slug;
  make = v.make;
  model = v.model;
  variant = v.variant;
  year = v.year;
  price = v.agency_price;
  currency = get_or v.currency "RWF";
  rental_price_per_day = v.rental_price_per_day;
  mileage_km = v.mileage_km;
  battery_kwh = v.battery_kwh;
  range_km = v.range_km;
  body_type = v.body_type;
  condition = v.condition;
  location_city = v.location_city;
  location_slug = v.location_slug;
  listing_mode = listing_mode v.purchase_enabled v.rental_enabled;
  status = public_status v.status;
  verified = v.verified;
  primary_image = first_of v.images;
  published_at = get_or v.published_at v.created_at;
}

-- The seller of a page; a key that the response leaves out is `none`.
pub data Seller : Type 0 where
  dealer : String → String → Bool → Option String → Option String → Seller
  private_seller : String → Bool → Seller

abbrev pub contact : Dealer → Option String → Option String
contact d value = elim d.public_contact [ true ↦ non_empty value | false ↦ none ]

abbrev pub dealer_seller : Dealer → Seller
dealer_seller d = dealer d.name d.slug d.verified (contact d d.phone) (contact d d.whatsapp)

abbrev pub private_view : Vehicle → Seller
private_view v =
    private_seller (get_or (non_empty v.seller_display_name) "Private owner") v.verified

pub record Detail : Type 0 where
  pub listing : Summary
  pub description : String
  pub images : List String
  pub seller : Seller
  pub drivetrain : String
  pub power_kw : ℤ
  pub seats : ℤ
  pub doors : ℤ
  pub features : List String
  pub financing_available : Bool
  pub test_drive_available : Bool
  pub purchase_enabled : Bool
  pub rental_enabled : Bool
  pub updated_at : ℕ

unfoldable pub detail_of : Vehicle → Seller → Detail
unfolding summary
detail_of v seller = record {
  listing = summary v;
  description = v.description;
  images = v.images;
  seller = seller;
  drivetrain = v.drivetrain;
  power_kw = v.power_kw;
  seats = v.seats;
  doors = v.doors;
  features = v.features;
  financing_available = v.financing_available;
  test_drive_available = v.test_drive_available;
  purchase_enabled = v.purchase_enabled;
  rental_enabled = v.rental_enabled;
  updated_at = v.updated_at;
}
