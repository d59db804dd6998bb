-- ===== src/Profile/Service.antt =====
-- `ProfileService` of app/modules/users/profile_service.py.
use voltaris_mobility_backen.Prelude.{
  ℕ, String, string_eq, option_eq, ◌==◌, Bool, true, ◌&&◌, eqb, leb, get_or, Option, none, some,
  List, [], ◌∷◌, map, length,
}
use voltaris_mobility_backen.Prelude.Int.{ℤ, pos}
use voltaris_mobility_backen.Core.Errors.{vehicle_not_found, invalid_request}
use voltaris_mobility_backen.Core.Platform.{Platform}
use voltaris_mobility_backen.Core.Action.{
  Action, pure, raise_if, ◌>>=◌, ◌>>◌, uuid4_hex, utc_now, find_one, insert_one, upsert_one,
  delete_one, find_many, count_documents,
}
use voltaris_mobility_backen.Core.Security.{non_empty}
use voltaris_mobility_backen.Database.Collections
use voltaris_mobility_backen.Database.Keys.{descending, unsorted, time_key}
use voltaris_mobility_backen.Vehicles.Models.{Vehicle}
use voltaris_mobility_backen.Vehicles.Views.{Summary, summary, first_of}
use voltaris_mobility_backen.Vehicles.Service.{Page, in_order, is_compared}
use voltaris_mobility_backen.Leads.Models.{Inquiry}
use voltaris_mobility_backen.Profile.Models.{SavedVehicle, SavedSearch, Notification}

abbrev pub max_saved_searches : ℕ
max_saved_searches = 25

-- The answer of one page with all items.
abbrev pub whole : {A : Type 0} → List A → Page A
whole items = record {
  items = items;
  page = 1;
  per_page = length items;
  total = length items;
  total_pages = 1;
}

abbrev pub is_save : String → String → SavedVehicle → Bool
is_save user_id vehicle_id x = x.user_id == user_id && x.vehicle_id == vehicle_id

abbrev pub is_search_of : String → SavedSearch → Bool
is_search_of user_id x = x.user_id == user_id

abbrev pub search_row : String → String → String → String → ℕ → SavedSearch
search_row id user_id label query now = record {
  id = id;
  user_id = user_id;
  label = label;
  query = query;
  alerts_enabled = true;
  created_at = now;
}

-- The vehicle of an enquiry, with empty values where it is gone.
pub record LeadVehicle : Type 0 where
  pub id : String
  pub slug : String
  pub make : String
  pub model : String
  pub year : ℤ
  pub primary_image : Option String

pub record InquiryItem : Type 0 where
  pub reference : String
  pub vehicle : LeadVehicle
  pub status : String
  pub created_at : ℕ

abbrev lead_vehicle : Option String → Option Vehicle → LeadVehicle
lead_vehicle vehicle_id none = record {
  id = get_or vehicle_id "";
  slug = "";
  make = "";
  model = "";
  year = pos 0;
  primary_image = none;
}
lead_vehicle vehicle_id (some v) = record {
  id = get_or vehicle_id "";
  slug = v.slug;
  make = v.make;
  model = v.model;
  year = v.year;
  primary_image = first_of v.images;
}

pub record NotificationItem : Type 0 where
  pub id : String
  pub title : String
  pub body : String
  pub is_read : Bool
  pub created_at : ℕ
  pub href : Option String

abbrev notification_item : Notification → NotificationItem
notification_item x = record {
  id = x.id;
  title = x.title;
  body = get_or x.body "";
  is_read = x.is_read;
  created_at = x.created_at;
  href = non_empty x.href;
}

module _ (p : Platform) where
  abbrev saved_found : List String → Action (Page Summary)
  saved_found [] = pure (record { items = []; page = 1; per_page = 0; total = 0; total_pages = 1 })
  saved_found (id ∷ ids) = do
    rows ← find_many p Collections.vehicles (is_compared (id ∷ ids)) unsorted 0 200
    pure (whole (map summary (in_order (id ∷ ids) rows)))

  -- `saved_vehicles`
  unfoldable pub saved_vehicles : String → Action (Page Summary)
  saved_vehicles user_id = do
    saves ←
        find_many p Collections.saved_vehicles (λ x. x.user_id == user_id)
          (descending (λ x. time_key (some x.created_at))) 0 200
    saved_found (map (λ x. x.vehicle_id) saves)

  -- `save_vehicle`: `$setOnInsert` leaves an existing row as it is.
  unfoldable pub save_vehicle : String → String → Action (Unit {0})
  save_vehicle user_id vehicle_id = do
    exists ← count_documents p Collections.vehicles (λ v. v.id == vehicle_id) (some 1)
    raise_if (eqb exists 0) vehicle_not_found
    id ← uuid4_hex p
    now ← utc_now p
    upsert_one p Collections.saved_vehicles (is_save user_id vehicle_id) (λ x. x)
        (record { id = id; user_id = user_id; vehicle_id = vehicle_id; created_at = now })

  -- `unsave_vehicle`
  unfoldable pub unsave_vehicle : String → String → Action (Unit {0})
  unsave_vehicle user_id vehicle_id = do
    delete_one p Collections.saved_vehicles (is_save user_id vehicle_id)
    pure tt

  -- `saved_searches`, whose items are the rows without their owner
  unfoldable pub saved_searches : String → Action (List SavedSearch)
  saved_searches user_id =
      find_many p Collections.saved_searches (is_search_of user_id)
        (descending (λ x. time_key (some x.created_at))) 0 max_saved_searches

  -- `create_saved_search`
  unfoldable pub create_saved_search : String → String → String → Action SavedSearch
  create_saved_search user_id label query = do
    count ← count_documents p Collections.saved_searches (is_search_of user_id) none
    raise_if (leb max_saved_searches count) invalid_request
    id ← uuid4_hex p
    now ← utc_now p
    insert_one p Collections.saved_searches (search_row id user_id label query now)
    pure (search_row id user_id label query now)

  -- `delete_saved_search`
  unfoldable pub delete_saved_search : String → String → Action (Unit {0})
  delete_saved_search user_id search_id = do
    delete_one p Collections.saved_searches (λ x. x.id == search_id && x.user_id == user_id)
    pure tt

  abbrev inquiry_vehicle : Option String → Action (Option Vehicle)
  inquiry_vehicle none = pure none
  inquiry_vehicle (some vehicle_id) = find_one p Collections.vehicles (λ v. v.id == vehicle_id)

  unfoldable pub inquiry_items : List Inquiry → Action (List InquiryItem)
  inquiry_items [] = pure []
  inquiry_items (row ∷ rows) = do
    vehicle ← inquiry_vehicle (non_empty row.vehicle_id)
    rest ← inquiry_items rows
    pure (
        record {
          reference = row.reference;
          vehicle = lead_vehicle row.vehicle_id vehicle;
          status = p.lower row.status;
          created_at = row.created_at;
        }
        ∷ rest)

  -- `inquiries`
  unfoldable pub inquiries : String → Action (Page InquiryItem)
  inquiries user_id = do
    rows ←
        find_many p Collections.inquiries (λ x. x.customer_id == some user_id)
          (descending (λ x. time_key (some x.created_at))) 0 100
    items ← inquiry_items rows
    pure (whole items)

  -- `notifications`
  unfoldable pub notifications : String → Action (Page NotificationItem)
  notifications user_id = do
    rows ←
        find_many p Collections.notifications (λ x. x.user_id == user_id)
          (descending (λ x. time_key (some x.created_at))) 0 100
    pure (whole (map notification_item rows))
