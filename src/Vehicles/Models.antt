-- ===== src/Vehicles/Models.antt =====
-- app/modules/vehicles/models.py: the listing lifecycle and the stored vehicle. The attributes
-- that are only copied into a response (the charging data, the dimensions, the warranty, the
-- questions) are left out of the record; the battery's capacity is in watt-hours.
use voltaris_mobility_backen.Prelude.{ℕ, String, ◌≡◌, ◌↔◌, Eq, eqb, Bool, true, Option, List, arith}
use voltaris_mobility_backen.Prelude.Int.{ℤ}

pub data VehicleStatus : Type 0 where
  draft pending_review rejected available reserved sold unpublished : VehicleStatus

abbrev pub index : VehicleStatus → ℕ
index draft = 0
index pending_review = 1
index rejected = 2
index available = 3
index reserved = 4
index sold = 5
index unpublished = 6

pub status_beq_iff : (a b : VehicleStatus) → (eqb (index a) (index b) ≡ true) ↔ (a ≡ b)
status_beq_iff a b = ground arith

instance abbrev pub status_eq : Eq VehicleStatus
status_eq = record { beq = λ a b. eqb (index a) (index b); beq_iff = status_beq_iff }

pub record InternalFinancials : Type 0 where
  pub seller_expected_price : ℤ
  pub commission_bps : Option ℤ
  pub internal_notes : Option String
  pub acquisition_cost : Option ℤ

pub record Vehicle : Type 0 where
  pub id : String
  pub slug : String
  pub dealer_id : Option String
  pub owner_id : Option String
  pub make : String
  pub make_slug : String
  pub model : String
  pub variant : Option String
  pub year : ℤ
  pub body_type : String
  pub condition : String
  pub mileage_km : ℤ
  pub agency_price : Option ℤ
  pub currency : Option String
  pub rental_price_per_day : Option ℤ
  pub battery_kwh : ℤ
  pub range_km : ℤ
  pub power_kw : ℤ
  pub seats : ℤ
  pub doors : ℤ
  pub drivetrain : String
  pub description : String
  pub features : List String
  pub images : List String
  pub seller_display_name : Option String
  pub financing_available : Bool
  pub location_city : String
  pub location_slug : String
  pub status : VehicleStatus
  pub verified : Bool
  pub purchase_enabled : Bool
  pub rental_enabled : Bool
  pub test_drive_available : Bool
  pub internal : Option InternalFinancials
  pub version : ℕ
  pub published_at : Option ℕ
  pub created_at : ℕ
  pub updated_at : ℕ
  pub deleted_at : Option ℕ
