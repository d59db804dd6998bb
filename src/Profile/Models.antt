-- ===== src/Profile/Models.antt =====
-- The documents of the account area: app/modules/users/profile_service.py.
use voltaris_mobility_backen.Prelude.{ℕ, String, Bool, Option}

pub record SavedVehicle : Type 0 where
  pub id : String
  pub user_id : String
  pub vehicle_id : String
  pub created_at : ℕ

pub record SavedSearch : Type 0 where
  pub id : String
  pub user_id : String
  pub label : String
  pub query : String
  pub alerts_enabled : Bool
  pub created_at : ℕ

pub record Notification : Type 0 where
  pub id : String
  pub user_id : String
  pub title : String
  pub body : Option String
  pub is_read : Bool
  pub created_at : ℕ
  pub href : Option String
