-- ===== src/Leads/Models.antt =====
-- The leads that app/modules/leads/service.py stores.
use voltaris_mobility_backen.Prelude.{ℕ, String, Option}

pub record Inquiry : Type 0 where
  pub id : String
  pub reference : String
  pub customer_id : Option String
  pub vehicle_id : Option String
  pub vehicle_title : Option String
  pub full_name : String
  pub email : String
  pub phone : String
  pub message : String
  pub preferred_channel : Option String
  pub topic : Option String
  pub source : String
  pub status : String
  pub assigned_to : Option String
  pub created_at : ℕ
  pub updated_at : ℕ

pub record TestDrive : Type 0 where
  pub id : String
  pub reference : String
  pub customer_id : Option String
  pub vehicle_id : String
  pub vehicle_slug : String
  pub vehicle_title : String
  pub full_name : String
  pub email : String
  pub phone : String
  pub preferred_date : String
  pub preferred_time_slot : String
  pub location_slug : String
  pub notes : Option String
  pub status : String
  pub scheduled_for : Option String
  pub assigned_to : Option String
  pub created_at : ℕ
  pub updated_at : ℕ
