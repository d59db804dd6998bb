-- ===== src/Content/Models.antt =====
-- The documents of app/modules/content/service.py and app/modules/charging/service.py. The
-- coordinates of a place are texts, which are only copied.
use voltaris_mobility_backen.Prelude.{ℕ, String, Bool, Option, List}

pub record Article : Type 0 where
  pub id : String
  pub slug : String
  pub kind : Option String
  pub status : String
  pub title : String
  pub excerpt : Option String
  pub category : Option String
  pub cover_image : Option String
  pub author : Option String
  pub reading_minutes : Option ℕ
  pub published_at : ℕ
  pub updated_at : ℕ
  pub body_html : Option String
  pub faqs : List String
  pub related_slugs : List String

-- A GeoJSON point: the longitude, then the latitude.
pub record Coordinates : Type 0 where
  pub longitude : String
  pub latitude : String

pub record ChargingLocation : Type 0 where
  pub id : String
  pub slug : String
  pub name : String
  pub operator : Option String
  pub district : Option String
  pub address : Option String
  pub location : Option Coordinates
  pub connectors : List String
  pub access : Option String
  pub open_hours : Option String
  pub verified_at : Option ℕ
  pub published : Bool
