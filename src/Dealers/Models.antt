-- ===== src/Dealers/Models.antt =====
-- The documents of the dealer directory, as app/modules/dealers/service.py reads them. A key that
-- a document may lack is an `Option`.
use voltaris_mobility_backen.Prelude.{String, Bool, Option}
use voltaris_mobility_backen.Prelude.Int.{ℤ}

pub record Dealer : Type 0 where
  pub id : String
  pub slug : String
  pub name : String
  pub status : String
  pub verified : Bool
  pub city : Option String
  pub logo_url : Option String
  pub description : Option String
  pub address : Option String
  pub public_contact : Bool
  pub phone : Option String
  pub whatsapp : Option String
  pub website : Option String
  pub established_year : Option ℤ
  pub cover_image_url : Option String
