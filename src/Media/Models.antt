-- ===== src/Media/Models.antt =====
-- The document of an upload: `create_intents`, `finalize` and `_reject` of
-- app/modules/media/service.py.
use voltaris_mobility_backen.Prelude.{ℕ, String, Bool, true, false, Option}
use voltaris_mobility_backen.Prelude.Int.{ℤ}

pub data MediaStatus : Type 0 where
  pending published rejected : MediaStatus

-- `ProcessedImage.as_document()`
pub record ImageDocument : Type 0 where
  pub thumb : String
  pub card : String
  pub detail : String
  pub gallery : String
  pub width : ℕ
  pub height : ℕ
  pub alt : String
  pub blur_data_url : String

-- `image`, `published_at`, `reason` and `rejected_at` are set later.
pub record Media : Type 0 where
  pub id : String
  pub media_key : String
  pub owner_id : Option String
  pub listing_reference : Option String
  pub declared_content_type : String
  pub declared_size : ℤ
  pub status : MediaStatus
  pub image : Option ImageDocument
  pub created_at : ℕ
  pub published_at : Option ℕ
  pub reason : Option String
  pub rejected_at : Option ℕ

abbrev pub is_published : MediaStatus → Bool
is_published published = true
is_published _ = false
