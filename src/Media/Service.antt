-- ===== src/Media/Service.antt =====
-- `MediaService` of app/modules/media/service.py.
use Prim.Native.String.{◌++◌}
use voltaris_mobility_backen.Prelude.{
  ℕ, suc, ◌+◌, String, string_eq, ◌==◌, Bool, false, not, ltb, Option, none, some, List, [], ◌∷◌,
  length, if◌then◌else◌,
}
use voltaris_mobility_backen.Prelude.Int.{ℤ, pos}
use voltaris_mobility_backen.Prelude.Text.{str_ℕ, starts_with, prefix}
use voltaris_mobility_backen.Core.Errors.{app_error, python_error, invalid_request, forbidden}
use voltaris_mobility_backen.Core.Platform.{Platform}
use voltaris_mobility_backen.Core.Action.{
  Action, Result, ok, err, pure, fail, raise, or_raise, raise_if, ◌>>=◌, ◌>>◌, uuid4_hex, utc_now,
  find_one, insert_one, update_one,
}
use voltaris_mobility_backen.Core.Security.{non_empty}
use voltaris_mobility_backen.Database.Collections
use voltaris_mobility_backen.Audit.Models.{number}
use voltaris_mobility_backen.Audit.Service.{record_change}
use voltaris_mobility_backen.Media.Models.{Media, MediaStatus, ImageDocument, is_published}
use voltaris_mobility_backen.Media.Processor.{Bytes, Imaging, Processed, render_variants}
use voltaris_mobility_backen.Media.Storage.{
  ObjectStore, max_upload_bytes, token_urlsafe, create_upload_intent, download, put_public, delete,
}

abbrev pub max_photos_per_listing : ℕ
max_photos_per_listing = 12

-- An entry of `files`, as the service reads it
pub record FileClaim : Type 0 where
  pub content_type : String
  pub size_bytes : ℤ

-- What the client gets for a file
pub record Intent : Type 0 where
  pub upload_url : String
  pub media_key : String
  pub expires_at : ℕ

abbrev pub has_key : String → Media → Bool
has_key media_key x = x.media_key == media_key

-- `owner_id and record.get("owner_id") and record["owner_id"] != owner_id`
abbrev differs_from : String → Option String → Bool
differs_from owner none = false
differs_from owner (some other) = not (other == owner)

abbrev pub is_foreign : Option String → Option String → Bool
is_foreign none stored = false
is_foreign (some owner) stored = differs_from owner (non_empty stored)

module _ (p : Platform) (imaging : Imaging) (store : ObjectStore) where
  abbrev pub new_media : String → Option String → Option String → FileClaim → String → ℕ → Media
  new_media row_id owner_id listing_reference entry media_key now = record {
    id = row_id;
    media_key = media_key;
    owner_id = owner_id;
    listing_reference = listing_reference;
    declared_content_type = entry.content_type;
    declared_size = entry.size_bytes;
    status = MediaStatus.pending;
    image = none;
    created_at = now;
    published_at = none;
    reason = none;
    rejected_at = none;
  }

  unfoldable pub create_intent : Option String → Option String → FileClaim → Action Intent
  create_intent owner_id listing_reference entry = do
    intent ← create_upload_intent p store entry.content_type entry.size_bytes
    row_id ← uuid4_hex p
    now ← utc_now p
    insert_one p Collections.media
        (new_media row_id owner_id listing_reference entry intent.media_key now)
    pure (record {
      upload_url = intent.upload_url;
      media_key = intent.media_key;
      expires_at = intent.expires_at;
    })

  unfoldable pub each_intent : Option String → Option String → List FileClaim → Action (List Intent)
  each_intent owner_id listing_reference [] = pure []
  each_intent owner_id listing_reference (entry ∷ files) = do
    intent ← create_intent owner_id listing_reference entry
    intents ← each_intent owner_id listing_reference files
    pure (intent ∷ intents)

  -- `create_intents`
  unfoldable pub create_intents :
      Option String → List FileClaim → Option String → Action (List Intent)
  create_intents owner_id files listing_reference = do
    raise_if (ltb (length files) 1) invalid_request
    raise_if (ltb max_photos_per_listing (length files)) invalid_request
    each_intent owner_id listing_reference files

  -- `_reject`
  unfoldable pub reject : String → String → Action (Unit {0})
  reject media_key reason = do
    now ← utc_now p
    update_one p Collections.media (has_key media_key) (λ x. record x {
      status = MediaStatus.rejected;
      reason = some reason;
      rejected_at = some now;
    })
    delete p store media_key

  -- `except AppError: await self._reject(…); raise`
  abbrev pub rendered : String → Result Processed → Action Processed
  rendered media_key (ok processed) = pure processed
  rendered media_key (err (app_error e)) =
      reject media_key "failed validation or decoding" >> raise e
  rendered media_key (err e) = fail e

  -- The variants' addresses, and `as_document()`
  unfoldable pub put_variants : String → Processed → Action ImageDocument
  put_variants folder processed = do
    thumb ← put_public p store (folder ++ "/thumb.webp") processed.thumb "image/webp"
    card ← put_public p store (folder ++ "/card.webp") processed.card "image/webp"
    detail ← put_public p store (folder ++ "/detail.webp") processed.detail "image/webp"
    gallery ← put_public p store (folder ++ "/gallery.webp") processed.gallery "image/webp"
    pure (record {
      thumb = thumb;
      card = card;
      detail = detail;
      gallery = gallery;
      width = processed.width;
      height = processed.height;
      alt = processed.alt;
      blur_data_url = processed.blur_data_url;
    })

  -- From the decoded photo on
  unfoldable pub publish : String → Processed → Action ImageDocument
  publish media_key processed = do
    today ← utc_now p
    token ← token_urlsafe p store 16
    document ← put_variants ("vehicles/" ++ p.strftime "%Y/%m" today ++ "/" ++ token) processed
    now ← utc_now p
    update_one p Collections.media (has_key media_key) (λ x. record x {
      status = MediaStatus.published;
      image = some document;
      published_at = some now;
    })
    delete p store media_key
    pure document

  -- What the store holds under the key, unless it is larger than an upload may be
  unfoldable pub check_size : String → Bytes → Action (Unit {0})
  check_size media_key original =
      if ltb max_upload_bytes (length original)
      then reject media_key "larger than the declared size" >> raise invalid_request
      else pure tt

  unfoldable pub process : String → String → Action ImageDocument
  process media_key alt = do
    raise_if (not (starts_with "quarantine/" media_key)) invalid_request
    original ← download p store media_key
    check_size media_key original
    processed ← rendered media_key (render_variants imaging original alt)
    publish media_key processed

  -- `record["image"]`, which raises KeyError where it is missing
  abbrev pub stored_image : Option ImageDocument → Action ImageDocument
  stored_image none = fail python_error
  stored_image (some document) = pure document

  -- The body of the loop of `finalize`
  unfoldable pub finalize_one : Option String → String → String → Action ImageDocument
  finalize_one owner_id alt media_key = do
    row ← find_one p Collections.media (has_key media_key)
    x ← or_raise row invalid_request
    raise_if (is_foreign (non_empty owner_id) x.owner_id) forbidden
    if is_published x.status then stored_image x.image else process media_key alt

  unfoldable pub finalize_from :
      ℕ → Option String → String → List String → Action (List ImageDocument)
  finalize_from index owner_id alt_prefix [] = pure []
  finalize_from index owner_id alt_prefix (media_key ∷ media_keys) = do
    image ← finalize_one owner_id (alt_prefix ++ " — photo " ++ str_ℕ (index + 1)) media_key
    images ← finalize_from (suc index) owner_id alt_prefix media_keys
    pure (image ∷ images)

  -- `finalize`
  unfoldable pub finalize : List String → Option String → String → Action (List ImageDocument)
  finalize media_keys owner_id alt_prefix = do
    images ← finalize_from 0 owner_id alt_prefix media_keys
    record_change p (record {
      action = "media.published";
      entity_type = "media";
      entity_id = prefix 64 alt_prefix;
      actor_id = owner_id;
      before = none;
      after = some (("count", number (pos (length images))) ∷ []);
      ip = none;
    })
    pure images
