-- ===== src/Media/Storage.antt =====
-- app/infrastructure/storage/r2.py over the client of the object store, which is a parameter. The
-- client's calls are not awaited, so that no other request runs meanwhile.
use Prim.Native.Char.{code}
use Prim.Native.String.{◌++◌}
use voltaris_mobility_backen.Prelude.{
  ℕ, suc, String, string_eq, ◌==◌, eqb, Bool, not, ◌&&◌, List, [], ◌∷◌, contains, if◌then◌else◌,
}
use voltaris_mobility_backen.Prelude.Int.{ℤ, pos, leb_ℤ}
use voltaris_mobility_backen.Core.Errors.{not_configured, invalid_request}
use voltaris_mobility_backen.Core.Platform.{Platform, Reply}
use voltaris_mobility_backen.Core.Action.{
  Action, ok, pure, raise_if, from_reply, ◌>>=◌, ◌>>◌, utc_now,
}
use voltaris_mobility_backen.Media.Processor.{Bytes}

-- The settings of the store and the calls of its client. The `ℕ` in front is the number of the call.
pub record ObjectStore : Type 0 where
  pub account_id : String
  pub access_key_id : String
  pub secret_access_key : String
  pub public_base_url : String
  pub upload_ttl_seconds : ℕ
  -- The key, the content type, the length and the seconds that the address is valid
  pub generate_presigned_url : ℕ → String → String → ℤ → ℕ → Reply String
  pub get_object : ℕ → String → ℕ → Reply Bytes
  pub put_object : ℕ → String → Bytes → String → Reply (Unit {0})
  pub delete_object : ℕ → String → Reply (Unit {0})
  -- `secrets.token_urlsafe(n)`
  pub token_urlsafe : ℕ → ℕ → String

abbrev pub allowed_content_types : List String
allowed_content_types = "image/jpeg" ∷ "image/png" ∷ "image/webp" ∷ []

abbrev pub max_upload_bytes : ℕ
max_upload_bytes = 12582912

abbrev pub min_upload_bytes : ℕ
min_upload_bytes = 1024

pub record UploadIntent : Type 0 where
  pub upload_url : String
  pub media_key : String
  pub expires_at : ℕ
  pub max_bytes : ℤ

-- `text.rstrip(separator)` for a separator of one character
abbrev joined : Bool → String → String → String
joined drops c rest = if drops && rest == "" then "" else c ++ rest

abbrev pub rstrip : ℕ → String → String
rstrip sep String.[] = ""
rstrip sep (String.◌∷◌ c s) = joined (eqb (code c) sep) (String.◌∷◌ c "") (rstrip sep s)

module _ (p : Platform) (store : ObjectStore) where
  -- `R2Storage.enabled`
  abbrev pub enabled : Bool
  enabled =
      not (store.account_id == "")
      && not (store.access_key_id == "")
      && not (store.secret_access_key == "")

  -- A call that blocks.
  unfoldable pub blocking : {A : Type 0} → (ℕ → Reply A) → Action A
  blocking f s = (from_reply p (f s.calls), record s { calls = suc s.calls })

  -- A call through `_s3()`
  abbrev pub s3 : {A : Type 0} → (ℕ → Reply A) → Action A
  s3 f = raise_if (not enabled) not_configured >> blocking f

  unfoldable pub token_urlsafe : ℕ → Action String
  token_urlsafe size s = (ok (store.token_urlsafe s.calls size), record s { calls = suc s.calls })

  -- `create_upload_intent`
  unfoldable pub create_upload_intent : String → ℤ → Action UploadIntent
  create_upload_intent content_type size_bytes = do
    raise_if (not (contains allowed_content_types content_type)) invalid_request
    raise_if
        (not (leb_ℤ (pos min_upload_bytes) size_bytes && leb_ℤ size_bytes (pos max_upload_bytes)))
        invalid_request
    now ← utc_now p
    token ← token_urlsafe 24
    let media_key = "quarantine/" ++ p.strftime "%Y/%m" now ++ "/" ++ token
    url ← s3 (λ n.
        store.generate_presigned_url n media_key content_type size_bytes store.upload_ttl_seconds)
    expires_at ← utc_now p
    pure (record {
      upload_url = url;
      media_key = media_key;
      expires_at = expires_at;
      max_bytes = size_bytes;
    })

  -- `download`: the first bytes, up to one more than the limit
  unfoldable pub download : String → Action Bytes
  download key = s3 (λ n. store.get_object n key max_upload_bytes)

  -- `put_public`
  unfoldable pub put_public : String → Bytes → String → Action String
  put_public key body content_type = do
    s3 (λ n. store.put_object n key body content_type)
    pure (rstrip b'/' store.public_base_url ++ "/" ++ key)

  -- `except Exception`: every failure is caught.
  abbrev caught : Action (Unit {0}) → Action (Unit {0})
  caught m s = let (r, s') = m s in (ok tt, s')

  -- `delete`
  unfoldable pub delete : String → Action (Unit {0})
  delete key = caught (s3 (λ n. store.delete_object n key))
