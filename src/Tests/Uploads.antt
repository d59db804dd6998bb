-- ===== src/Tests/Uploads.antt =====
-- The ownership check at work on two uploads.
use voltaris_mobility_backen.Prelude.{refl, ◌≡◌, none, some, [], ◌∷◌, true, false}
use voltaris_mobility_backen.Prelude.Int.{pos}
use voltaris_mobility_backen.Core.Platform.{replied}
use voltaris_mobility_backen.Core.Action.{State}
use voltaris_mobility_backen.Core.Returns.{IsQuiet-Stable}
use voltaris_mobility_backen.Database.With.{here}
use voltaris_mobility_backen.Media.Models.{Media, MediaStatus, is_published}
use voltaris_mobility_backen.Media.Processor.{Imaging}
use voltaris_mobility_backen.Media.Storage.{ObjectStore}
use voltaris_mobility_backen.Media.Service.{finalize}
use voltaris_mobility_backen.Media.Ownership.{IsUntouched, finalize_lem}
use voltaris_mobility_backen.Prelude.{List, map}
use voltaris_mobility_backen.Tests.Machine.{machine}
use voltaris_mobility_backen.Tests.Samples.{shop, opening}
use voltaris_mobility_backen.Tests.Witnesses.{shop-IsQuiet}

-- Every picture is large enough and in colour.
abbrev imaging : Imaging
imaging = record {
  Image = List _;
  open_image = λ bytes. some bytes;
  exif_transpose = λ image. none;
  width = λ image. 800;
  height = λ image. 600;
  mode = λ image. "RGB";
  paste_on_background = λ masked image. image;
  convert_rgb = λ image. image;
  fit = λ width height image. image;
  thumbnail = λ width height image. image;
  save_webp = λ quality image. image;
  b64encode = λ bytes. "";
}

-- Every object is the start of a JPEG.
abbrev store : ObjectStore
store = record {
  account_id = "account";
  access_key_id = "access";
  secret_access_key = "secret";
  public_base_url = "https://media.voltaris.rw";
  upload_ttl_seconds = 900;
  generate_presigned_url = λ n key content_type size ttl. replied key;
  get_object = λ n key last. replied (255 ∷ 216 ∷ 255 ∷ []);
  put_object = λ n key body content_type. replied tt;
  delete_object = λ n key. replied tt;
  token_urlsafe = λ n size. "token";
}

abbrev theirs : Media
theirs = record {
  id = "m1";
  media_key = "quarantine/2026/01/theirs";
  owner_id = some "c9";
  listing_reference = none;
  declared_content_type = "image/jpeg";
  declared_size = pos 2048;
  status = MediaStatus.pending;
  image = none;
  created_at = 0;
  published_at = none;
  reason = none;
  rejected_at = none;
}

abbrev mine : Media
mine = record theirs { id = "m2"; media_key = "quarantine/2026/01/mine"; owner_id = some "c1" }

abbrev uploads : State
uploads = record opening { db = record opening.db { media = theirs ∷ mine ∷ [] } }

finalize_lem_example :
    IsUntouched theirs
      (finalize shop imaging store
        ("quarantine/2026/01/mine" ∷ "quarantine/2026/01/theirs" ∷ [])
        (some "c1")
        "Car"
        uploads).1.db
finalize_lem_example =
    finalize_lem shop imaging store theirs (IsQuiet-Stable _ shop-IsQuiet) (some "c1") refl
      ("quarantine/2026/01/mine" ∷ "quarantine/2026/01/theirs" ∷ []) "Car" uploads
      ((_, here _), ((refl, tt), (tt, tt)))

-- The own upload is published, and the other is refused.
finalize_run :
    map
      (λ (m : Media). is_published m.status)
      (finalize shop imaging store
        ("quarantine/2026/01/mine" ∷ "quarantine/2026/01/theirs" ∷ [])
        (some "c1")
        "Car"
        uploads).1.db.media
    ≡ true ∷ false ∷ []
unfolding machine
finalize_run = refl
