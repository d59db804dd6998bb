-- ===== src/Media/Processor.antt =====
-- app/modules/media/processor.py. Bytes are numbers; the imaging library is a parameter.
use Prim.Native.String.{◌++◌}
use voltaris_mobility_backen.Prelude.{
  ℕ, String, string_eq, ◌==◌, eqb, Bool, true, false, not, ◌&&◌, ◌||◌, ltb, get_or, Option, none,
  some, List, [], ◌∷◌, take, drop, if◌then◌else◌,
}
use voltaris_mobility_backen.Prelude.Text.{lacks}
use voltaris_mobility_backen.Core.Errors.{app_error, invalid_request}
use voltaris_mobility_backen.Core.Action.{Result, ok, err}

abbrev pub Bytes : Type 0
Bytes = List ℕ

-- Pillow and base64, as far as the pipeline calls them.
pub record Imaging : Type 1 where
  pub Image : Type 0
  -- `Image.open` and `load`, which raise for what they cannot decode
  pub open_image : Bytes → Option Image
  -- `ImageOps.exif_transpose`
  pub exif_transpose : Image → Option Image
  pub width : Image → ℕ
  pub height : Image → ℕ
  pub mode : Image → String
  -- The image pasted over the dark background, with its last band as the mask or without a mask
  pub paste_on_background : Bool → Image → Image
  pub convert_rgb : Image → Image
  pub fit : ℕ → ℕ → Image → Image
  pub thumbnail : ℕ → ℕ → Image → Image
  -- `save(buffer, "WEBP", quality=…)`
  pub save_webp : ℕ → Image → Bytes
  pub b64encode : Bytes → String

abbrev pub min_dimension : ℕ
min_dimension = 400

abbrev pub max_dimension : ℕ
max_dimension = 8000

abbrev pub webp_quality : ℕ
webp_quality = 78

-- `data.startswith(magic)`
abbrev pub has_prefix : Bytes → Bytes → Bool
has_prefix [] bytes = true
has_prefix (b ∷ magic) [] = false
has_prefix (b ∷ magic) (d ∷ bytes) = eqb b d && has_prefix magic bytes

-- `data == literal`
abbrev pub same_bytes : Bytes → Bytes → Bool
same_bytes [] [] = true
same_bytes [] (d ∷ bytes) = false
same_bytes (b ∷ literal) [] = false
same_bytes (b ∷ literal) (d ∷ bytes) = eqb b d && same_bytes literal bytes

-- `detect_format`
unfoldable pub detect_format : Bytes → Result String
detect_format bytes =
    if has_prefix (255 ∷ 216 ∷ 255 ∷ []) bytes
    then ok "JPEG"
    else if has_prefix (137 ∷ 80 ∷ 78 ∷ 71 ∷ 13 ∷ 10 ∷ 26 ∷ 10 ∷ []) bytes
    then ok "PNG"
    else if same_bytes (82 ∷ 73 ∷ 70 ∷ 70 ∷ []) (take 4 bytes)
        && same_bytes (87 ∷ 69 ∷ 66 ∷ 80 ∷ []) (take 4 (drop 8 bytes))
    then ok "WEBP"
    else err (app_error invalid_request)

-- `ProcessedImage` with the four rendered variants, before they have addresses
pub record Processed : Type 0 where
  pub width : ℕ
  pub height : ℕ
  pub alt : String
  pub blur_data_url : String
  pub thumb : Bytes
  pub card : Bytes
  pub detail : Bytes
  pub gallery : Bytes

module _ (imaging : Imaging) where
  abbrev pub too_small : imaging.Image → Bool
  too_small source =
      ltb (imaging.width source) min_dimension || ltb (imaging.height source) min_dimension

  abbrev pub too_large : imaging.Image → Bool
  too_large source =
      ltb max_dimension (imaging.width source) || ltb max_dimension (imaging.height source)

  -- Every image ends as RGB.
  unfoldable pub flatten : imaging.Image → imaging.Image
  flatten source =
      if not (imaging.mode source == "RGB" || imaging.mode source == "L")
      then imaging.paste_on_background (not (lacks b'A' (imaging.mode source))) source
      else if imaging.mode source == "L"
      then imaging.convert_rgb source
      else source

  -- `_blur_placeholder`
  unfoldable pub blur_placeholder : imaging.Image → String
  blur_placeholder source =
      "data:image/webp;base64,"
      ++ imaging.b64encode (imaging.save_webp 35 (imaging.thumbnail 20 20 source))

  -- The loop over `VARIANTS`
  unfoldable pub render : String → imaging.Image → Processed
  unfolding blur_placeholder
  render alt source =
      let gallery = imaging.thumbnail 1920 1440 source in
      record {
        width = imaging.width gallery;
        height = imaging.height gallery;
        alt = alt;
        blur_data_url = blur_placeholder source;
        thumb = imaging.save_webp webp_quality (imaging.fit 160 120 source);
        card = imaging.save_webp webp_quality (imaging.fit 640 480 source);
        detail = imaging.save_webp webp_quality (imaging.fit 1280 960 source);
        gallery = imaging.save_webp webp_quality gallery;
      }

  abbrev pub render_upright : String → imaging.Image → Result Processed
  render_upright alt source =
      if too_small source || too_large source
      then err (app_error invalid_request)
      else ok (render alt (flatten source))

  abbrev pub render_decoded : String → Option imaging.Image → Result Processed
  render_decoded alt none = err (app_error invalid_request)
  render_decoded alt (some source) =
      render_upright alt (get_or (imaging.exif_transpose source) source)

  abbrev pub render_detected : Bytes → String → Result String → Result Processed
  render_detected bytes alt (err e) = err e
  render_detected bytes alt (ok format) = render_decoded alt (imaging.open_image bytes)

  -- `render_variants`
  unfoldable pub render_variants : Bytes → String → Result Processed
  unfolding detect_format flatten render
  render_variants bytes alt = render_detected bytes alt (detect_format bytes)
