-- ===== src/Core/Startup.antt =====
-- The validators of `Settings` in app/core/config.py, which run before the application starts.
use voltaris_mobility_backen.Prelude.{
  String, string_eq, ◌==◌, Bool, true, false, not, ◌&&◌, ◌||◌, ltb, List, [], ◌∷◌, contains,
  if◌then◌else◌,
}
use voltaris_mobility_backen.Prelude.Text.{str_length, starts_with}
use voltaris_mobility_backen.Core.Config.{Settings, Environment, SameSite}

-- `DEV_PLACEHOLDER`
abbrev pub dev_placeholder : String
dev_placeholder = "dev-insecure-change-me"

abbrev pub is_production : Environment → Bool
is_production Environment.production = true
is_production _ = false

abbrev pub is_lax : SameSite → Bool
is_lax SameSite.lax = true
is_lax _ = false

-- `_production_cookie_policy`
unfoldable pub production_cookie_policy : Settings → Settings
production_cookie_policy settings =
    if is_production settings.environment && is_lax settings.session_cookie_samesite
    then record settings { session_cookie_samesite = SameSite.none }
    else settings

-- `value in ("", DEV_PLACEHOLDER)`
abbrev pub is_unset : String → Bool
is_unset value = value == "" || value == dev_placeholder

-- An entry of `missing`
abbrev pub noted : Bool → String → List String → List String
noted insecure name rest = if insecure then name ∷ rest else rest

unfoldable pub missing : Settings → List String
missing settings =
    noted (is_unset settings.jwt_secret || ltb (str_length settings.jwt_secret) 32)
      "JWT_SECRET (min 32 chars)"
      (noted (is_unset settings.payment_webhook_secret) "PAYMENT_WEBHOOK_SECRET" (
        noted (starts_with "mongodb://localhost" settings.mongodb_uri) "MONGODB_URI" (
          noted (contains settings.cors_origins "*")
            "CORS_ORIGINS (wildcard is not permitted in production)" [])))

-- The settings, or the names that the `ValueError` lists
pub data Startup : Type 0 where
  started : Settings → Startup
  refused : List String → Startup

abbrev pub unless_missing : Settings → List String → Startup
unless_missing settings [] = started settings
unless_missing settings (name ∷ names) = refused (name ∷ names)

-- `_refuse_insecure_production`
unfoldable pub refuse_insecure_production : Settings → Startup
unfolding missing
refuse_insecure_production settings =
    if not (is_production settings.environment)
    then started settings
    else unless_missing settings (missing settings)

-- The two validators in the order in which they are declared
unfoldable pub load_settings : Settings → Startup
unfolding production_cookie_policy refuse_insecure_production
load_settings settings = refuse_insecure_production (production_cookie_policy settings)
