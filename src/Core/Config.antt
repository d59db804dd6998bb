-- ===== src/Core/Config.antt =====
-- app/core/config.py: the settings that the modelled services read.
use voltaris_mobility_backen.Prelude.{ℕ, String, List}
use voltaris_mobility_backen.Prelude.Int.{ℤ}

pub data Environment : Type 0 where
  development staging production : Environment

pub data SameSite : Type 0 where
  lax none strict : SameSite

pub record Settings : Type 0 where
  pub service_name : String
  pub environment : Environment
  pub session_cookie_samesite : SameSite
  pub jwt_secret : String
  pub mongodb_uri : String
  pub cors_origins : List String
  pub access_token_ttl_seconds : ℕ
  pub refresh_token_ttl_seconds : ℕ
  pub password_min_length : ℕ
  pub login_max_attempts : ℕ
  pub login_lockout_seconds : ℕ
  pub payment_provider : String
  pub payment_webhook_secret : String
  pub payment_webhook_tolerance_seconds : ℕ
  pub default_currency : String
  pub default_commission_bps : ℤ
  pub payment_fee_bps : ℤ
  pub payment_fee_fixed_minor : ℤ
