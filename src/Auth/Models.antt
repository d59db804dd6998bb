-- ===== src/Auth/Models.antt =====
-- The documents of app/modules/auth/service.py: sessions, login attempts and OAuth states.
use voltaris_mobility_backen.Prelude.{ℕ, String, Option}

pub record Session : Type 0 where
  pub id : String
  pub session_id : String
  pub user_id : String
  pub refresh_jti : String
  pub created_at : ℕ
  pub last_used_at : ℕ
  pub revoked_at : Option ℕ
  pub revoked_reason : Option String
  pub ip : Option String
  pub expires_at : ℕ

pub record LoginAttempt : Type 0 where
  pub id : String
  pub key : String
  pub count : ℕ
  pub expires_at : ℕ

pub record OauthState : Type 0 where
  pub id : String
  pub state : String
  pub nonce : String
  pub provider : String
  pub created_at : ℕ
  pub expires_at : ℕ
