-- ===== src/Auth/Tokens.antt =====
-- The tokens of app/core/security.py. PyJWT and argon2 are third-party packages: they are the
-- parameter `Vault`, with the deployment's key and its pinned algorithm inside.
use voltaris_mobility_backen.Prelude.{ℕ, suc, ◌+◌, ◌/◌, String, string_eq, ◌==◌, Bool, not, List}
use voltaris_mobility_backen.Core.Errors.{token_expired, token_invalid}
use voltaris_mobility_backen.Core.Platform.{Platform}
use voltaris_mobility_backen.Core.Action.{
  Action, ok, pure, raise, ◌>>=◌, ◌>>◌, raise_if, uuid4_hex, utc_now,
}

-- The payload of a token.
pub record Claims : Type 0 where
  pub subject : String
  pub typ : String
  pub roles : List String
  pub session_id : String
  pub jti : String
  pub issued_at : ℕ
  pub not_before : ℕ
  pub expires_at : ℕ
  pub issuer : String

-- The end of `jwt.decode`.
pub data Decoded : Type 0 where
  expired invalid : Decoded
  decoded : Claims → Decoded

-- A decoding reads the clock, in seconds, and checks the issuer; a hashing draws a salt, so that
-- its result depends on the number of the call.
pub record Vault : Type 0 where
  pub jwt_encode : Claims → String
  pub jwt_decode : ℕ → String → String → Decoded
  pub argon2_hash : ℕ → String → String
  pub argon2_verify : String → String → Bool
  pub argon2_needs_rehash : String → Bool
  pub token_urlsafe : ℕ → ℕ → String
  pub lower : String → String

pub data TokenType : Type 0 where
  access refresh : TokenType

abbrev pub token_value : TokenType → String
token_value access = "access"
token_value refresh = "refresh"

module _ (p : Platform) (vault : Vault) where
  -- `verify_password`, where every failure of the package is `False`
  unfoldable pub verify_password : String → String → Bool
  verify_password password password_hash = vault.argon2_verify password_hash password

  unfoldable pub hash_password : String → Action String
  hash_password password s =
      (ok (vault.argon2_hash s.calls password), record s { calls = suc s.calls })

  unfoldable pub new_session_id : Action String
  new_session_id s = (ok (vault.token_urlsafe s.calls 24), record s { calls = suc s.calls })

  abbrev pub ttl_of : TokenType → ℕ
  ttl_of access = p.settings.access_token_ttl_seconds
  ttl_of refresh = p.settings.refresh_token_ttl_seconds

  -- `create_token`, with the configured time to live
  unfoldable pub create_token : String → TokenType → List String → String → Action String
  create_token subject token_type roles session_id = do
    now ← utc_now p
    jti ← uuid4_hex p
    pure (
        vault.jwt_encode (record {
          subject = subject;
          typ = token_value token_type;
          roles = roles;
          session_id = session_id;
          jti = jti;
          issued_at = now / 1000000;
          not_before = now / 1000000;
          expires_at = now / 1000000 + ttl_of token_type;
          issuer = p.settings.service_name;
        }))

  abbrev pub check_type : TokenType → Decoded → Action Claims
  check_type expected expired = raise token_expired
  check_type expected invalid = raise token_invalid
  check_type expected (decoded claims) = do
    raise_if (not (claims.typ == token_value expected)) token_invalid
    pure claims

  -- `decode_token`
  unfoldable pub decode_token : String → TokenType → Action Claims
  decode_token token expected = do
    now ← utc_now p
    check_type expected (vault.jwt_decode (now / 1000000) p.settings.service_name token)
