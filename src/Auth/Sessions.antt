-- ===== src/Auth/Sessions.antt =====
-- The sessions of `AuthService` in app/modules/auth/service.py: issue, rotation, logout.
use voltaris_mobility_backen.Prelude.{
  ℕ, ◌+◌, ◌*◌, String, string_eq, ◌==◌, Bool, not, is_some, Option, none, some, if◌then◌else◌,
}
use voltaris_mobility_backen.Core.Errors.{token_revoked}
use voltaris_mobility_backen.Core.Platform.{Platform}
use voltaris_mobility_backen.Core.Action.{
  Action, pure, raise, or_raise, ◌>>=◌, ◌>>◌, uuid4_hex, utc_now, find_one, insert_one, update_one,
}
use voltaris_mobility_backen.Database.Collections
use voltaris_mobility_backen.Audit.Models.{Change}
use voltaris_mobility_backen.Audit.Service.{record_change}
use voltaris_mobility_backen.Users.Models.{User}
use voltaris_mobility_backen.Auth.Models.{Session}
use voltaris_mobility_backen.Auth.Tokens.{
  Vault, Claims, TokenType, new_session_id, create_token, decode_token,
}

abbrev pub in_session : String → Session → Bool
in_session session_id x = x.session_id == session_id

abbrev pub revoke : String → ℕ → Session → Session
revoke reason now x = record x { revoked_at = some now; revoked_reason = some reason }

-- A session that was found and is not revoked.
abbrev pub active_session : Option Session → Option Session
active_session none = none
active_session (some x) = elim x.revoked_at [ none ↦ some x | some _ ↦ none ]

abbrev pub live_user : Option User → Option User
live_user none = none
live_user (some u) = elim u.deleted_at [ none ↦ some u | some _ ↦ none ]

-- An audit entry without snapshots.
abbrev pub plain_change : String → String → String → Option String → Option String → Change
plain_change action entity_type entity_id actor_id ip = record {
  action = action;
  entity_type = entity_type;
  entity_id = entity_id;
  actor_id = actor_id;
  before = none;
  after = none;
  ip = ip;
}

-- The tokens of a response, and the user of a login.
pub record TokenPair : Type 0 where
  pub access_token : String
  pub refresh_token : String
  pub expires_in : ℕ

module _ (p : Platform) (vault : Vault) where
  -- `_issue_session`; the account's part of the response is the user's own fields.
  unfoldable pub issue_session : User → Option String → Action (TokenPair × User)
  issue_session u ip = do
    session_id ← new_session_id p vault
    now ← utc_now p
    access ← create_token p vault u.id TokenType.access u.roles session_id
    refresh ← create_token p vault u.id TokenType.refresh u.roles session_id
    claims ← decode_token p vault refresh TokenType.refresh
    row_id ← uuid4_hex p
    insert_one p Collections.sessions (record {
      id = row_id;
      session_id = session_id;
      user_id = u.id;
      refresh_jti = claims.jti;
      created_at = now;
      last_used_at = now;
      revoked_at = none;
      revoked_reason = none;
      ip = ip;
      expires_at = now + p.settings.refresh_token_ttl_seconds * 1000000;
    })
    pure (
      record {
        access_token = access;
        refresh_token = refresh;
        expires_in = p.settings.access_token_ttl_seconds;
      },
      u,
    )

  -- A superseded refresh token kills its session.
  unfoldable pub kill_session : Claims → Option String → Action TokenPair
  kill_session claims ip = do
    now ← utc_now p
    update_one p Collections.sessions (in_session claims.session_id) (revoke "reuse_detected" now)
    record_change p (
        plain_change "auth.refresh_reuse_detected" "session" claims.session_id (some claims.subject)
          ip)
    raise token_revoked

  -- `refresh` from the session's checks on: new tokens, with the roles as they are now.
  unfoldable pub rotate : Claims → User → Action TokenPair
  rotate claims u = do
    access ← create_token p vault u.id TokenType.access u.roles claims.session_id
    new_refresh ← create_token p vault u.id TokenType.refresh u.roles claims.session_id
    new_claims ← decode_token p vault new_refresh TokenType.refresh
    now ← utc_now p
    update_one p Collections.sessions (in_session claims.session_id)
        (λ x. record x { refresh_jti = new_claims.jti; last_used_at = now })
    pure (record {
      access_token = access;
      refresh_token = new_refresh;
      expires_in = p.settings.access_token_ttl_seconds;
    })

  unfoldable pub refresh_user : Claims → Action TokenPair
  refresh_user claims = do
    row ← find_one p Collections.users (λ u. u.id == claims.subject)
    u ← or_raise (live_user row) token_revoked
    rotate claims u

  -- `refresh`
  unfoldable pub refresh : String → Option String → Action TokenPair
  refresh refresh_token ip = do
    claims ← decode_token p vault refresh_token TokenType.refresh
    row ← find_one p Collections.sessions (in_session claims.session_id)
    x ← or_raise (active_session row) token_revoked
    if not (x.refresh_jti == claims.jti) then kill_session claims ip else refresh_user claims

  -- `logout`
  unfoldable pub logout : String → String → Action (Unit {0})
  logout session_id actor_id = do
    now ← utc_now p
    update_one p Collections.sessions (in_session session_id) (revoke "logout" now)
    record_change p (plain_change "auth.logout" "session" session_id (some actor_id) none)
    pure tt

  -- `session_is_active`
  unfoldable pub session_is_active : String → Action Bool
  session_is_active session_id = do
    row ← find_one p Collections.sessions (in_session session_id)
    pure (is_some (active_session row))
