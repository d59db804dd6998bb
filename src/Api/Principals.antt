-- ===== src/Api/Principals.antt =====
-- The identity of a request and the route guards: app/api/deps.py.
use voltaris_mobility_backen.Prelude.{
  String, string_eq, ◌==◌, Bool, true, false, not, ◌||◌, Option, none, some, List, [], ◌∷◌,
  contains, if◌then◌else◌,
}
use voltaris_mobility_backen.Core.Errors.{app_error, token_invalid, token_revoked, forbidden}
use voltaris_mobility_backen.Core.Platform.{Platform}
use voltaris_mobility_backen.Core.Action.{
  Action, Result, ok, err, pure, or_raise, raise_if, lift, ◌>>=◌, ◌>>◌, find_one,
}
use voltaris_mobility_backen.Database.Collections
use voltaris_mobility_backen.Users.Models.{
  User, UserStatus, FieldValue, text, Role, role_value, Permission, permission_eq, permissions_for,
}
use voltaris_mobility_backen.Auth.Tokens.{Vault, Claims, TokenType, decode_token}
use voltaris_mobility_backen.Auth.Sessions.{in_session, active_session, live_user}
use voltaris_mobility_backen.Api.Cookies.{HttpRequest, extract_token, enforce_csrf}

pub record Principal : Type 0 where
  pub user_id : String
  pub roles : List String
  pub session_id : String
  pub permissions : List Permission
  pub email : String
  pub full_name : String
  pub email_verified : Bool
  pub mfa_enabled : Bool

abbrev pub is_suspended : UserStatus → Bool
is_suspended UserStatus.suspended = true
is_suspended _ = false

-- `user.get("name") or user.get("full_name") or ""`
abbrev pub text_at : String → List (String × FieldValue) → String
text_at key [] = ""
text_at key ((k, value) ∷ fields) =
    let later = text_at key fields in if k == key then elim value [ text s ↦ s | _ ↦ "" ] else later

abbrev pub full_name_of : User → String
full_name_of u = if u.name == "" then text_at "full_name" u.other_fields else u.name

-- The roles are those of the stored account, not those of the token.
unfoldable pub principal_of : Claims → User → Principal
principal_of claims u = record {
  user_id = u.id;
  roles = u.roles;
  session_id = claims.session_id;
  permissions = permissions_for u.roles;
  email = u.email;
  full_name = full_name_of u;
  email_verified = u.email_verified;
  mfa_enabled = u.mfa_enabled;
}

-- `set(principal.roles) & {role.value for role in roles}`
abbrev pub shares_role : List String → List Role → Bool
shares_role held [] = false
shares_role held (role ∷ roles) = contains held (role_value role) || shares_role held roles

module _ (p : Platform) (vault : Vault) where
  abbrev csrf_check : HttpRequest → Bool → Result (Unit {0})
  csrf_check request from_cookie = if from_cookie then enforce_csrf request else ok tt

  -- `current_principal` from the look-up of the account on
  unfoldable pub account_principal : Claims → Action Principal
  account_principal claims = do
    row ← find_one p Collections.users (λ u. u.id == claims.subject)
    u ← or_raise (live_user row) token_invalid
    raise_if (is_suspended u.status) forbidden
    pure (principal_of claims u)

  unfoldable pub token_principal : String → Action Principal
  token_principal token = do
    claims ← decode_token p vault token TokenType.access
    row ← find_one p Collections.sessions (in_session claims.session_id)
    x ← or_raise (active_session row) token_revoked
    account_principal claims

  -- `current_principal`
  unfoldable pub current_principal : HttpRequest → Option String → Action Principal
  current_principal request authorization = do
    extracted ← lift (extract_token p request authorization)
    lift (csrf_check request extracted.1)
    token_principal extracted.0

  -- The guard of `require_permission`, through `Principal.require`
  unfoldable pub require_permission : Permission → HttpRequest → Option String → Action Principal
  require_permission permission request authorization = do
    principal ← current_principal request authorization
    raise_if (not (contains principal.permissions permission)) forbidden
    pure principal

  -- The guard of `require_role`
  unfoldable pub require_role : List Role → HttpRequest → Option String → Action Principal
  require_role roles request authorization = do
    principal ← current_principal request authorization
    raise_if (not (shares_role principal.roles roles)) forbidden
    pure principal

  -- `except AppError: return None`
  abbrev or_anonymous : Result Principal → Result (Option Principal)
  or_anonymous (ok principal) = ok (some principal)
  or_anonymous (err (app_error e)) = ok none
  or_anonymous (err e) = err e

  -- `optional_principal`
  unfoldable pub optional_principal : HttpRequest → Option String → Action (Option Principal)
  optional_principal request authorization s =
      let (r, s') = current_principal request authorization s in (or_anonymous r, s')
