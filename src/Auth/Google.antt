-- ===== src/Auth/Google.antt =====
-- Sign-in through an external identity: `begin_google`, `complete_google` and `_link_or_create` of
-- app/modules/auth/service.py. The provider is a parameter.
use voltaris_mobility_backen.Prelude.{
  ℕ, suc, ◌+◌, String, string_eq, ◌==◌, ltb, Bool, true, false, not, ◌&&◌, ◌||◌, Option, none, some,
  List, [], ◌∷◌, ◌++◌,
}
use voltaris_mobility_backen.Core.Errors.{
  duplicate_key, python_error, invalid_credentials, email_not_verified,
}
use voltaris_mobility_backen.Core.Platform.{Platform, Reply}
use voltaris_mobility_backen.Core.Action.{
  Action, ok, pure, fail, or_raise, ◌>>=◌, ◌>>◌, raise_if, on_duplicate, uuid4_hex, utc_now, call,
  find_one, insert_one, update_one, delete_one,
}
use voltaris_mobility_backen.Database.Collections
use voltaris_mobility_backen.Audit.Models.{text, texts}
use voltaris_mobility_backen.Audit.Service.{record_change}
use voltaris_mobility_backen.Users.Models.{
  User, UserStatus, active, pending_verification, Identity, role_value, Role,
}
use voltaris_mobility_backen.Auth.Models.{OauthState}
use voltaris_mobility_backen.Auth.Tokens.{Vault}
use voltaris_mobility_backen.Auth.Sessions.{TokenPair, issue_session}

pub record GoogleIdentity : Type 0 where
  pub subject : String
  pub email : String
  pub email_verified : Bool
  pub name : String

-- The number is that of the call.
pub record IdentityProvider : Type 0 where
  pub name : String
  pub authorization_url : String → String → String
  pub exchange_code : ℕ → String → String → Reply GoogleIdentity

-- The query `{"identities.provider": …, "identities.subject": …}`, whose two conditions the
-- database reads of any entry each.
abbrev pub any_provider : String → List Identity → Bool
any_provider provider [] = false
any_provider provider (i ∷ identities) = i.provider == provider || any_provider provider identities

abbrev pub any_subject : String → List Identity → Bool
any_subject subject [] = false
any_subject subject (i ∷ identities) = i.subject == subject || any_subject subject identities

abbrev pub has_subject : String → String → User → Bool
has_subject provider subject u =
    any_provider provider u.identities && any_subject subject u.identities

abbrev pub is_state : String → String → OauthState → Bool
is_state state provider row = row.state == state && row.provider == provider

-- A verified address activates a pending account.
abbrev pub activated : UserStatus → UserStatus
activated pending_verification = active
activated status = status

abbrev pub linked : String → String → ℕ → User → User → User
linked provider subject now seen u = record u {
  identities = u.identities ++ (record { provider = provider; subject = subject } ∷ []);
  email_verified = true;
  status = activated seen.status;
  updated_at = now;
}

abbrev pub google_user : String → String → GoogleIdentity → ℕ → User
google_user user_id provider identity now = record {
  id = user_id;
  name = identity.name;
  email = identity.email;
  phone = none;
  password_hash = none;
  roles = role_value Role.buyer ∷ [];
  status = active;
  email_verified = true;
  phone_verified = false;
  mfa_enabled = false;
  identities = record { provider = provider; subject = identity.subject } ∷ [];
  preferred_language = none;
  marketing_opt_in = false;
  created_at = now;
  updated_at = now;
  deleted_at = none;
  other_fields = [];
}

-- The `TypeError` of a None that is used as an account.
abbrev pub or_type_error : Option User → Action User
or_type_error none = fail python_error
or_type_error (some u) = pure u

-- `raise` in the handler of `DuplicateKeyError`
abbrev pub or_duplicate : Option User → Action User
or_duplicate none = fail duplicate_key
or_duplicate (some u) = pure u

module _ (p : Platform) (vault : Vault) (provider : IdentityProvider) where
  unfoldable pub token_urlsafe : ℕ → Action String
  token_urlsafe size s = (ok (vault.token_urlsafe s.calls size), record s { calls = suc s.calls })

  -- `begin_google`
  unfoldable pub begin_google : Action String
  begin_google = do
    state ← token_urlsafe 24
    nonce ← token_urlsafe 16
    row_id ← uuid4_hex p
    created ← utc_now p
    later ← utc_now p
    insert_one p Collections.oauth_states (record {
      id = row_id;
      state = state;
      nonce = nonce;
      provider = provider.name;
      created_at = created;
      expires_at = later + 600000000;
    })
    pure (provider.authorization_url state nonce)

  -- An account of that address is linked to the identity.
  unfoldable pub link : GoogleIdentity → Option String → User → Action User
  link identity ip u = do
    now ← utc_now p
    update_one p Collections.users (λ x. x.id == u.id) (linked provider.name identity.subject now u)
    record_change p (record {
      action = "auth.identity_linked";
      entity_type = "user";
      entity_id = u.id;
      actor_id = some u.id;
      before = none;
      after = some (("provider", text provider.name) ∷ []);
      ip = ip;
    })
    row ← find_one p Collections.users (λ x. x.id == u.id)
    or_type_error row

  -- A lost race reads the account that won.
  unfoldable pub found_meanwhile : GoogleIdentity → Action User
  found_meanwhile identity = do
    row ← find_one p Collections.users (λ x. x.email == identity.email)
    or_duplicate row

  unfoldable pub create_account : GoogleIdentity → Option String → Action User
  create_account identity ip = do
    user_id ← uuid4_hex p
    now ← utc_now p
    let u = google_user user_id provider.name identity now
    raced ←
        on_duplicate (insert_one p Collections.users u >> pure none)
          (found_meanwhile identity >>= λ x. pure (some x))
    finish raced u
    where
      finish : Option User → User → Action User
      finish (some x) u = pure x
      finish none u = do
        record_change p (record {
          action = "user.registered";
          entity_type = "user";
          entity_id = u.id;
          actor_id = some u.id;
          before = none;
          after = some (
              ("email", text identity.email)
              ∷ ("roles", texts (role_value Role.buyer ∷ []))
              ∷ ("via", text provider.name)
              ∷ []);
          ip = ip;
        })
        pure u

  abbrev pub by_email : GoogleIdentity → Option String → Option User → Action User
  by_email identity ip none = create_account identity ip
  by_email identity ip (some u) = link identity ip u

  abbrev pub by_subject : GoogleIdentity → Option String → Option User → Action User
  by_subject identity ip (some u) = pure u
  by_subject identity ip none = do
    raise_if (not identity.email_verified) email_not_verified
    existing ← find_one p Collections.users (λ x. x.email == identity.email)
    by_email identity ip existing

  -- `_link_or_create`
  unfoldable pub link_or_create : GoogleIdentity → Option String → Action User
  link_or_create identity ip =
      find_one p Collections.users (has_subject provider.name identity.subject)
      >>= by_subject identity ip

  -- `complete_google`
  unfoldable pub complete_google : String → String → Option String → Action (TokenPair × User)
  complete_google code state ip = do
    row ← delete_one p Collections.oauth_states (is_state state provider.name)
    pending ← or_raise row invalid_credentials
    now ← utc_now p
    raise_if (ltb pending.expires_at now) invalid_credentials
    identity ← call p (λ n. provider.exchange_code n code pending.nonce)
    u ← link_or_create identity ip
    issue_session p vault u ip
