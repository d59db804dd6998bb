-- ===== src/Auth/Service.antt =====
-- `AuthService` of app/modules/auth/service.py: the lockout, registration and login.
use Prim.Native.String.{◌++◌}
use voltaris_mobility_backen.Prelude.{
  ℕ, suc, ◌+◌, ◌*◌, String, string_eq, ◌==◌, ltb, leb, Bool, true, false, not, ◌&&◌, is_some,
  Option, none, some, [], ◌∷◌, if◌then◌else◌,
}
use voltaris_mobility_backen.Prelude.Text.{str_length}
use voltaris_mobility_backen.Core.Errors.{
  account_locked, invalid_request, email_already_registered, invalid_credentials, forbidden,
  mfa_required,
}
use voltaris_mobility_backen.Core.Platform.{Platform}
use voltaris_mobility_backen.Core.Action.{
  Action, pure, raise, ◌>>=◌, ◌>>◌, raise_if, when, on_duplicate, uuid4_hex, utc_now, find_one,
  insert_one, update_one, upsert_one, delete_one,
}
use voltaris_mobility_backen.Core.Security.{non_empty}
use voltaris_mobility_backen.Database.Collections
use voltaris_mobility_backen.Audit.Models.{text, texts}
use voltaris_mobility_backen.Audit.Service.{record_change}
use voltaris_mobility_backen.Users.Models.{
  User, UserStatus, pending_verification, suspended, role_value, Role,
}
use voltaris_mobility_backen.Auth.Models.{LoginAttempt}
use voltaris_mobility_backen.Auth.Tokens.{Vault, verify_password, hash_password}
use voltaris_mobility_backen.Auth.Sessions.{TokenPair, issue_session}

abbrev pub is_suspended : UserStatus → Bool
is_suspended suspended = true
is_suspended _ = false

-- `_attempt_key`; `ip or 'unknown'`
abbrev pub ip_or_unknown : Option String → String
ip_or_unknown none = "unknown"
ip_or_unknown (some s) = if s == "" then "unknown" else s

abbrev pub is_attempt : String → LoginAttempt → Bool
is_attempt key row = row.key == key

-- `row and row["count"] >= login_max_attempts`
abbrev pub is_locked : ℕ → Option LoginAttempt → Bool
is_locked maximum none = false
is_locked maximum (some row) = leb maximum row.count

module _ (p : Platform) (vault : Vault) where
  unfoldable pub attempt_key : String → Option String → String
  attempt_key email ip = vault.lower email ++ "|" ++ ip_or_unknown ip

  -- `_check_lockout`
  unfoldable pub check_lockout : String → Action (Unit {0})
  check_lockout key = do
    row ← find_one p Collections.login_attempts (is_attempt key)
    raise_if (is_locked p.settings.login_max_attempts row) account_locked

  -- `_register_failure`: an upsert, whose inserted document has the increment applied.
  unfoldable pub register_failure : String → Action (Unit {0})
  register_failure key = do
    row_id ← uuid4_hex p
    now ← utc_now p
    upsert_one p Collections.login_attempts (is_attempt key)
        (λ row. record row { count = suc row.count })
        (record {
          id = row_id;
          key = key;
          count = 1;
          expires_at = now + p.settings.login_lockout_seconds * 1000000;
        })

  -- `_clear_failures`
  unfoldable pub clear_failures : String → Action (Unit {0})
  clear_failures key = do delete_one p Collections.login_attempts (is_attempt key); pure tt

  abbrev pub new_user : String → String → String → Option String → String → ℕ → User
  new_user user_id name email phone password_hash now = record {
    id = user_id;
    name = name;
    email = vault.lower email;
    phone = phone;
    password_hash = some password_hash;
    roles = role_value Role.buyer ∷ [];
    status = pending_verification;
    email_verified = false;
    phone_verified = false;
    mfa_enabled = false;
    identities = [];
    preferred_language = none;
    marketing_opt_in = false;
    created_at = now;
    updated_at = now;
    deleted_at = none;
    other_fields = [];
  }

  -- `register`, which answers with the new id
  unfoldable pub register : String → String → Option String → String → Option String → Action String
  register name email phone password ip = do
    raise_if (ltb (str_length password) p.settings.password_min_length) invalid_request
    user_id ← uuid4_hex p
    now ← utc_now p
    password_hash ← hash_password p vault password
    on_duplicate
        (insert_one p Collections.users (new_user user_id name email phone password_hash now))
        (raise email_already_registered)
    record_change p (record {
      action = "user.registered";
      entity_type = "user";
      entity_id = user_id;
      actor_id = some user_id;
      before = none;
      after = some (
          ("email", text (vault.lower email)) ∷ ("roles", texts (role_value Role.buyer ∷ [])) ∷ []);
      ip = ip;
    })
    pure user_id

  -- A refused login counts against the key.
  unfoldable pub refuse : {A : Type 0} → String → Action A
  refuse key = register_failure key >> raise invalid_credentials

  -- `needs_rehash` and the upgrade of the stored hash
  unfoldable pub upgrade_hash : User → String → String → Action (Unit {0})
  upgrade_hash u password password_hash = when (vault.argon2_needs_rehash password_hash) (do
    upgraded ← hash_password p vault password
    update_one p Collections.users (λ x. x.id == u.id)
        (λ x. record x { password_hash = some upgraded })
    pure tt)

  -- `login` from the verified password on.
  unfoldable pub admit :
      String → User → String → String → Option String → Option String → Action (TokenPair × User)
  admit key u password password_hash otp ip = do
    raise_if (is_suspended u.status) forbidden
    raise_if (is_some u.deleted_at) invalid_credentials
    raise_if (u.mfa_enabled && not (is_some (non_empty otp))) mfa_required
    clear_failures key
    upgrade_hash u password password_hash
    issue_session p vault u ip

  abbrev pub login_with :
      String
      → User
      → String
      → Option String
      → Option String
      → Option String
      → Action (TokenPair × User)
  login_with key u password otp ip none = refuse key
  login_with key u password otp ip (some password_hash) =
      if not (verify_password p vault password password_hash)
      then refuse key
      else admit key u password password_hash otp ip

  -- An unknown address costs a hashing too.
  abbrev pub login_as :
      String → Option User → String → Option String → Option String → Action (TokenPair × User)
  login_as key none password otp ip = hash_password p vault password >> refuse key
  login_as key (some u) password otp ip =
      login_with key u password otp ip (non_empty u.password_hash)

  -- `login`
  unfoldable pub login : String → String → Option String → Option String → Action (TokenPair × User)
  login email password otp ip = do
    check_lockout (attempt_key email ip)
    row ← find_one p Collections.users (λ u. u.email == vault.lower email)
    login_as (attempt_key email ip) row password otp ip
