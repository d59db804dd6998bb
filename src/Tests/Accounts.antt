-- ===== src/Tests/Accounts.antt =====
-- The theorems on sessions at work on a sample account.
use voltaris_mobility_backen.Prelude.{
  String, string_eq, ◌==◌, ◌≡◌, refl, true, false, none, some, List, [], ◌∷◌,
}
use voltaris_mobility_backen.Core.Action.{State}
use voltaris_mobility_backen.Database.Mongo.{With}
use voltaris_mobility_backen.Users.Models.{User, UserStatus}
use voltaris_mobility_backen.Auth.Models.{Session}
use voltaris_mobility_backen.Auth.Tokens.{Vault, Claims, decoded}
use voltaris_mobility_backen.Auth.Sessions.{refresh}
use voltaris_mobility_backen.Auth.Service.{attempt_key}
use voltaris_mobility_backen.Auth.Sound.{IsRefreshable, refresh_lem}
use voltaris_mobility_backen.Auth.Admission.{IsUnlocked, IsAdmitted, login_lem}
use voltaris_mobility_backen.Core.Platform.{replied}
use voltaris_mobility_backen.Auth.Models.{OauthState}
use voltaris_mobility_backen.Auth.Google.{GoogleIdentity, IdentityProvider, google_user}
use voltaris_mobility_backen.Auth.Linking.{IsSignIn, complete_google_lem}
use voltaris_mobility_backen.Tests.Machine.{machine}
use voltaris_mobility_backen.Tests.Samples.{shop, opening}
use voltaris_mobility_backen.Tests.Witnesses.{shop-IsQuiet}

abbrev pub claims_of : String → Claims
claims_of jti = record {
  subject = "c1";
  typ = "refresh";
  roles = [];
  session_id = "s1";
  jti = jti;
  issued_at = 0;
  not_before = 0;
  expires_at = 0;
  issuer = "voltaris-api";
}

-- A token's text is its id, and a hash is the password itself.
abbrev pub vault : Vault
vault = record {
  jwt_encode = λ claims. claims.jti;
  jwt_decode = λ now issuer token. decoded (claims_of token);
  argon2_hash = λ n password. password;
  argon2_verify = λ hash password. hash == password;
  argon2_needs_rehash = λ hash. false;
  token_urlsafe = λ n size. "s1";
  lower = λ s. s;
}

abbrev pub customer : User
customer = record {
  id = "c1";
  name = "Customer";
  email = "c1@example.rw";
  phone = none;
  password_hash = some "long password";
  roles = "BUYER" ∷ [];
  status = UserStatus.active;
  email_verified = true;
  phone_verified = false;
  mfa_enabled = false;
  identities = [];
  preferred_language = none;
  marketing_opt_in = false;
  created_at = 0;
  updated_at = 0;
  deleted_at = none;
  other_fields = [];
}

abbrev pub session : Session
session = record {
  id = "r1";
  session_id = "s1";
  user_id = "c1";
  refresh_jti = "j1";
  created_at = 0;
  last_used_at = 0;
  revoked_at = none;
  revoked_reason = none;
  ip = none;
  expires_at = 0;
}

abbrev signed_in : State
signed_in = record opening {
  db = record opening.db { users = customer ∷ []; sessions = session ∷ [] };
}

abbrev signed_out : State
signed_out = record opening { db = record opening.db { users = customer ∷ [] } }

refresh_lem_example : IsRefreshable shop vault "j1" signed_in.db
unfolding machine refresh
refresh_lem_example =
    refresh_lem shop vault shop-IsQuiet "j1" none signed_in
      (record { access_token = "u4"; refresh_token = "u6"; expires_in = 900 }) refl

login_lem_example :
    IsUnlocked shop (attempt_key shop vault "c1@example.rw" none) signed_out.db.login_attempts
    × ((u : User) × (rest : List User) × With u rest signed_out.db.users
        × ((customer ≡ u) × IsAdmitted shop vault "c1@example.rw" "long password" none u))
unfolding machine
login_lem_example =
    login_lem shop vault shop-IsQuiet "c1@example.rw" "long password" none none signed_out
      (record { access_token = "u6"; refresh_token = "u8"; expires_in = 900 }, customer) refl

abbrev verified : GoogleIdentity
verified = record {
  subject = "g1";
  email = "c1@example.rw";
  email_verified = true;
  name = "Customer";
}

abbrev newcomer : User
newcomer = google_user "u5" "google" verified 1700000000000006

-- A provider that verified the customer's address.
abbrev google : IdentityProvider
google = record {
  name = "google";
  authorization_url = λ state nonce. state;
  exchange_code = λ n code nonce. replied verified;
}

abbrev oauth_state : OauthState
oauth_state = record {
  id = "o1";
  state = "st";
  nonce = "no";
  provider = "google";
  created_at = 0;
  expires_at = 1800000000000000;
}

abbrev redirected : State
redirected = record opening { db = record opening.db { oauth_states = oauth_state ∷ [] } }

complete_google_lem_example :
    IsSignIn shop google "code" "st" redirected
      (record { access_token = "u14"; refresh_token = "u16"; expires_in = 900 }, newcomer)
unfolding machine
complete_google_lem_example =
    complete_google_lem shop vault google shop-IsQuiet "code" "st" none redirected
      (record { access_token = "u14"; refresh_token = "u16"; expires_in = 900 }, newcomer) refl
