-- ===== src/Tests/Console.antt =====
-- The theorems on ended sessions at work on sample data.
use voltaris_mobility_backen.Prelude.{string_eq, ◌≡◌, refl, ◌↔◌, ◌≢◌, List, none, [], ◌∷◌}
use voltaris_mobility_backen.Prelude.Text.{str_length, starts_with}
use voltaris_mobility_backen.Core.Config.{Settings, Environment, SameSite}
use voltaris_mobility_backen.Core.Startup.{
  started, refused, production_cookie_policy, load_settings,
}
use voltaris_mobility_backen.Core.Production.{IsSecure, load_settings_iff}
use voltaris_mobility_backen.Core.Action.{State}
use voltaris_mobility_backen.Database.With.{With}
use voltaris_mobility_backen.Users.Models.{UserStatus, payment_refund}
use voltaris_mobility_backen.Auth.Models.{Session}
use voltaris_mobility_backen.Api.Principals.{Principal, principal_of}
use voltaris_mobility_backen.Admin.Console.{set_user_status, revoke_all_sessions}
use voltaris_mobility_backen.Admin.Revocation.{IsSignedOut, HasStatus}
use voltaris_mobility_backen.Admin.Barred.{
  revoke_all_sessions_lem, set_user_status_lem, revoke_all_sessions-require_permission,
  set_user_status-require_permission,
}
use voltaris_mobility_backen.Tests.Machine.{machine}
use voltaris_mobility_backen.Tests.Samples.{shop}
use voltaris_mobility_backen.Tests.Accounts.{customer, session, claims_of}
use voltaris_mobility_backen.Tests.Witnesses.{shop-IsQuiet}
use voltaris_mobility_backen.Tests.Area.{access_vault, accountant, office, posted}

-- The accountant's request after the console dealt with another account.
abbrev answered_for : Principal
answered_for = principal_of (record (claims_of "j1") { typ = "access" }) accountant

abbrev crowd : State
crowd = record office {
  db = record office.db {
    users = accountant ∷ record customer { id = "c9"; email = "c9@example.rw" } ∷ [];
    sessions = session ∷ record session { id = "r9"; session_id = "s9"; user_id = "c9" } ∷ [];
  };
}

revoke_all_sessions_lem_example : IsSignedOut "c9" (revoke_all_sessions shop "c9" "a1" crowd).1.db
revoke_all_sessions_lem_example = revoke_all_sessions_lem shop shop-IsQuiet "c9" "a1" crowd

revoke_all_sessions-require_permission_example :
    (x : Session) × (rest : List Session) × With x rest
      (revoke_all_sessions shop "c9" "a1" crowd).1.db.sessions
    × (x.session_id ≡ answered_for.session_id)
    × (x.user_id ≢ "c9")
unfolding machine
revoke_all_sessions-require_permission_example =
    revoke_all_sessions-require_permission shop access_vault shop-IsQuiet "c9" "a1" crowd
      payment_refund posted none answered_for refl

set_user_status_lem_example :
    HasStatus "c9" UserStatus.deleted
      (set_user_status shop "c9" UserStatus.deleted "a1" "fraud" crowd).1.db
    × IsSignedOut "c9" (set_user_status shop "c9" UserStatus.deleted "a1" "fraud" crowd).1.db
unfolding machine
set_user_status_lem_example =
    set_user_status_lem shop shop-IsQuiet "c9" "a1" "fraud" UserStatus.deleted crowd
      ((refl, tt), (tt, tt)) (λ e. cc) ("c9", "DELETED") refl

set_user_status-require_permission_example : answered_for.user_id ≢ "c9"
unfolding machine
set_user_status-require_permission_example =
    set_user_status-require_permission shop access_vault shop-IsQuiet "c9" "a1" "fraud" crowd
      ((refl, tt), (tt, tt)) ("c9", "SUSPENDED") refl payment_refund posted none answered_for refl

-- Settings of production in which nothing but the cookie policy is left to do.
abbrev live_settings : Settings
live_settings = record shop.settings {
  environment = Environment.production;
  session_cookie_samesite = SameSite.lax;
  jwt_secret = "0123456789abcdef0123456789abcdef";
  mongodb_uri = "mongodb+srv://cluster";
  cors_origins = "https://voltaris.rw" ∷ [];
  payment_webhook_secret = "whsec";
}

load_settings_iff_example :
    (load_settings live_settings ≡ started (production_cookie_policy live_settings)) ↔ (
      (production_cookie_policy live_settings ≡ production_cookie_policy live_settings)
      × IsSecure (production_cookie_policy live_settings))
load_settings_iff_example =
    load_settings_iff live_settings (production_cookie_policy live_settings) refl

-- They start.
live_settings_start : load_settings live_settings ≡ started (production_cookie_policy live_settings)
unfolding load_settings str_length starts_with
live_settings_start = refl

-- A secret of 31 characters does not.
short_secret :
    load_settings (record live_settings { jwt_secret = "0123456789abcdef0123456789abcde" })
    ≡ refused ("JWT_SECRET (min 32 chars)" ∷ [])
unfolding load_settings str_length starts_with
short_secret = refl
