-- ===== src/Tests/Area.antt =====
-- The theorems on guards, accounts, leads and the console at work on sample data.
use voltaris_mobility_backen.Prelude.{
  ◌≤◌, ◌<◌, ◌-◌, string_eq, ◌==◌, ◌≡◌, refl, is_some, true, false, none, some, [], ◌∷◌, length, All,
  arith, if◌then◌else◌,
}
use voltaris_mobility_backen.Prelude.Int.{pos, ◌-ℤ◌}
use voltaris_mobility_backen.Prelude.Text.{str_ℕ, is_ascii}
use voltaris_mobility_backen.Core.Action.{State, ok}
use voltaris_mobility_backen.Core.Security.{
  non_empty, expected_digest, verify_webhook_signature, sign_webhook,
}
use voltaris_mobility_backen.Core.Signing.{sign_webhook-verify_webhook_signature}
use voltaris_mobility_backen.Database.Reads.{select}
use voltaris_mobility_backen.Users.Models.{FieldValue, User, UserStatus, Role, payment_refund}
use voltaris_mobility_backen.Users.Grants.{IsGranted}
use voltaris_mobility_backen.Auth.Tokens.{Vault, decoded}
use voltaris_mobility_backen.Api.Cookies.{HttpRequest}
use voltaris_mobility_backen.Api.Principals.{principal_of}
use voltaris_mobility_backen.Api.Guards.{IsAuthenticated, require_permission_lem}
use voltaris_mobility_backen.Admin.Filter.{Node, text, dict, no_fields, field}
use voltaris_mobility_backen.Admin.Accepted.{height, entries, IsHarmless, validate_lem}
use voltaris_mobility_backen.Admin.Console.{set_user_roles}
use voltaris_mobility_backen.Admin.LastAdmin.{active_supers, set_user_roles_lem}
use voltaris_mobility_backen.Admin.Inspection.{RawReads, Inspection}
use voltaris_mobility_backen.Admin.Exposure.{IsExposure, inspect_lem}
use voltaris_mobility_backen.Leads.Service.{InquiryForm, Receipt, is_recent, hour, create_inquiry}
use voltaris_mobility_backen.Leads.Throttle.{create_inquiry_lem}
use voltaris_mobility_backen.Profile.Account.{Changes, set_field, update}
use voltaris_mobility_backen.Profile.Protected.{Standing, standing, update_lem}
use voltaris_mobility_backen.Profile.Service.{create_saved_search}
use voltaris_mobility_backen.Profile.Limits.{IsWithinLimit, create_saved_search_lem}
use voltaris_mobility_backen.Orders.Documents.{serialise}
use voltaris_mobility_backen.Orders.Models.{Order, OrderKind, pending}
use voltaris_mobility_backen.Orders.Listing.{Cursors}
use voltaris_mobility_backen.Orders.History.{IsHistory, list_for_customer_lem}
use voltaris_mobility_backen.Tests.Machine.{machine}
use voltaris_mobility_backen.Tests.Samples.{shop, opening}
use voltaris_mobility_backen.Tests.Accounts.{vault, customer, session, claims_of}
use voltaris_mobility_backen.Tests.Witnesses.{shop-IsQuiet, shop-Stable}

-- A vault whose tokens are access tokens.
abbrev pub access_vault : Vault
access_vault = record vault {
  jwt_decode = λ now issuer token. decoded (record (claims_of token) { typ = "access" });
}

abbrev pub accountant : User
accountant = record customer { roles = "FINANCE" ∷ [] }

abbrev pub office : State
office = record opening {
  db = record opening.db { users = accountant ∷ []; sessions = session ∷ [] };
}

-- A form that the browser posts, with the CSRF token twice.
abbrev pub posted : HttpRequest
posted = record {
  method = "POST";
  cookie = λ name.
      if name == "voltaris_session"
      then some "j1"
      else if name == "voltaris_csrf"
      then some "c-1"
      else none;
  header = λ name. if name == "X-CSRF-Token" then some "c-1" else none;
}

require_permission_lem_example :
    (known : IsAuthenticated shop access_vault posted none office.db
      (principal_of (record (claims_of "j1") { typ = "access" }) accountant))
    × IsGranted known.user.roles payment_refund
unfolding machine
require_permission_lem_example =
    require_permission_lem shop access_vault shop-IsQuiet payment_refund posted none office
      (principal_of (record (claims_of "j1") { typ = "access" }) accountant) refl

-- {"status": {"$regex": "^PA"}}
abbrev query : Node
query = dict (field "status" (dict (field "$regex" (text "^PA") no_fields)) no_fields)

validate_lem_example : (height query ≤ 6) × All (IsHarmless (λ s. true)) (entries query)
unfolding machine
validate_lem_example = validate_lem (λ s. true) query refl

abbrev raw : RawReads
raw = record {
  find = λ n db name filter sort_field descending limit. [];
  within_limit = λ n db name filter sort_field descending limit. omega arith;
  count = λ db name. 0;
  indexes = λ name. 1;
  filter_text = λ filter. "";
  compiles = λ s. true;
}

abbrev nothing_found : Inspection
nothing_found = record {
  collection = "orders";
  count = 0;
  limit = 50;
  truncated = false;
  items = [];
}

inspect_lem_example : IsExposure raw "orders" (some query) nothing_found
unfolding machine
inspect_lem_example =
    inspect_lem shop raw "orders" (some query) "_id" true (pos 50) "a1" office nothing_found refl

abbrev root : User
root = record customer { id = "a1"; email = "a1@example.rw"; roles = "SUPER_ADMIN" ∷ [] }

abbrev staff : State
staff = record opening { db = record opening.db { users = root ∷ customer ∷ [] } }

set_user_roles_lem_example :
    1 ≤ active_supers (set_user_roles shop "a1" (Role.buyer ∷ []) "a2" "left" staff).1.db
unfolding machine
set_user_roles_lem_example =
    set_user_roles_lem shop shop-IsQuiet staff ((refl, tt), (tt, tt)) (omega arith) "a1"
      (Role.buyer ∷ []) "a2" "left"

abbrev changes : Changes
changes = ("phone", FieldValue.text "0788") ∷ ("roles", FieldValue.texts ("SUPER_ADMIN" ∷ [])) ∷ []

abbrev IsBuyer : Standing → Type 0
IsBuyer x = x.roles ≡ "BUYER" ∷ []

abbrev home : State
home = record opening { db = record opening.db { users = customer ∷ [] } }

update_lem_example : All (λ u. IsBuyer (standing u)) (update shop "c1" changes home).1.db.users
update_lem_example =
    update_lem shop IsBuyer (shop-Stable (λ db. All (λ u. IsBuyer (standing u)) db.users)) "c1"
      changes home (refl, tt)

-- A key that is not on the list would be written.
status_is_written :
    (set_field "status" (FieldValue.text "SUSPENDED") customer).status ≡ UserStatus.suspended
status_is_written = refl

create_saved_search_lem_example :
    IsWithinLimit (create_saved_search shop "c1" "cheap" "maxPrice=1" opening).1.db
create_saved_search_lem_example =
    create_saved_search_lem shop shop-IsQuiet "c1" "cheap" "maxPrice=1" opening (λ u. omega arith)

abbrev form : InquiryForm
form = record {
  full_name = "Customer";
  email = "c1@example.rw";
  phone = "0788";
  message = "Hello";
  vehicle_id = some "v1";
  preferred_channel = none;
  topic = none;
  source = "direct";
  customer_id = none;
  honeypot = none;
  ip = none;
}

create_inquiry_lem_example :
    (is_some (non_empty form.honeypot) ≡ true
      → (create_inquiry shop form opening).1.db.inquiries ≡ opening.db.inquiries)
    × ((r : Receipt)
        → is_some (non_empty form.honeypot) ≡ false
        → (create_inquiry shop form opening).0 ≡ ok r
        → length (
            select
              (is_recent (shop.lower form.email) (shop.now opening.calls - hour))
              opening.db.inquiries)
          < 5)
create_inquiry_lem_example = create_inquiry_lem shop shop-IsQuiet form opening

abbrev bought : Order
bought = record {
  id = "o1";
  reference = "VM-1";
  customer_id = "c1";
  vehicle_id = "v1";
  vehicle_slug = "nissan-leaf";
  vehicle_title = "2022 Nissan Leaf";
  kind = OrderKind.purchase;
  lines = [];
  total = pos 1;
  currency = "RWF";
  status = pending;
  payment_id = none;
  version = 0;
  created_at = 7;
  updated_at = 7;
}

abbrev later : Order
later = record bought { id = "o2"; reference = "VM-2"; created_at = 9 }

abbrev history : State
history = record opening { db = record opening.db { orders = bought ∷ later ∷ [] } }

abbrev cursors : Cursors
cursors = record { isoformat = λ t. "t"; fromisoformat = λ s. some 9 }

list_for_customer_lem_example :
    IsHistory cursors "c1" 1 none history.db (serialise later ∷ []) (some "t")
unfolding machine
list_for_customer_lem_example =
    list_for_customer_lem shop cursors shop-IsQuiet "c1" 1 none history (serialise later ∷ [])
      (some "t") refl

sign_webhook-verify_webhook_signature_example :
    verify_webhook_signature shop "body"
      (sign_webhook shop "body" "key" 1700000000)
      "key"
      300
      1700000060
    ≡ ok tt
unfolding expected_digest str_ℕ is_ascii ◌-ℤ◌
sign_webhook-verify_webhook_signature_example =
    sign_webhook-verify_webhook_signature shop "body" "key" 300 1700000060 1700000000 refl refl refl
      refl refl
