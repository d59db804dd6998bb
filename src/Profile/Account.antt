-- ===== src/Profile/Account.antt =====
-- The account's own data: `get` and `update` of app/modules/users/profile_service.py. A change is a
-- key of the request body with its value.
use voltaris_mobility_backen.Prelude.{
  ℕ, String, string_eq, ◌==◌, Bool, true, false, not, ◌&&◌, get_or, none, some, List, [], ◌∷◌,
  contains, if◌then◌else◌,
}
use voltaris_mobility_backen.Core.Errors.{user_not_found}
use voltaris_mobility_backen.Core.Platform.{Platform}
use voltaris_mobility_backen.Core.Action.{
  Action, pure, or_raise, ◌>>=◌, ◌>>◌, utc_now, find_one, update_one,
}
use voltaris_mobility_backen.Database.Collections
use voltaris_mobility_backen.Users.Models.{
  User, UserStatus, FieldValue, null, text, flag, texts, time, linked,
}

abbrev pub Changes : Type 0
Changes = List (String × FieldValue)

abbrev pub editable : List String
editable = "full_name" ∷ "phone" ∷ "preferred_language" ∷ "marketing_opt_in" ∷ []

abbrev pub is_null : FieldValue → Bool
is_null null = true
is_null _ = false

-- `update["name"] = update.pop("full_name")`
abbrev pub stored_key : String → String
stored_key key = if key == "full_name" then "name" else key

-- `{k: v for k, v in changes.items() if k in allowed and v is not None}`, with the stored names
unfoldable pub allowed_changes : Changes → Changes
allowed_changes [] = []
allowed_changes ((key, value) ∷ changes) =
    let rest = allowed_changes changes in
    if contains editable key && not (is_null value) then (stored_key key, value) ∷ rest else rest

-- A write that the record has no place for
abbrev pub set_other : String → FieldValue → User → User
set_other key value u = record u { other_fields = (key, value) ∷ u.other_fields }

abbrev pub set_status : String → User → User
set_status value u =
    if value == "ACTIVE"
    then record u { status = UserStatus.active }
    else if value == "PENDING_VERIFICATION"
    then record u { status = UserStatus.pending_verification }
    else if value == "SUSPENDED"
    then record u { status = UserStatus.suspended }
    else if value == "DELETED"
    then record u { status = UserStatus.deleted }
    else set_other "status" (text value) u

-- `{"$set": {key: value}}` writes any key, with a value of any type.
abbrev pub set_text : String → String → User → User
set_text key value u =
    if key == "name"
    then record u { name = value }
    else if key == "phone"
    then record u { phone = some value }
    else if key == "preferred_language"
    then record u { preferred_language = some value }
    else if key == "_id"
    then record u { id = value }
    else if key == "email"
    then record u { email = value }
    else if key == "password_hash"
    then record u { password_hash = some value }
    else if key == "status"
    then set_status value u
    else set_other key (text value) u

abbrev pub set_flag : String → Bool → User → User
set_flag key value u =
    if key == "marketing_opt_in"
    then record u { marketing_opt_in = value }
    else if key == "email_verified"
    then record u { email_verified = value }
    else if key == "phone_verified"
    then record u { phone_verified = value }
    else if key == "mfa_enabled"
    then record u { mfa_enabled = value }
    else set_other key (flag value) u

abbrev pub set_time : String → ℕ → User → User
set_time key value u =
    if key == "created_at"
    then record u { created_at = value }
    else if key == "updated_at"
    then record u { updated_at = value }
    else if key == "deleted_at"
    then record u { deleted_at = some value }
    else set_other key (time value) u

abbrev pub set_null : String → User → User
set_null key u =
    if key == "phone"
    then record u { phone = none }
    else if key == "preferred_language"
    then record u { preferred_language = none }
    else if key == "password_hash"
    then record u { password_hash = none }
    else if key == "deleted_at"
    then record u { deleted_at = none }
    else set_other key null u

abbrev pub set_field : String → FieldValue → User → User
set_field key null u = set_null key u
set_field key (text value) u = set_text key value u
set_field key (flag value) u = set_flag key value u
set_field key (time value) u = set_time key value u
set_field key (texts value) u =
    if key == "roles" then record u { roles = value } else set_other key (texts value) u
set_field key (linked value) u =
    if key == "identities" then record u { identities = value } else set_other key (linked value) u

unfoldable pub set_fields : Changes → User → User
set_fields [] u = u
set_fields ((key, value) ∷ changes) u = set_fields changes (set_field key value u)

pub record Account : Type 0 where
  pub id : String
  pub full_name : String
  pub email : String
  pub phone : String
  pub email_verified : Bool
  pub preferred_language : String
  pub marketing_opt_in : Bool
  pub created_at : ℕ

module _ (p : Platform) where
  -- `get`
  unfoldable pub get : String → Action Account
  get user_id = do
    row ← find_one p Collections.users (λ u. u.id == user_id)
    u ← or_raise row user_not_found
    pure (record {
      id = u.id;
      full_name = u.name;
      email = u.email;
      phone = get_or u.phone "";
      email_verified = u.email_verified;
      preferred_language = get_or u.preferred_language "en";
      marketing_opt_in = u.marketing_opt_in;
      created_at = u.created_at;
    })

  abbrev pub write_changes : String → Changes → Action (Unit {0})
  write_changes user_id [] = pure tt
  write_changes user_id (change ∷ changes) = do
    now ← utc_now p
    update_one p Collections.users (λ u. u.id == user_id)
        (λ u. set_fields (change ∷ changes) (record u { updated_at = now }))
    pure tt

  -- `update`
  unfoldable pub update : String → Changes → Action Account
  unfolding allowed_changes set_fields
  update user_id changes = do write_changes user_id (allowed_changes changes); get user_id
