-- ===== src/Admin/Console.antt =====
-- The named write operations of `AdminConsoleService`: app/modules/admin/console.py.
use voltaris_mobility_backen.Prelude.{
  ℕ, String, string_eq, ◌==◌, Bool, true, false, not, ◌&&◌, is_some, leb, none, some, List, [], ◌∷◌,
  map, contains,
}
use voltaris_mobility_backen.Prelude.Int.{pos}
use voltaris_mobility_backen.Core.Errors.{forbidden, user_not_found}
use voltaris_mobility_backen.Core.Platform.{Platform}
use voltaris_mobility_backen.Core.Action.{
  Action, pure, or_raise, raise_if, when, ◌>>=◌, ◌>>◌, utc_now, find_one, update_one, update_many,
  find_many, count_documents,
}
use voltaris_mobility_backen.Database.Collections
use voltaris_mobility_backen.Database.Keys.{descending, time_key}
use voltaris_mobility_backen.Audit.Models.{AuditEntry, text, texts, number}
use voltaris_mobility_backen.Audit.Service.{record_change}
use voltaris_mobility_backen.Users.Models.{User, UserStatus, Role, role_value}
use voltaris_mobility_backen.Auth.Models.{Session}
use voltaris_mobility_backen.Auth.Sessions.{revoke}

abbrev pub max_limit : ℕ
max_limit = 200

abbrev pub is_active : UserStatus → Bool
is_active UserStatus.active = true
is_active _ = false

abbrev pub status_name : UserStatus → String
status_name UserStatus.active = "ACTIVE"
status_name UserStatus.pending_verification = "PENDING_VERIFICATION"
status_name UserStatus.suspended = "SUSPENDED"
status_name UserStatus.deleted = "DELETED"

-- `{"roles": "SUPER_ADMIN", "status": "ACTIVE"}`
abbrev pub is_active_super : User → Bool
is_active_super u = contains u.roles "SUPER_ADMIN" && is_active u.status

-- `{"user_id": user_id, "revoked_at": None}`
abbrev pub is_open_session : String → Session → Bool
is_open_session user_id x = x.user_id == user_id && not (is_some x.revoked_at)

module _ (p : Platform) where
  abbrev pub revoke_open : String → String → Action ℕ
  revoke_open user_id reason = do
    now ← utc_now p
    update_many p Collections.sessions (is_open_session user_id) (revoke reason now)

  abbrev pub end_sessions : String → Action (Unit {0})
  end_sessions user_id = do revoke_open user_id "status_change"; pure tt

  -- `set_user_status`
  unfoldable pub set_user_status : String → UserStatus → String → String → Action (String × String)
  set_user_status user_id status actor_id reason = do
    row ← find_one p Collections.users (λ u. u.id == user_id)
    u ← or_raise row user_not_found
    now ← utc_now p
    update_one p Collections.users (λ x. x.id == user_id)
        (λ x. record x { status = status; updated_at = now })
    when (not (is_active status)) (end_sessions user_id)
    record_change p (record {
      action = "admin.user_status_changed";
      entity_type = "user";
      entity_id = user_id;
      actor_id = some actor_id;
      before = some (("status", text (status_name u.status)) ∷ []);
      after = some (("status", text (status_name status)) ∷ ("reason", text reason) ∷ []);
      ip = none;
    })
    pure (user_id, status_name status)

  -- The last active super admin keeps the role.
  unfoldable pub keep_a_super : Action (Unit {0})
  keep_a_super = do
    remaining ← count_documents p Collections.users is_active_super none
    raise_if (leb remaining 1) forbidden

  abbrev pub demotes : User → List Role → Bool
  demotes u roles =
      contains u.roles "SUPER_ADMIN" && not (contains (map role_value roles) "SUPER_ADMIN")

  unfoldable pub write_roles :
      String → User → List Role → String → String → Action (String × List String)
  write_roles user_id u roles actor_id reason = do
    now ← utc_now p
    update_one p Collections.users (λ x. x.id == user_id)
        (λ x. record x { roles = map role_value roles; updated_at = now })
    record_change p (record {
      action = "admin.user_roles_changed";
      entity_type = "user";
      entity_id = user_id;
      actor_id = some actor_id;
      before = some (("roles", texts u.roles) ∷ []);
      after = some (("roles", texts (map role_value roles)) ∷ ("reason", text reason) ∷ []);
      ip = none;
    })
    pure (user_id, map role_value roles)

  -- `set_user_roles`
  unfoldable pub set_user_roles :
      String → List Role → String → String → Action (String × List String)
  set_user_roles user_id roles actor_id reason = do
    raise_if (user_id == actor_id) forbidden
    row ← find_one p Collections.users (λ u. u.id == user_id)
    u ← or_raise row user_not_found
    when (demotes u roles) keep_a_super
    write_roles user_id u roles actor_id reason

  -- `revoke_all_sessions`
  unfoldable pub revoke_all_sessions : String → String → Action (String × ℕ)
  revoke_all_sessions user_id actor_id = do
    revoked ← revoke_open user_id "admin_revoked"
    record_change p (record {
      action = "admin.sessions_revoked";
      entity_type = "user";
      entity_id = user_id;
      actor_id = some actor_id;
      before = none;
      after = some (("revoked", number (pos revoked)) ∷ []);
      ip = none;
    })
    pure (user_id, revoked)

  -- `entity_history`
  unfoldable pub entity_history : String → String → Action (List AuditEntry)
  entity_history entity_type entity_id =
      find_many p Collections.audit_logs
        (λ x. x.entity_type == entity_type && x.entity_id == entity_id)
        (descending (λ x. time_key (some x.at))) 0 max_limit
