-- ===== src/Admin/Barred.antt =====
-- A request after the console ended the sessions of an account: app/modules/admin/console.py and the
-- guards of app/api/deps.py.
use voltaris_mobility_backen.Prelude.{
  String, string_eq, ◌==◌, ==-ne, ==-refl, ◌≡◌, ◌≢◌, refl, sym, ap, ◌∙◌, subst, Bool, true, false,
  not, ◌&&◌, is_some, Option, none, List,
}
use voltaris_mobility_backen.Core.Platform.{Platform, IsQuiet}
use voltaris_mobility_backen.Core.Action.{ok, State}
use voltaris_mobility_backen.Database.With.{With}
use voltaris_mobility_backen.Database.Bags.{All-take, Distinct}
use voltaris_mobility_backen.Users.Models.{UserStatus, Permission}
use voltaris_mobility_backen.Auth.Models.{Session}
use voltaris_mobility_backen.Auth.Tokens.{Vault}
use voltaris_mobility_backen.Api.Cookies.{HttpRequest}
use voltaris_mobility_backen.Api.Principals.{Principal, principal_of, require_permission}
use voltaris_mobility_backen.Api.Guards.{require_permission_lem}
use voltaris_mobility_backen.Admin.Console.{
  is_active, is_open_session, set_user_status, revoke_all_sessions,
}
use voltaris_mobility_backen.Admin.LastAdmin.{same_id}
use voltaris_mobility_backen.Admin.Revocation.{
  IsSignedOut, HasStatus, revoke_all_sessions-Ends, set_user_status-Leaves,
}

-- An open session is not one of an account that has none.
open_elsewhere :
    (user_id : String) (x : Session)
    → is_open_session user_id x ≡ false
    → x.revoked_at ≡ none
    → x.user_id ≢ user_id
open_elsewhere user_id x closed active = ==-ne x.user_id user_id (
    not_both (x.user_id == user_id)
      (subst (λ r. ((x.user_id == user_id) && not (is_some r)) ≡ false) active closed))
  where
    not_both : (b : Bool) → (b && true) ≡ false → b ≡ false
    not_both true h = absurd (cc (h))
    not_both false h = refl

-- Alone on the database: after `revoke_all_sessions`, however it ended, no stored session of the
-- account is open.
pub revoke_all_sessions_lem :
    (p : Platform)
    → IsQuiet p
    → (user_id actor_id : String) (s : State)
    → IsSignedOut user_id (revoke_all_sessions p user_id actor_id s).1.db
revoke_all_sessions_lem p quiet user_id actor_id s =
    ((revoke_all_sessions-Ends p quiet user_id actor_id).at s tt).1

-- Alone on the database: after `revoke_all_sessions`, however it ended, a request that passes the
-- guard of a permission does so on a stored session of another account.
pub revoke_all_sessions-require_permission :
    (p : Platform) (vault : Vault)
    → IsQuiet p
    → (user_id actor_id : String) (s : State) (permission : Permission) (request : HttpRequest)
      (authorization : Option String) (q : Principal)
    → (require_permission p vault permission request authorization
        (revoke_all_sessions p user_id actor_id s).1).0
      ≡ ok q
    → (x : Session) × (rest : List Session) × With x rest
        (revoke_all_sessions p user_id actor_id s).1.db.sessions
      × (x.session_id ≡ q.session_id)
      × (x.user_id ≢ user_id)
unfolding principal_of
revoke_all_sessions-require_permission p vault quiet user_id actor_id s permission request
      authorization q passed =
    let closed = revoke_all_sessions_lem p quiet user_id actor_id s in
    let (known, granted) =
      require_permission_lem p vault quiet permission request authorization _ q passed in
    (
      known.session,
      known.other_sessions,
      known.stored,
      known.meant ∙ sym (ap (λ (x : Principal). x.session_id) known.identity),
      open_elsewhere user_id known.session (All-take _ known.stored closed).0 known.active,
    )

-- Alone on the database, with one account to an id: once `set_user_status` has answered for a status
-- other than ACTIVE, every stored account of the id has that status, and none of its stored sessions
-- is open.
pub set_user_status_lem :
    (p : Platform)
    → IsQuiet p
    → (user_id actor_id reason : String) (status : UserStatus) (s : State)
    → Distinct same_id s.db.users
    → status ≢ UserStatus.active
    → (answer : String × String)
    → (set_user_status p user_id status actor_id reason s).0 ≡ ok answer
    → HasStatus user_id status (set_user_status p user_id status actor_id reason s).1.db
      × IsSignedOut user_id (set_user_status p user_id status actor_id reason s).1.db
set_user_status_lem p quiet user_id actor_id reason status s one inactive answer answered =
    (set_user_status-Leaves p quiet user_id status (ends status inactive) actor_id reason).at s one
      answer answered
  where
    ends : (status : UserStatus) → status ≢ UserStatus.active → not (is_active status) ≡ true
    ends UserStatus.active h = absurd (h refl)
    ends UserStatus.pending_verification h = refl
    ends UserStatus.suspended h = refl
    ends UserStatus.deleted h = refl

-- Alone on the database, with one account to an id: once `set_user_status` has answered for a
-- suspension, a request that passes the guard of a permission is one of another account.
pub set_user_status-require_permission :
    (p : Platform) (vault : Vault)
    → IsQuiet p
    → (user_id actor_id reason : String) (s : State) → Distinct same_id s.db.users
    → (answer : String × String)
    → (set_user_status p user_id UserStatus.suspended actor_id reason s).0 ≡ ok answer
    → (permission : Permission) (request : HttpRequest) (authorization : Option String)
      (q : Principal)
    → (require_permission p vault permission request authorization
        (set_user_status p user_id UserStatus.suspended actor_id reason s).1).0
      ≡ ok q
    → q.user_id ≢ user_id
unfolding principal_of
set_user_status-require_permission p vault quiet user_id actor_id reason s one answer answered
      permission request authorization q passed e =
    let status =
      (set_user_status_lem p quiet user_id actor_id reason UserStatus.suspended s one (λ e. cc)
        answer answered).0 in
    let (known, granted) =
      require_permission_lem p vault quiet permission request authorization _ q passed in
    let same_user = ap (λ (x : Principal). x.user_id) known.identity in
    known.admitted (
      (All-take _ known.known status).0
        (subst (λ (i : String). (i == user_id) ≡ true) (sym e ∙ same_user) (==-refl user_id)))
