-- ===== src/Api/Guards.antt =====
-- What stands behind a request that a guard of app/api/deps.py lets through.
use voltaris_mobility_backen.Prelude.{
  String, string_eq, ◌==◌, ==-eq, not-eq-false, ◌≡◌, ◌≢◌, refl, sym, ap, ◌∙◌, subst, Bool, true,
  false, not, Option, none, some, List, contains, if◌then◌else◌, arith,
}
use voltaris_mobility_backen.Core.Errors.{forbidden}
use voltaris_mobility_backen.Core.Platform.{Platform, IsQuiet}
use voltaris_mobility_backen.Core.Action.{ok, State}
use voltaris_mobility_backen.Core.Returns.{
  Returns, IsQuiet-Stable, Returns-pure, Returns-then, Returns-keep, Returns-raise_if,
  Returns-or_raise, Returns-lift, Returns-find_one,
}
use voltaris_mobility_backen.Core.Security.{non_empty, compare_digest}
use voltaris_mobility_backen.Database.Mongo.{With}
use voltaris_mobility_backen.Database.Collections
use voltaris_mobility_backen.Database.Collections.{Db}
use voltaris_mobility_backen.Users.Models.{User, UserStatus, Permission, permission_eq}
use voltaris_mobility_backen.Users.Grants.{IsGranted, permissions_for_iff}
use voltaris_mobility_backen.Auth.Models.{Session}
use voltaris_mobility_backen.Auth.Tokens.{Vault, Claims, TokenType}
use voltaris_mobility_backen.Auth.Sessions.{active_session, live_user}
use voltaris_mobility_backen.Auth.Decoding.{IsToken, decode_token-Keeps, decode_token-Returns}
use voltaris_mobility_backen.Auth.Sound.{active_session_lem, live_user_lem}
use voltaris_mobility_backen.Api.Cookies.{
  HttpRequest, csrf_cookie, mutating_methods, extract_token, double_submit, enforce_csrf,
}
use voltaris_mobility_backen.Api.Principals.{
  Principal, principal_of, is_suspended, account_principal, token_principal, current_principal,
  require_permission,
}

-- The CSRF cookie and the header that repeats it.
abbrev pub IsDoubleSubmit : HttpRequest → Type 0
IsDoubleSubmit request =
    (token : String) × (request.cookie csrf_cookie ≡ some token)
    × (request.header "X-CSRF-Token" ≡ some token)

non_empty_lem : (o : Option String) (s : String) → non_empty o ≡ some s → o ≡ some s
non_empty_lem none s h = cc
non_empty_lem (some x) s h = branch (x == "") h
  where
    branch : (b : Bool) → (if b then none else some x) ≡ some s → some x ≡ some s
    branch true h = cc
    branch false h = h

compare_digest_lem : (c h : String) → compare_digest forbidden c h ≡ ok tt → c ≡ h
unfolding compare_digest
compare_digest_lem c h e = ==-eq c h (ground arith)

double_submit_lem :
    (c h : Option String) → double_submit c h ≡ ok tt → (t : String) × (c ≡ some t) × (h ≡ some t)
double_submit_lem none h e = absurd (cc (e))
double_submit_lem (some c) none e = absurd (cc (e))
double_submit_lem (some c) (some h) e = (c, refl, ap some (sym (compare_digest_lem c h e)))

enforce_csrf_lem :
    (request : HttpRequest)
    → enforce_csrf request ≡ ok tt
    → contains mutating_methods request.method ≡ true
    → IsDoubleSubmit request
unfolding enforce_csrf
enforce_csrf_lem request e m =
    let (t, c, h) =
      double_submit_lem (non_empty (request.cookie csrf_cookie))
        (non_empty (request.header "X-CSRF-Token"))
        (subst
          (λ b.
            (if not b
              then ok tt
              else double_submit (non_empty (request.cookie csrf_cookie))
                  (non_empty (request.header "X-CSRF-Token")))
            ≡ ok tt)
          m e) in
    (t, non_empty_lem _ t c, non_empty_lem _ t h)

-- What the identity of a request rests on.
pub record IsAuthenticated (p : Platform) (vault : Vault) (request : HttpRequest)
    (authorization : Option String) (db : Db) (principal : Principal) : Type 0 where
  pub token : String
  pub from_cookie : Bool
  pub extracted : extract_token p request authorization ≡ ok (token, from_cookie)
  pub double_submit :
      from_cookie ≡ true → contains mutating_methods request.method ≡ true → IsDoubleSubmit request
  pub claims : Claims
  pub is_token : IsToken p vault TokenType.access token claims
  pub session : Session
  pub other_sessions : List Session
  pub stored : With session other_sessions db.sessions
  pub meant : session.session_id ≡ claims.session_id
  pub active : session.revoked_at ≡ none
  pub user : User
  pub other_users : List User
  pub known : With user other_users db.users
  pub subject : user.id ≡ claims.subject
  pub live : user.deleted_at ≡ none
  pub admitted : user.status ≢ UserStatus.suspended
  pub identity : principal ≡ principal_of claims user

not_suspended : (status : UserStatus) → is_suspended status ≡ false → status ≢ UserStatus.suspended
not_suspended status h e = absurd (cc (h, ap is_suspended e))

module _ (p : Platform) (vault : Vault) (quiet : IsQuiet p) (before : Db) where
  abbrev Accounts : Db → Type 0
  Accounts db = (db.sessions ≡ before.sessions) × (db.users ≡ before.users)

  account_principal-Returns :
      (claims : Claims) (Q : Principal → Type 0)
      → ((u : User) (rest : List User)
          → With u rest before.users
          → u.id ≡ claims.subject
          → u.deleted_at ≡ none
          → u.status ≢ UserStatus.suspended
          → Q (principal_of claims u))
      → Returns Accounts (account_principal p vault claims) Q
  unfolding account_principal
  account_principal-Returns claims Q h =
      Returns-find_one p (IsQuiet-Stable Accounts quiet) Collections.users _ _
        (λ db u rest same w m. Returns-or_raise (live_user (some u)) _ _ (λ v e.
          let (is_u, live) = live_user_lem u v e in
          Returns-raise_if _ _ _ (λ admitted. Returns-pure _ (
            subst (λ x. Q (principal_of claims x)) (sym is_u)
              (h u rest (subst (With u rest) same.1 w) (==-eq _ _ m) live (
                not_suspended u.status
                  (ap (λ (x : User). is_suspended x.status) (sym is_u) ∙ admitted)))))))
        (λ db same none_match. Returns-or_raise (live_user none) _ _ (λ v e. absurd (cc (e))))

  token_principal-Returns :
      (token : String) (Q : Principal → Type 0)
      → ((claims : Claims) (x : Session) (rest : List Session) (u : User) (others : List User)
          → IsToken p vault TokenType.access token claims
          → With x rest before.sessions
          → x.session_id ≡ claims.session_id
          → x.revoked_at ≡ none
          → With u others before.users
          → u.id ≡ claims.subject
          → u.deleted_at ≡ none
          → u.status ≢ UserStatus.suspended
          → Q (principal_of claims u))
      → Returns Accounts (token_principal p vault token) Q
  unfolding token_principal
  token_principal-Returns token Q h =
      Returns-keep _ _ (decode_token-Keeps p vault TokenType.access token)
        (decode_token-Returns p vault TokenType.access token)
        (λ claims is_token.
          Returns-find_one p (IsQuiet-Stable Accounts quiet) Collections.sessions _ _
            (λ db x rest same w m. Returns-or_raise (active_session (some x)) _ _ (λ y e.
              account_principal-Returns claims Q (λ u others v subject live admitted.
                h claims x rest u others is_token (subst (With x rest) same.0 w) (==-eq _ _ m)
                  (active_session_lem x y e).1 v subject live admitted)))
            (λ db same none_match.
              Returns-or_raise (active_session none) _ _ (λ y e. absurd (cc (e)))))

  csrf_known :
      (request : HttpRequest) (b : Bool)
      → (if b then enforce_csrf request else ok tt) ≡ ok tt
      → b ≡ true
      → contains mutating_methods request.method ≡ true
      → IsDoubleSubmit request
  csrf_known request true e is_cookie m = enforce_csrf_lem request e m
  csrf_known request false e is_cookie m = absurd (cc (is_cookie))

  pub current_principal-Returns :
      (request : HttpRequest) (authorization : Option String)
      → Returns Accounts
          (current_principal p vault request authorization)
          (IsAuthenticated p vault request authorization before)
  unfolding current_principal
  current_principal-Returns request authorization =
      Returns-lift (extract_token p request authorization) _ (λ extracted found.
        Returns-lift _ _ (λ _ checked.
          token_principal-Returns extracted.0 _
            (λ claims x rest u others is_token stored meant active known subject live admitted.
              record {
                token = extracted.0;
                from_cookie = extracted.1;
                extracted = found;
                double_submit = csrf_known request extracted.1 checked;
                claims = claims;
                is_token = is_token;
                session = x;
                other_sessions = rest;
                stored = stored;
                meant = meant;
                active = active;
                user = u;
                other_users = others;
                known = known;
                subject = subject;
                live = live;
                admitted = admitted;
                identity = refl;
              })))

  require_permission-Returns :
      (permission : Permission) (request : HttpRequest) (authorization : Option String)
      → Returns Accounts (require_permission p vault permission request authorization) (λ q.
        IsAuthenticated p vault request authorization before q
        × (contains q.permissions permission ≡ true))
  unfolding require_permission
  require_permission-Returns permission request authorization =
      Returns-then _ _ (current_principal-Returns request authorization) (λ q known.
        Returns-raise_if _ _ _ (λ granted. Returns-pure q (known, not-eq-false _ granted)))

-- Alone on the database, a request passes the guard of a permission only if its token decodes as an
-- access token whose session is stored and not revoked and whose account is stored, not deleted and
-- not suspended, a cookie that changes something comes with the CSRF token twice, and the roles that
-- the account has now grant the permission.
pub require_permission_lem :
    (p : Platform) (vault : Vault)
    → IsQuiet p
    → (permission : Permission) (request : HttpRequest) (authorization : Option String) (s : State)
      (q : Principal)
    → (require_permission p vault permission request authorization s).0 ≡ ok q
    → (known : IsAuthenticated p vault request authorization s.db q) × IsGranted known.user.roles
        permission
unfolding principal_of
require_permission_lem p vault quiet permission request authorization s q e =
    let (known, granted) =
      (require_permission-Returns p vault quiet s.db permission request authorization).at s
        (refl, refl) q e in
    (
      known,
      (permissions_for_iff known.user.roles permission).0 (
          subst (λ (x : Principal). contains x.permissions permission ≡ true) known.identity
            granted),
    )
