-- ===== src/Auth/Sound.antt =====
-- What stands behind a login and a refresh that are answered.
use voltaris_mobility_backen.Prelude.{
  String, string_eq, ◌==◌, ==-eq, not-eq-false, ◌≡◌, refl, sym, ap, ◌∙◌, subst, not, Option, none,
  some, List, arith,
}
use voltaris_mobility_backen.Core.Platform.{Platform, IsQuiet}
use voltaris_mobility_backen.Core.Action.{ok, State}
use voltaris_mobility_backen.Core.Returns.{
  Returns, Anything, IsQuiet-Stable, Returns-fail, Returns-if, Returns-weaken, Returns-keep,
  Returns-after, Returns-or_raise, Returns-find_one,
}
use voltaris_mobility_backen.Database.Mongo.{With}
use voltaris_mobility_backen.Database.Collections
use voltaris_mobility_backen.Database.Collections.{Db}
use voltaris_mobility_backen.Users.Models.{User}
use voltaris_mobility_backen.Auth.Models.{Session}
use voltaris_mobility_backen.Auth.Tokens.{Vault, Claims, TokenType}
use voltaris_mobility_backen.Auth.Decoding.{IsToken, decode_token-Keeps, decode_token-Returns}
use voltaris_mobility_backen.Auth.Sessions.{
  TokenPair, active_session, live_user, kill_session, refresh_user, refresh,
}

pub active_session_lem :
    (x y : Session) → active_session (some x) ≡ some y → (y ≡ x) × (x.revoked_at ≡ none)
active_session_lem x y h = ground arith

pub live_user_lem : (u w : User) → live_user (some u) ≡ some w → (w ≡ u) × (u.deleted_at ≡ none)
live_user_lem u w h = ground arith

-- What a refreshed pair of tokens rests on.
pub record IsRefreshable (p : Platform) (vault : Vault) (token : String) (db : Db) : Type 0 where
  pub claims : Claims
  pub is_token : IsToken p vault TokenType.refresh token claims
  pub session : Session
  pub other_sessions : List Session
  pub stored : With session other_sessions db.sessions
  pub meant : session.session_id ≡ claims.session_id
  pub active : session.revoked_at ≡ none
  pub current : session.refresh_jti ≡ claims.jti
  pub user : User
  pub other_users : List User
  pub known : With user other_users db.users
  pub subject : user.id ≡ claims.subject
  pub live : user.deleted_at ≡ none

module _ (p : Platform) (vault : Vault) (quiet : IsQuiet p) (before : Db) where
  abbrev Accounts : Db → Type 0
  Accounts db = (db.sessions ≡ before.sessions) × (db.users ≡ before.users)

  abbrev Rests : String → TokenPair → Type 0
  Rests token r = IsRefreshable p vault token before

  kill_session-Returns :
      (claims : Claims) (ip : Option String) (token : String)
      → Returns Anything (kill_session p vault claims ip) (Rests token)
  unfolding kill_session
  kill_session-Returns claims ip token =
      Returns-after _ _ (λ now. Returns-after _ _ (λ _. Returns-after _ _ (λ _. Returns-fail _)))

  refresh_user-Returns :
      (token : String) (claims : Claims)
      → ((u : User) (rest : List User)
          → With u rest before.users
          → u.id ≡ claims.subject
          → u.deleted_at ≡ none
          → IsRefreshable p vault token before)
      → Returns Accounts (refresh_user p vault claims) (Rests token)
  unfolding refresh_user
  refresh_user-Returns token claims h =
      Returns-find_one p (IsQuiet-Stable Accounts quiet) Collections.users _ _
        (λ db u rest same w m. Returns-or_raise (live_user (some u)) _ _ (λ v e. record {
          at = λ s i a x.
              h u rest (subst (With u rest) same.1 w) (==-eq _ _ m) (live_user_lem u v e).1;
        }))
        (λ db same none_match. Returns-or_raise (live_user none) _ _ (λ v e. absurd (cc (e))))

  refresh-Returns :
      (token : String) (ip : Option String)
      → Returns Accounts (refresh p vault token ip) (Rests token)
  unfolding refresh
  refresh-Returns token ip =
      Returns-keep _ _ (decode_token-Keeps p vault TokenType.refresh token)
        (decode_token-Returns p vault TokenType.refresh token)
        (λ claims is_token.
          Returns-find_one p (IsQuiet-Stable Accounts quiet) Collections.sessions _ _
            (λ db x rest same w m. Returns-or_raise (active_session (some x)) _ _ (λ y e.
              Returns-if (not (y.refresh_jti == claims.jti)) _ _
                (λ stale. Returns-weaken _ (λ db h. tt) (kill_session-Returns claims ip token))
                (λ current. refresh_user-Returns token claims (λ u others v subject live.
                  let (same_session, active) = active_session_lem x y e in
                  record {
                    claims = claims;
                    is_token = is_token;
                    session = x;
                    other_sessions = rest;
                    stored = subst (With x rest) same.0 w;
                    meant = ==-eq _ _ m;
                    active = active;
                    current =
                        sym (ap (λ (z : Session). z.refresh_jti) same_session)
                        ∙ ==-eq _ _ (not-eq-false _ current);
                    user = u;
                    other_users = others;
                    known = v;
                    subject = subject;
                    live = live;
                  }))))
            (λ db same none_match.
              Returns-or_raise (active_session none) _ _ (λ y e. absurd (cc (e)))))

-- Alone on the database, a refresh is answered with new tokens only if the given token decodes as
-- a refresh token, the session that it names is stored and not revoked, the token is the current
-- one of that session and no earlier one, and its user is stored and not deleted.
pub refresh_lem :
    (p : Platform) (vault : Vault)
    → IsQuiet p
    → (token : String) (ip : Option String) (s : State) (r : TokenPair)
    → (refresh p vault token ip s).0 ≡ ok r
    → IsRefreshable p vault token s.db
refresh_lem p vault quiet token ip s r e =
    (refresh-Returns p vault quiet s.db token ip).at s (refl, refl) r e
