-- ===== src/Api/Cookies.antt =====
-- The session transport of app/core/sessions.py. A request is what the framework's look-ups of it
-- answer.
use voltaris_mobility_backen.Prelude.{
  ℕ, suc, String, string_eq, Bool, true, false, not, ◌||◌, Option, none, some, List, [], ◌∷◌,
  contains, if◌then◌else◌,
}
use voltaris_mobility_backen.Prelude.Text.{starts_with}
use voltaris_mobility_backen.Core.Config.{SameSite}
use voltaris_mobility_backen.Core.Errors.{
  app_error, python_error, authentication_required, forbidden,
}
use voltaris_mobility_backen.Core.Platform.{Platform}
use voltaris_mobility_backen.Core.Action.{Action, Result, ok, err, pure, ◌>>=◌}
use voltaris_mobility_backen.Core.Startup.{is_production}
use voltaris_mobility_backen.Core.Security.{non_empty, split_once, compare_digest}
use voltaris_mobility_backen.Auth.Tokens.{Vault}

abbrev pub session_cookie : String
session_cookie = "voltaris_session"

abbrev pub refresh_cookie : String
refresh_cookie = "voltaris_refresh"

abbrev pub csrf_cookie : String
csrf_cookie = "voltaris_csrf"

abbrev pub refresh_path : String
refresh_path = "/api/v1/auth/refresh"

abbrev pub mutating_methods : List String
mutating_methods = "POST" ∷ "PUT" ∷ "PATCH" ∷ "DELETE" ∷ []

-- `request.method`, `request.cookies.get` and `request.headers.get`
pub record HttpRequest : Type 0 where
  pub method : String
  pub cookie : String → Option String
  pub header : String → Option String

-- The arguments of `response.set_cookie`, and of `response.delete_cookie`.
pub record Cookie : Type 0 where
  pub key : String
  pub value : String
  pub httponly : Bool
  pub secure : Bool
  pub samesite : SameSite
  pub max_age : ℕ
  pub path : String

pub record DeletedCookie : Type 0 where
  pub key : String
  pub path : String
  pub secure : Bool
  pub samesite : SameSite

abbrev pub is_none : SameSite → Bool
is_none SameSite.none = true
is_none _ = false

module _ (p : Platform) where
  abbrev pub is_secure : Bool
  is_secure = is_production p.settings.environment || is_none p.settings.session_cookie_samesite

  -- The cookies of a response, in the order in which they are set.
  abbrev pub cookies_for : String → String → String → List Cookie
  cookies_for access refresh csrf =
      record {
        key = session_cookie;
        value = access;
        httponly = true;
        secure = is_secure;
        samesite = p.settings.session_cookie_samesite;
        max_age = p.settings.access_token_ttl_seconds;
        path = "/";
      }
      ∷ record {
        key = refresh_cookie;
        value = refresh;
        httponly = true;
        secure = is_secure;
        samesite = p.settings.session_cookie_samesite;
        max_age = p.settings.refresh_token_ttl_seconds;
        path = refresh_path;
      }
      ∷ record {
        key = csrf_cookie;
        value = csrf;
        httponly = false;
        secure = is_secure;
        samesite = p.settings.session_cookie_samesite;
        max_age = p.settings.refresh_token_ttl_seconds;
        path = "/";
      }
      ∷ []

  -- `secrets.token_urlsafe(24)`
  unfoldable pub new_csrf_token : Vault → Action String
  new_csrf_token vault s = (ok (vault.token_urlsafe s.calls 24), record s { calls = suc s.calls })

  -- `set_session_cookies`: the CSRF token, and the cookies that the response gets
  unfoldable pub set_session_cookies : Vault → String → String → Action (String × List Cookie)
  set_session_cookies vault access refresh = do
    csrf ← new_csrf_token vault
    pure (csrf, cookies_for access refresh csrf)

  abbrev deleted_cookie : String → String → DeletedCookie
  deleted_cookie key path = record {
    key = key;
    path = path;
    secure = is_production p.settings.environment;
    samesite = p.settings.session_cookie_samesite;
  }

  -- `clear_session_cookies`
  unfoldable pub clear_session_cookies : List DeletedCookie
  clear_session_cookies =
      deleted_cookie session_cookie "/"
      ∷ deleted_cookie refresh_cookie refresh_path
      ∷ deleted_cookie csrf_cookie "/"
      ∷ []

  -- `authorization.split(" ", 1)[1].strip()`, and `IndexError` where there is no space
  abbrev after_space : Option (String × String) → Result (Option String)
  after_space none = err python_error
  after_space (some (_, rest)) = ok (non_empty (some (p.strip rest)))

  -- The token of the header; `ok none` is to look at the cookie.
  abbrev pub bearer_token : Option String → Result (Option String)
  bearer_token none = ok none
  bearer_token (some authorization) =
      if starts_with "bearer " (p.lower authorization)
      then after_space (split_once b' ' authorization)
      else ok none

  abbrev pub cookie_token : Option String → Result (String × Bool)
  cookie_token none = err (app_error authentication_required)
  cookie_token (some cookie) = ok (cookie, true)

  abbrev pub header_or_cookie : HttpRequest → Result (Option String) → Result (String × Bool)
  header_or_cookie request (err e) = err e
  header_or_cookie request (ok (some token)) = ok (token, false)
  header_or_cookie request (ok none) = cookie_token (non_empty (request.cookie session_cookie))

  -- `extract_token`
  unfoldable pub extract_token : HttpRequest → Option String → Result (String × Bool)
  unfolding starts_with split_once
  extract_token request authorization =
      header_or_cookie request (bearer_token (non_empty authorization))

abbrev pub double_submit : Option String → Option String → Result (Unit {0})
double_submit none header = err (app_error forbidden)
double_submit (some cookie) none = err (app_error forbidden)
double_submit (some cookie) (some header) = compare_digest forbidden cookie header

-- `enforce_csrf`
unfoldable pub enforce_csrf : HttpRequest → Result (Unit {0})
unfolding compare_digest
enforce_csrf request =
    if not (contains mutating_methods request.method)
    then ok tt
    else double_submit (non_empty (request.cookie csrf_cookie))
        (non_empty (request.header "X-CSRF-Token"))
