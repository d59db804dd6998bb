-- ===== src/Core/Production.antt =====
-- What the validators of app/core/config.py let start in production.
use voltaris_mobility_backen.Prelude.{
  ℕ, ◌≤◌, String, string_eq, ◌==◌, ==-eq, ==-ne, ◌≡◌, ◌≢◌, ◌↔◌, refl, sym, ap, ◌∙◌, subst, Bool,
  Bool-cases, inl, inr, true, false, ◌&&◌, ◌||◌, ltb, List, [], ◌∷◌, contains, if◌then◌else◌, arith,
}
use voltaris_mobility_backen.Prelude.Text.{str_length, starts_with}
use voltaris_mobility_backen.Core.Config.{Settings, Environment, SameSite}
use voltaris_mobility_backen.Core.Startup.{
  dev_placeholder, is_production, is_lax, production_cookie_policy, noted, missing, started,
  unless_missing, refuse_insecure_production, load_settings,
}

-- Settings that may serve customers: own secrets, the token secret of 32 characters or more, a
-- database elsewhere, named origins, and cookies that a cross-site frontend sends.
pub record IsSecure (settings : Settings) : Type 0 where
  pub token_secret : settings.jwt_secret ≢ dev_placeholder
  pub long_secret : 32 ≤ str_length settings.jwt_secret
  pub webhook_secret : settings.payment_webhook_secret ≢ dev_placeholder
  pub has_webhook_secret : settings.payment_webhook_secret ≢ ""
  pub remote_database : starts_with "mongodb://localhost" settings.mongodb_uri ≡ false
  pub named_origins : contains settings.cors_origins "*" ≡ false
  pub cross_site : settings.session_cookie_samesite ≢ SameSite.lax

or-false : (a b : Bool) → (a || b) ≡ false → (a ≡ false) × (b ≡ false)
or-false false b h = (refl, h)
or-false true b h = absurd (cc (h))

noted-nil :
    (b : Bool) (name : String) (rest : List String)
    → (noted b name rest ≡ [])
    → (b ≡ false) × (rest ≡ [])
noted-nil true name rest h = absurd (cc (h))
noted-nil false name rest h = (refl, h)

ne-false : (a b : String) → a ≢ b → (a == b) ≡ false
ne-false a b differ = elim (Bool-cases (a == b)) [
  | inl same ↦ absurd (differ (==-eq a b same))
  | inr differs ↦ differs
]

not_lax : (x : SameSite) → is_lax x ≡ false → x ≢ SameSite.lax
not_lax x h e = cc (h, ap is_lax e)

policy-lax :
    (settings : Settings)
    → settings.environment ≡ Environment.production
    → ((production_cookie_policy settings).environment ≡ Environment.production)
      × (is_lax (production_cookie_policy settings).session_cookie_samesite ≡ false)
unfolding production_cookie_policy
policy-lax settings e = branch settings.session_cookie_samesite refl
  where
    branch :
        (x : SameSite)
        → settings.session_cookie_samesite ≡ x
        → ((if is_production settings.environment && is_lax settings.session_cookie_samesite
              then record settings { session_cookie_samesite = SameSite.none }
              else settings).environment
            ≡ Environment.production)
          × (is_lax
                (if is_production settings.environment && is_lax settings.session_cookie_samesite
                  then record settings { session_cookie_samesite = SameSite.none }
                  else settings).session_cookie_samesite
              ≡ false)
    branch SameSite.lax f = (rw (e, f), rw (e, f))
    branch SameSite.none f = (rw (e, f), rw (e, f))
    branch SameSite.strict f = (rw (e, f), rw (e, f))

short : (n : ℕ) → ltb n 32 ≡ false → 32 ≤ n
short n h = ground arith

long : (n : ℕ) → 32 ≤ n → ltb n 32 ≡ false
long n h = ground arith

both_false : {a b : Bool} → a ≡ false → b ≡ false → (a || b) ≡ false
both_false e f = rw (e, f)

not_empty : (s : String) → 32 ≤ str_length s → s ≢ ""
unfolding str_length
not_empty s h e =
    let none_left = subst (λ (x : String). 32 ≤ str_length x) e h in omega (arith, none_left)

module _ (settings : Settings) where
  missing-IsSecure :
      settings.session_cookie_samesite ≢ SameSite.lax → missing settings ≡ [] → IsSecure settings
  unfolding missing
  missing-IsSecure sent h =
      let (secret, rest) = noted-nil _ _ _ h in
      let (webhook, rest') = noted-nil _ _ _ rest in
      let (remote, rest'') = noted-nil _ _ _ rest' in
      let (named, _) = noted-nil _ _ _ rest'' in
      let (set, size) = or-false _ _ secret in
      record {
        token_secret = ==-ne _ _ (or-false _ _ set).1;
        long_secret = short _ size;
        webhook_secret = ==-ne _ _ (or-false _ _ webhook).1;
        has_webhook_secret = ==-ne _ _ (or-false _ _ webhook).0;
        remote_database = remote;
        named_origins = named;
        cross_site = sent;
      }

  IsSecure-missing : IsSecure settings → missing settings ≡ []
  unfolding missing
  IsSecure-missing h =
      let secret =
        both_false
          (both_false (ne-false _ _ (not_empty _ h.long_secret)) (ne-false _ _ h.token_secret))
          (long _ h.long_secret) in
      let webhook =
        both_false (ne-false _ _ h.has_webhook_secret) (ne-false _ _ h.webhook_secret) in
      rw (secret, webhook, h.remote_database, h.named_origins)

started_injective : {a b : Settings} → started a ≡ started b → b ≡ a
started_injective e = cc

decide :
    (u : Settings)
    → u.environment ≡ Environment.production
    → refuse_insecure_production u ≡ unless_missing u (missing u)
unfolding refuse_insecure_production
decide u e = rw e

unless-nil :
    (u t : Settings) (names : List String)
    → unless_missing u names ≡ started t
    → (names ≡ []) × (t ≡ u)
unless-nil u t [] h = (refl, started_injective h)
unless-nil u t (name ∷ names) h = absurd (cc (h))

-- In production the application starts with exactly one result of the validators, the settings with
-- the cookie policy applied, and exactly if these are secure: a token secret of 32 characters or
-- more and a webhook secret that are not the placeholder, a database that is not on localhost, no
-- wildcard origin, and session cookies that are not lax.
pub load_settings_iff :
    (settings t : Settings)
    → settings.environment ≡ Environment.production
    → (load_settings settings ≡ started t) ↔ ((t ≡ production_cookie_policy settings) × IsSecure t)
unfolding load_settings
load_settings_iff settings t production =
    let u = production_cookie_policy settings in
    let (still, sent) = policy-lax settings production in
    (
      (λ h.
          let (nothing_missing, same) = unless-nil u t (missing u) (sym (decide u still) ∙ h) in
          (same, subst IsSecure (sym same) (missing-IsSecure u (not_lax _ sent) nothing_missing))),
      (λ (same, secure).
          let nothing_missing = IsSecure-missing u (subst IsSecure same secure) in
          decide u still ∙ ap (unless_missing u) nothing_missing ∙ ap started (sym same)),
    )
