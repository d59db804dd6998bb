-- ===== src/Auth/Linking.antt =====
-- What stands behind a sign-in with an external identity that is answered.
use voltaris_mobility_backen.Prelude.{
  ℕ, suc, String, string_eq, ◌==◌, ==-eq, and-true, ltb, ◌≡◌, refl, sym, subst, ◌⊎◌, inl, inr, Bool,
  true, false, not, Option, none, some, List,
}
use voltaris_mobility_backen.Core.Errors.{invalid_credentials}
use voltaris_mobility_backen.Core.Platform.{Platform, IsQuiet, replied}
use voltaris_mobility_backen.Core.Action.{ok, State}
use voltaris_mobility_backen.Core.Returns.{
  Returns, Anything, IsQuiet-Stable, Returns-pure, Returns-then, Returns-map, Returns-after,
  Returns-raise_if, Returns-find_one, Returns-call,
}
use voltaris_mobility_backen.Core.Timed.{
  ReturnsAt, At-returns, At-utc_now, At-raise_if, At-or_raise, At-delete_one,
}
use voltaris_mobility_backen.Database.Mongo.{With}
use voltaris_mobility_backen.Database.Collections
use voltaris_mobility_backen.Database.Collections.{Db}
use voltaris_mobility_backen.Users.Models.{User}
use voltaris_mobility_backen.Auth.Models.{OauthState}
use voltaris_mobility_backen.Auth.Tokens.{Vault}
use voltaris_mobility_backen.Auth.Sessions.{TokenPair, issue_session}
use voltaris_mobility_backen.Auth.Google.{
  GoogleIdentity, IdentityProvider, has_subject, link_or_create, complete_google,
}

-- The provider verified the address, or the account carries the identity already.
abbrev pub IsTrusted : IdentityProvider → GoogleIdentity → User → Type 0
IsTrusted provider identity u =
    (identity.email_verified ≡ true) ⊎ (has_subject provider.name identity.subject u ≡ true)

-- What a sign-in at the state `s` rests on. The clock is read after the one call that takes the row.
abbrev pub IsSignIn :
    Platform → IdentityProvider → String → String → State → TokenPair × User → Type 0
IsSignIn p provider code state s r =
    (row : OauthState) × (rest : List OauthState) × With row rest s.db.oauth_states
    × (row.state ≡ state)
    × (row.provider ≡ provider.name)
    × (ltb row.expires_at (p.now (suc s.calls)) ≡ false)
    × ((n : ℕ) × (identity : GoogleIdentity) × (provider.exchange_code n code row.nonce
          ≡ replied identity)
        × IsTrusted provider identity r.1)

module _ (p : Platform) (vault : Vault) (provider : IdentityProvider) (quiet : IsQuiet p) where
  true_when : (b : Bool) → not b ≡ false → b ≡ true
  true_when true h = refl
  true_when false h = cc

  same_row : (row pending : OauthState) → some row ≡ some pending → pending ≡ row
  same_row row pending e = cc

  link_or_create-Returns :
      (identity : GoogleIdentity) (ip : Option String)
      → Returns Anything (link_or_create p vault provider identity ip) (IsTrusted provider identity)
  unfolding link_or_create
  link_or_create-Returns identity ip =
      Returns-find_one p (IsQuiet-Stable Anything quiet) Collections.users _ _
        (λ db u rest h w m. Returns-pure u (inr m))
        (λ db h none_match.
          Returns-raise_if _ _ _ (λ verified. record {
            at = λ s i u x. inl (true_when identity.email_verified verified);
          }))

  issue_session-Returns :
      (u : User) (ip : Option String) → Returns Anything (issue_session p vault u ip) (λ r. r.1 ≡ u)
  unfolding issue_session
  issue_session-Returns u ip = search (Returns-after, Returns-pure) depth 14

  complete_google-At :
      (code state : String) (ip : Option String) (s : State)
      → ReturnsAt s
          (complete_google p vault provider code state ip)
          (IsSignIn p provider code state s)
  unfolding complete_google
  complete_google-At code state ip s =
      At-delete_one p Collections.oauth_states _ _ s
        (λ s' row rest next w m.
          let (same_state, same_provider) =
            and-true (row.state == state) (row.provider == provider.name) m in
          At-or_raise s' (some row) invalid_credentials _ (λ pending e. At-utc_now p s' _ (
            At-raise_if _ (ltb pending.expires_at (p.now s'.calls)) _ _ (λ in_time.
              At-returns {I = Anything} _ _
                (Returns-call p _ _ (λ n identity replied_with.
                  Returns-then _ _ (link_or_create-Returns identity ip) (λ u trusted.
                    Returns-map _
                      (λ r same. (
                        row,
                        rest,
                        subst (λ (db : Db). With row rest db.oauth_states) (quiet s.calls s.db) w,
                        ==-eq _ _ same_state,
                        ==-eq _ _ same_provider,
                        subst (λ n. ltb row.expires_at (p.now n) ≡ false) next
                            (subst (λ (z : OauthState). ltb z.expires_at (p.now s'.calls) ≡ false)
                              (same_row row pending e) in_time),
                        (
                          n,
                          identity,
                          subst
                              (λ (z : OauthState).
                                provider.exchange_code n code z.nonce ≡ replied identity)
                              (same_row row pending e) replied_with,
                          subst (IsTrusted provider identity) (sym same) trusted,
                        ),
                      ))
                      (issue_session-Returns u ip))))
                tt))))
        (λ s'. At-or_raise s' none _ _ (λ row e. absurd (cc (e))))

-- Alone on the database, a sign-in through the provider is answered only if its state is stored
-- for that provider and not expired when the call reads the clock, right after it took the state,
-- the provider exchanged the code under the nonce of that very
-- state, and the identity that it returned has a verified address or belongs to the account that
-- is signed in.
pub complete_google_lem :
    (p : Platform) (vault : Vault) (provider : IdentityProvider)
    → IsQuiet p
    → (code state : String) (ip : Option String) (s : State) (r : TokenPair × User)
    → (complete_google p vault provider code state ip s).0 ≡ ok r
    → IsSignIn p provider code state s r
complete_google_lem p vault provider quiet code state ip s r =
    (complete_google-At p vault provider quiet code state ip s).at r
