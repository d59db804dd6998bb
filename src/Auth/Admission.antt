-- ===== src/Auth/Admission.antt =====
-- What stands behind a login that is answered.
use voltaris_mobility_backen.Prelude.{
  ℕ, leb, String, string_eq, ==-eq, not-eq-false, ◌≡◌, refl, subst, ◌⊎◌, inl, inr, Bool, true,
  false, not, is_some, ◌&&◌, Option, none, some, List,
}
use voltaris_mobility_backen.Core.Errors.{account_locked}
use voltaris_mobility_backen.Core.Platform.{Platform, IsQuiet}
use voltaris_mobility_backen.Core.Action.{ok, State, raise_if}
use voltaris_mobility_backen.Core.Keeps.{Keeps, Stable, Keeps-bind, Keeps-find_one}
use voltaris_mobility_backen.Core.Returns.{
  Returns, Anything, IsQuiet-Stable, Returns-pure, Returns-fail, Returns-if, Returns-weaken,
  Returns-keep, Returns-after, Returns-raise_if, Returns-find_one, Returns-map,
}
use voltaris_mobility_backen.Core.Security.{non_empty}
use voltaris_mobility_backen.Database.Mongo.{With, NoneMatch}
use voltaris_mobility_backen.Database.Collections
use voltaris_mobility_backen.Database.Collections.{Db}
use voltaris_mobility_backen.Users.Models.{User}
use voltaris_mobility_backen.Auth.Models.{LoginAttempt}
use voltaris_mobility_backen.Auth.Tokens.{Vault, verify_password}
use voltaris_mobility_backen.Auth.Sessions.{TokenPair, issue_session}
use voltaris_mobility_backen.Auth.Service.{
  is_suspended, is_attempt, is_locked, attempt_key, check_lockout, refuse, admit, login_with, login,
}

-- No attempt is recorded under the key, or one that is below the limit.
abbrev pub IsUnlocked : Platform → String → List LoginAttempt → Type 0
IsUnlocked p key attempts =
    NoneMatch (is_attempt key) attempts
    ⊎ ((row : LoginAttempt) × (rest : List LoginAttempt) × With row rest attempts
        × (row.key ≡ key)
        × (leb p.settings.login_max_attempts row.count ≡ false))

-- An account that may be entered with the password.
pub record IsAdmitted (p : Platform) (vault : Vault) (email password : String) (otp : Option String)
    (u : User) : Type 0 where
  pub named : u.email ≡ vault.lower email
  pub password_hash : String
  pub stored_hash : non_empty u.password_hash ≡ some password_hash
  pub verified : verify_password p vault password password_hash ≡ true
  pub not_suspended : is_suspended u.status ≡ false
  pub live : u.deleted_at ≡ none
  pub second_factor : (u.mfa_enabled && not (is_some (non_empty otp))) ≡ false

module _ (p : Platform) (vault : Vault) (quiet : IsQuiet p) (before : Db) where
  abbrev Accounts : Db → Type 0
  Accounts db = (db.login_attempts ≡ before.login_attempts) × (db.users ≡ before.users)

  stable : Stable p Accounts
  stable = IsQuiet-Stable Accounts quiet

  raise_if-Keeps : (b : Bool) → Keeps Accounts (raise_if b account_locked)
  raise_if-Keeps true = record { at = λ s h. h }
  raise_if-Keeps false = record { at = λ s h. h }

  check_lockout-Keeps : (key : String) → Keeps Accounts (check_lockout p vault key)
  unfolding check_lockout
  check_lockout-Keeps key = Keeps-bind _ _ (Keeps-find_one p stable _ _) (λ row. raise_if-Keeps _)

  check_lockout-Returns :
      (key : String)
      → Returns Accounts (check_lockout p vault key) (λ _. IsUnlocked p key before.login_attempts)
  unfolding check_lockout
  check_lockout-Returns key =
      Returns-find_one p stable Collections.login_attempts _ _
        (λ db row rest h w m.
          raise_if-Returns (is_locked p.settings.login_max_attempts (some row))
            (λ below. inr (row, rest, subst (With row rest) h.0 w, ==-eq _ _ m, below)))
        (λ db h none_match.
          raise_if-Returns (is_locked p.settings.login_max_attempts none)
            (λ _. inl (subst (NoneMatch (is_attempt key)) h.0 none_match)))
    where
      raise_if-Returns :
          {I : Db → Type 0} {Q : Type 0} (b : Bool)
          → (b ≡ false → Q)
          → Returns I (raise_if b account_locked) (λ _. Q)
      raise_if-Returns true q = Returns-fail _
      raise_if-Returns false q = Returns-pure tt (q refl)

  refuse-Returns :
      {A : Type 0} {Q : A → Type 0} (key : String) → Returns {A = A} Anything (refuse p vault key) Q
  unfolding refuse
  refuse-Returns key = Returns-after _ _ (λ _. Returns-fail _)

  issue_session-Returns :
      (u : User) (ip : Option String) → Returns Anything (issue_session p vault u ip) (λ r. r.1 ≡ u)
  unfolding issue_session
  issue_session-Returns u ip = search (Returns-after, Returns-pure) depth 14

  live_when : (deleted_at : Option ℕ) → is_some deleted_at ≡ false → deleted_at ≡ none
  live_when none h = refl
  live_when (some at) h = cc

  abbrev Admits : User → String → String → Option String → TokenPair × User → Type 0
  Admits u email password otp r = (r.1 ≡ u) × IsAdmitted p vault email password otp u

  admit-Returns :
      (key email : String) (u : User) (password password_hash : String) (otp ip : Option String)
      → u.email ≡ vault.lower email
      → non_empty u.password_hash ≡ some password_hash
      → verify_password p vault password password_hash ≡ true
      → Returns Anything
          (admit p vault key u password password_hash otp ip)
          (Admits u email password otp)
  unfolding admit
  admit-Returns key email u password password_hash otp ip named stored_hash verified =
      Returns-raise_if _ _ _ (λ not_suspended. Returns-raise_if _ _ _ (λ live.
        Returns-raise_if _ _ _ (λ second_factor. Returns-after _ _ (λ _. Returns-after _ _ (λ _.
          Returns-map _
            (λ r same. (
              same,
              record {
                named = named;
                password_hash = password_hash;
                stored_hash = stored_hash;
                verified = verified;
                not_suspended = not_suspended;
                live = live_when u.deleted_at live;
                second_factor = second_factor;
              },
            ))
            (issue_session-Returns u ip))))))

  login_with-Returns :
      (key email : String) (u : User) (password : String) (otp ip stored : Option String)
      → u.email ≡ vault.lower email
      → non_empty u.password_hash ≡ stored
      → Returns Anything
          (login_with p vault key u password otp ip stored)
          (Admits u email password otp)
  login_with-Returns key email u password otp ip none named e = refuse-Returns key
  login_with-Returns key email u password otp ip (some password_hash) named e =
      Returns-if (not (verify_password p vault password password_hash)) _ _
        (λ wrong. refuse-Returns key)
        (λ right.
          admit-Returns key email u password password_hash otp ip named e (not-eq-false _ right))

  login-Returns :
      (email password : String) (otp ip : Option String)
      → Returns Accounts (login p vault email password otp ip) (λ r.
        IsUnlocked p (attempt_key p vault email ip) before.login_attempts
        × ((u : User) × (rest : List User) × With u rest before.users
            × Admits u email password otp r))
  unfolding login
  login-Returns email password otp ip =
      Returns-keep _ _ (check_lockout-Keeps (attempt_key p vault email ip))
        (check_lockout-Returns (attempt_key p vault email ip))
        (λ _ unlocked.
          Returns-find_one p stable Collections.users _ _
            (λ db u rest h w m.
              Returns-weaken _ (λ db h. tt)
                (Returns-map _
                  (λ r admitted. (unlocked, (u, rest, subst (With u rest) h.1 w, admitted)))
                  (login_with-Returns _ email u password otp ip (non_empty u.password_hash)
                    (==-eq _ _ m) refl)))
            (λ db h none_match.
              Returns-weaken _ (λ db h. tt) (Returns-after _ _ (λ _. refuse-Returns _))))

-- Alone on the database, a login is answered only if the key of the address and the IP is below
-- the limit of failed attempts, and the account is stored under the address in lower case, has a
-- password hash that the password verifies against, is neither suspended nor deleted, and a second
-- factor is given where it demands one; the session is that account's.
pub login_lem :
    (p : Platform) (vault : Vault)
    → IsQuiet p
    → (email password : String) (otp ip : Option String) (s : State) (r : TokenPair × User)
    → (login p vault email password otp ip s).0 ≡ ok r
    → IsUnlocked p (attempt_key p vault email ip) s.db.login_attempts
      × ((u : User) × (rest : List User) × With u rest s.db.users
          × ((r.1 ≡ u) × IsAdmitted p vault email password otp u))
login_lem p vault quiet email password otp ip s r e =
    (login-Returns p vault quiet s.db email password otp ip).at s (refl, refl) r e
