-- ===== src/Profile/Protected.antt =====
-- What a profile update leaves alone: `update` of app/modules/users/profile_service.py.
use voltaris_mobility_backen.Prelude.{
  ℕ, String, string_eq, ◌==◌, ==-eq, ◌≡◌, refl, sym, ap, ◌∙◌, subst, Bool, true, false, not, ◌&&◌,
  ◌||◌, ◌⊎◌, inl, inr, and-true, Option, List, [], ◌∷◌, contains, All, if◌then◌else◌,
}
use voltaris_mobility_backen.Core.Platform.{Platform}
use voltaris_mobility_backen.Core.Action.{State}
use voltaris_mobility_backen.Core.Keeps.{
  Keeps, Stable, keeps_rules, Keeps-update_one, Keeps-or_raise, Keeps-bind, Keeps-pure,
}
use voltaris_mobility_backen.Database.Bags.{All-replace}
use voltaris_mobility_backen.Database.Collections
use voltaris_mobility_backen.Database.Collections.{Db}
use voltaris_mobility_backen.Users.Models.{
  User, UserStatus, Identity, FieldValue, null, text, flag, texts, time, linked,
}
use voltaris_mobility_backen.Profile.Account.{
  Changes, editable, allowed_changes, set_field, set_fields, stored_key, is_null, write_changes,
  get, update,
}

-- What decides who an account is and what it may do.
pub record Standing : Type 0 where
  pub id : String
  pub email : String
  pub password_hash : Option String
  pub roles : List String
  pub status : UserStatus
  pub email_verified : Bool
  pub phone_verified : Bool
  pub mfa_enabled : Bool
  pub identities : List Identity
  pub created_at : ℕ
  pub deleted_at : Option ℕ
  pub protected_fields : List (String × FieldValue)

-- The writes to other fields than the four that an account holder may edit
abbrev pub protected : List (String × FieldValue) → List (String × FieldValue)
protected [] = []
protected ((key, value) ∷ fields) =
    let rest = protected fields in
    if contains ("name" ∷ "phone" ∷ "preferred_language" ∷ "marketing_opt_in" ∷ []) key
    then rest
    else (key, value) ∷ rest

abbrev pub standing : User → Standing
standing u = record {
  id = u.id;
  email = u.email;
  password_hash = u.password_hash;
  roles = u.roles;
  status = u.status;
  email_verified = u.email_verified;
  phone_verified = u.phone_verified;
  mfa_enabled = u.mfa_enabled;
  identities = u.identities;
  created_at = u.created_at;
  deleted_at = u.deleted_at;
  protected_fields = protected u.other_fields;
}

-- The keys under which an allowed change is stored.
abbrev IsStored : String → Type 0
IsStored key =
    (key ≡ "name") ⊎ (key ≡ "phone") ⊎ (key ≡ "preferred_language") ⊎ (key ≡ "marketing_opt_in")

at_name : (value : FieldValue) (u : User) → standing (set_field "name" value u) ≡ standing u
at_name null u = refl
at_name (text s) u = refl
at_name (flag b) u = refl
at_name (texts xs) u = refl
at_name (time t) u = refl
at_name (linked xs) u = refl

at_phone : (value : FieldValue) (u : User) → standing (set_field "phone" value u) ≡ standing u
at_phone null u = refl
at_phone (text s) u = refl
at_phone (flag b) u = refl
at_phone (texts xs) u = refl
at_phone (time t) u = refl
at_phone (linked xs) u = refl

at_language :
    (value : FieldValue) (u : User) → standing (set_field "preferred_language" value u) ≡ standing u
at_language null u = refl
at_language (text s) u = refl
at_language (flag b) u = refl
at_language (texts xs) u = refl
at_language (time t) u = refl
at_language (linked xs) u = refl

at_marketing :
    (value : FieldValue) (u : User) → standing (set_field "marketing_opt_in" value u) ≡ standing u
at_marketing null u = refl
at_marketing (text s) u = refl
at_marketing (flag b) u = refl
at_marketing (texts xs) u = refl
at_marketing (time t) u = refl
at_marketing (linked xs) u = refl

set_field-standing :
    (key : String) (value : FieldValue) (u : User)
    → IsStored key
    → standing (set_field key value u) ≡ standing u
set_field-standing key value u stored =
    let same = λ (k : String). standing (set_field k value u) ≡ standing u in
    elim stored [
      | inl e ↦ subst same (sym e) (at_name value u)
      | inr (inl e) ↦ subst same (sym e) (at_phone value u)
      | inr (inr (inl e)) ↦ subst same (sym e) (at_language value u)
      | inr (inr (inr e)) ↦ subst same (sym e) (at_marketing value u)
    ]

set_fields-standing :
    (changes : Changes) (u : User)
    → All (λ c. IsStored c.0) changes
    → standing (set_fields changes u) ≡ standing u
unfolding set_fields
set_fields-standing [] u h = refl
set_fields-standing ((key, value) ∷ changes) u h =
    set_fields-standing changes (set_field key value u) h.1 ∙ set_field-standing key value u h.0

listed-cases : (x a : String) (b : Bool) → (x == a || b) ≡ true → (x ≡ a) ⊎ (b ≡ true)
listed-cases x a b h = split (x == a) refl b h
  where
    split : (t : Bool) → (x == a) ≡ t → (b : Bool) → (t || b) ≡ true → (x ≡ a) ⊎ (b ≡ true)
    split true e b h = inl (==-eq _ _ e)
    split false e b h = inr h

editable-IsStored : (key : String) → contains editable key ≡ true → IsStored (stored_key key)
editable-IsStored key h = elim (listed-cases "full_name" key _ h) [
  | inl e ↦ subst (λ k. IsStored (stored_key k)) e (inl refl)
  | inr h ↦ elim (listed-cases "phone" key _ h) [
    | inl e ↦ subst (λ k. IsStored (stored_key k)) e (inr (inl refl))
    | inr h ↦ elim (listed-cases "preferred_language" key _ h) [
      | inl e ↦ subst (λ k. IsStored (stored_key k)) e (inr (inr (inl refl)))
      | inr h ↦ elim (listed-cases "marketing_opt_in" key false h) [
        | inl e ↦ subst (λ k. IsStored (stored_key k)) e (inr (inr (inr refl)))
        | inr h ↦ absurd (cc (h))
      ]
    ]
  ]
]

allowed_changes-IsStored : (changes : Changes) → All (λ c. IsStored c.0) (allowed_changes changes)
unfolding allowed_changes
allowed_changes-IsStored [] = tt
allowed_changes-IsStored ((key, value) ∷ changes) =
    kept (contains editable key && not (is_null value)) refl (allowed_changes-IsStored changes)
  where
    kept :
        (b : Bool)
        → (contains editable key && not (is_null value)) ≡ b
        → All (λ c. IsStored c.0) (allowed_changes changes)
        → All
            (λ c. IsStored c.0)
            (if b
              then (stored_key key, value) ∷ allowed_changes changes
              else allowed_changes changes)
    kept true e rest =
        (editable-IsStored key (and-true (contains editable key) (not (is_null value)) e).0, rest)
    kept false e rest = rest

module _ (p : Platform) (R : Standing → Type 0)
    (stable : Stable p (λ db. All (λ u. R (standing u)) db.users)) where
  abbrev Standings : Db → Type 0
  Standings db = All (λ u. R (standing u)) db.users

  write_changes-Keeps :
      (user_id : String) (changes : Changes)
      → All (λ c. IsStored c.0) changes
      → Keeps Standings (write_changes p user_id changes)
  write_changes-Keeps user_id [] h = search keeps_rules
  write_changes-Keeps user_id (change ∷ changes) h = Keeps-bind _ _ (search keeps_rules) (λ now.
      Keeps-bind _ _
        (Keeps-update_one Collections.users p stable _ _ (λ db d d' rest ds held e w m v.
          All-replace (λ u. R (standing u)) w v held
            (λ r.
              subst R
                (sym (
                  ap standing e
                  ∙ set_fields-standing (change ∷ changes) (record d { updated_at = now }) h))
                r)))
        (λ _. Keeps-pure tt))

  get-Keeps : (user_id : String) → Keeps Standings (get p user_id)
  unfolding get
  get-Keeps user_id = search (keeps_rules, Keeps-or_raise, stable)

  pub update-Keeps :
      (user_id : String) (changes : Changes) → Keeps Standings (update p user_id changes)
  unfolding update
  update-Keeps user_id changes =
      Keeps-bind _ _
        (write_changes-Keeps user_id (allowed_changes changes) (allowed_changes-IsStored changes))
        (λ _. get-Keeps user_id)

-- Whatever holds of the id, the address, the password, the roles, the status, the verifications,
-- the second factor, the identities, the creation, the deletion and every field without a place in
-- the record, of all accounts, and that the other requests keep, still holds after a profile update
-- with any body, however it ends.
pub update_lem :
    (p : Platform) (R : Standing → Type 0)
    → Stable p (λ db. All (λ u. R (standing u)) db.users)
    → (user_id : String) (changes : Changes) (s : State) → All (λ u. R (standing u)) s.db.users
    → All (λ u. R (standing u)) (update p user_id changes s).1.db.users
update_lem p R stable user_id changes s = (update-Keeps p R stable user_id changes).at s
