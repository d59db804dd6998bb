-- ===== src/Users/Grants.antt =====
-- The authorization matrix of app/modules/users/models.py: who holds a permission.
use voltaris_mobility_backen.Prelude.{
  Eq, String, string_eq, ◌≡◌, refl, sym, ap, ◌∙◌, subst, ◌↔◌, ◌⊎◌, inl, inr, ==-eq, Bool, true,
  false, ◌||◌, Option, none, some, List, [], ◌∷◌, ◌++◌, contains, ◌==◌, arith,
}
use voltaris_mobility_backen.Users.Models.{
  Role, role_value, parse_role, Permission, permission_eq, permissions_for, role_permissions,
  granted_by, payment_refund, commission_write, settlement_write, role_assign, config_write,
  system_inspect, finance, super_admin, buyer, seller, dealer, sales_agent, content_manager, admin,
}

-- The permissions that move money, and those that only the highest role has.
abbrev pub moves_money : Permission → Bool
moves_money q = contains (payment_refund ∷ commission_write ∷ settlement_write ∷ []) q

abbrev pub is_highest : Permission → Bool
is_highest q = contains (role_assign ∷ config_write ∷ system_inspect ∷ []) q

-- Some role whose name is listed grants the permission.
abbrev pub IsGranted : List String → Permission → Type 0
IsGranted roles q =
    (r : Role) × (contains roles (role_value r) ≡ true) × (contains (role_permissions r) q ≡ true)

or_assoc : (a b c : Bool) → (a || (b || c)) ≡ (a || b || c)
or_assoc true b c = refl
or_assoc false b c = refl

or-cases : (a b : Bool) → (a || b) ≡ true → (a ≡ true) ⊎ (b ≡ true)
or-cases true b h = inl refl
or-cases false b h = inr h

or-right : (a b : Bool) → b ≡ true → (a || b) ≡ true
or-right true b h = refl
or-right false b h = h

or-left : (a b : Bool) → a ≡ true → (a || b) ≡ true
or-left true b h = refl
or-left false b h = cc

contains-++ {ℓ} :
    {A : Type ℓ} ⦃e : Eq A⦄ (xs ys : List A) (q : A)
    → contains (xs ++ ys) q ≡ (contains xs q || contains ys q)
contains-++ [] ys q = refl
contains-++ (x ∷ xs) ys q =
    ap (λ b. x == q || b) (contains-++ xs ys q) ∙ or_assoc (x == q) (contains xs q) (contains ys q)

parse_role_lem : (r : Role) → parse_role (role_value r) ≡ some r
unfolding parse_role
parse_role_lem buyer = refl
parse_role_lem seller = refl
parse_role_lem dealer = refl
parse_role_lem sales_agent = refl
parse_role_lem finance = refl
parse_role_lem content_manager = refl
parse_role_lem admin = refl
parse_role_lem super_admin = refl

role_value-parse_role :
    (raw : String) (r : Role) → parse_role raw ≡ some r → (raw == role_value r) ≡ true
unfolding parse_role
role_value-parse_role raw r h = ground arith

IsGranted-here :
    (raw : String) (roles : List String) (q : Permission) (r : Option Role)
    → parse_role raw ≡ r
    → contains (granted_by r) q ≡ true
    → IsGranted (raw ∷ roles) q
IsGranted-here raw roles q none e h = cc
IsGranted-here raw roles q (some r) e h =
    (r, ap (λ b. b || contains roles (role_value r)) (role_value-parse_role raw r e), h)

IsGranted-later :
    (raw : String) (roles : List String) (q : Permission)
    → IsGranted roles q
    → IsGranted (raw ∷ roles) q
IsGranted-later raw roles q (r, listed, h) = (r, or-right (raw == role_value r) _ listed, h)

IsGranted-from :
    (roles : List String) (q : Permission)
    → contains (permissions_for roles) q ≡ true
    → IsGranted roles q
unfolding permissions_for
IsGranted-from [] q h = cc
IsGranted-from (raw ∷ roles) q h =
    elim (or-cases _ _
      (sym (contains-++ (granted_by (parse_role raw)) (permissions_for roles) q) ∙ h)) [
        | inl here ↦ IsGranted-here raw roles q (parse_role raw) refl here
        | inr later ↦ IsGranted-later raw roles q (IsGranted-from roles q later)
      ]

granted-by-name :
    (raw : String) (q : Permission) (r : Role)
    → (raw == role_value r) ≡ true
    → contains (role_permissions r) q ≡ true
    → contains (granted_by (parse_role raw)) q ≡ true
granted-by-name raw q r named h =
    ap (λ o. contains (granted_by o) q)
      (ap parse_role (==-eq raw (role_value r) named) ∙ parse_role_lem r)
    ∙ h

granted-to :
    (roles : List String) (q : Permission) (r : Role)
    → contains roles (role_value r) ≡ true
    → contains (role_permissions r) q ≡ true
    → contains (permissions_for roles) q ≡ true
unfolding permissions_for
granted-to [] q r listed h = cc
granted-to (raw ∷ roles) q r listed h =
    contains-++ (granted_by (parse_role raw)) (permissions_for roles) q
    ∙ elim (or-cases _ _ listed) [
      | inl here ↦ or-left _ _ (granted-by-name raw q r here h)
      | inr later ↦ or-right _ _ (granted-to roles q r later h)
    ]

-- A permission is granted exactly when a listed name is that of a role that has it; any other
-- name grants nothing.
pub permissions_for_iff :
    (roles : List String) (q : Permission)
    → (contains (permissions_for roles) q ≡ true) ↔ IsGranted roles q
permissions_for_iff roles q = (IsGranted-from roles q, λ g. granted-to roles q g.0 g.1 g.2)

money_role :
    (r : Role) (q : Permission)
    → moves_money q ≡ true
    → contains (role_permissions r) q ≡ true
    → (r ≡ finance) ⊎ (r ≡ super_admin)
unfolding role_permissions
money_role r q m h = ground arith

highest_role :
    (r : Role) (q : Permission)
    → is_highest q ≡ true
    → contains (role_permissions r) q ≡ true
    → r ≡ super_admin
unfolding role_permissions
highest_role r q m h = ground arith

-- Whoever may refund, write a commission or write a settlement is listed as FINANCE or as
-- SUPER_ADMIN; in particular ADMIN alone does not move money.
pub permissions_for_money :
    (roles : List String) (q : Permission)
    → moves_money q ≡ true
    → contains (permissions_for roles) q ≡ true
    → (contains roles "FINANCE" ≡ true) ⊎ (contains roles "SUPER_ADMIN" ≡ true)
permissions_for_money roles q m h =
    let (r, listed, has) = IsGranted-from roles q h in
    elim (money_role r q m has) [
      | inl e ↦ inl (subst (λ r. contains roles (role_value r) ≡ true) e listed)
      | inr e ↦ inr (subst (λ r. contains roles (role_value r) ≡ true) e listed)
    ]

-- Whoever may assign roles, write the configuration or inspect the raw collections is listed as
-- SUPER_ADMIN.
pub permissions_for_highest :
    (roles : List String) (q : Permission)
    → is_highest q ≡ true
    → contains (permissions_for roles) q ≡ true
    → contains roles "SUPER_ADMIN" ≡ true
permissions_for_highest roles q m h =
    let (r, listed, has) = IsGranted-from roles q h in
    subst (λ r. contains roles (role_value r) ≡ true) (highest_role r q m has) listed
