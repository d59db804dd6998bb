-- ===== src/Admin/LastAdmin.antt =====
-- The last active super admin: `set_user_roles` of app/modules/admin/console.py.
use voltaris_mobility_backen.Prelude.{
  ℕ, ◌+◌, ◌≤◌, String, string_eq, ◌==◌, ==-eq, ==-refl, ==-sym, ◌≡◌, refl, sym, ◌∙◌, subst, Bool,
  true, false, not, ◌&&◌, and-true, ◌⊎◌, inl, inr, leb, none, some, List, map, contains, length,
  arith, if◌then◌else◌,
}
use voltaris_mobility_backen.Core.Errors.{user_not_found}
use voltaris_mobility_backen.Core.Platform.{Platform, IsQuiet}
use voltaris_mobility_backen.Core.Action.{State}
use voltaris_mobility_backen.Core.Keeps.{Keeps, Stable, Ignores, keeps_rules, Keeps-insert_ignored}
use voltaris_mobility_backen.Core.Returns.{IsQuiet-Stable}
use voltaris_mobility_backen.Core.Ends.{Ends, Ends-bind, Ends-raise_if, Ends-find_one}
use voltaris_mobility_backen.Core.Closing.{
  Ends-count_documents, Ends-then_keeps, Ends-or_raise, Ends-when, Ends-assoc, Ends-update_one,
}
use voltaris_mobility_backen.Database.With.{With}
use voltaris_mobility_backen.Database.Bags.{All-take, Distinct, Distinct-take, With-cases}
use voltaris_mobility_backen.Database.Reads.{select}
use voltaris_mobility_backen.Database.Rows.{select-With}
use voltaris_mobility_backen.Database.Collections
use voltaris_mobility_backen.Database.Collections.{Db}
use voltaris_mobility_backen.Audit.Models.{Change}
use voltaris_mobility_backen.Audit.Service.{record_change}
use voltaris_mobility_backen.Users.Models.{User, Role, role_value}
use voltaris_mobility_backen.Admin.Console.{
  is_active, is_active_super, demotes, keep_a_super, write_roles, set_user_roles,
}

-- The primary key of the accounts.
abbrev pub same_id : User → User → Bool
same_id a b = a.id == b.id

abbrev pub active_supers : Db → ℕ
active_supers db = length (select is_active_super db.users)

same_id_unique :
    (u d : User) {r rest ds : List User}
    → Distinct same_id ds
    → With u r ds
    → With d rest ds
    → u.id ≡ d.id
    → u ≡ d
same_id_unique u d {r} distinct w v e = elim (With-cases w v) [
  | inl same ↦ same
  | inr other ↦
      let apart = (Distinct-take same_id (λ a b. ==-sym a.id b.id) w distinct).0 in
      let differ = (All-take (λ x. same_id u x ≡ false) other.1 apart).0 in
      absurd (cc (differ, subst (λ (i : String). (u.id == i) ≡ true) e (==-refl u.id)))
]

some_eq : {A : Type 0} {a b : A} → some a ≡ some b → b ≡ a
some_eq e = cc

and-true-intro : {a b : Bool} → a ≡ true → b ≡ true → (a && b) ≡ true
and-true-intro e f = cc (e, f)

one_left :
    (x y : Bool) (n : ℕ)
    → 1 ≤ (if x then 1 else 0) + n
    → (2 ≤ (if x then 1 else 0) + n) ⊎ (x ≡ true → y ≡ true)
    → 1 ≤ (if y then 1 else 0) + n
one_left x true n h safe = omega arith
one_left false false n h safe = h
one_left true false n h safe = elim safe [
  | inl many ↦ omega (arith, many)
  | inr stays ↦ absurd (cc (stays refl))
]

remains :
    {D : Type 0} (q : D → Bool) {d d' : D} {rest us ds : List D}
    → With d rest us
    → With d' rest ds
    → 1 ≤ length (select q us)
    → (2 ≤ length (select q us)) ⊎ (q d ≡ true → q d' ≡ true)
    → 1 ≤ length (select q ds)
remains q {d} {d'} {rest} w v h safe =
    subst (λ n. 1 ≤ n) (sym (select-With q v))
      (one_left (q d) (q d') (length (select q rest)) (subst (λ n. 1 ≤ n) (select-With q w) h)
        (subst (λ n. (2 ≤ n) ⊎ (q d ≡ true → q d' ≡ true)) (select-With q w) safe))

stays :
    (p : Platform) (x d : User) (roles : List Role)
    → demotes p x roles ≡ false
    → x ≡ d
    → is_active_super d ≡ true
    → contains (map role_value roles) "SUPER_ADMIN" ≡ true
stays p x d roles kept same was =
    listed (contains x.roles "SUPER_ADMIN") (contains (map role_value roles) "SUPER_ADMIN") kept (
      subst (λ (y : User). contains y.roles "SUPER_ADMIN" ≡ true) (sym same)
        (and-true (contains d.roles "SUPER_ADMIN") (is_active d.status) was).0)
  where
    listed : (a b : Bool) → (a && not b) ≡ false → a ≡ true → b ≡ true
    listed true true h e = refl
    listed true false h e = absurd (cc (h))
    listed false b h e = absurd (cc (e))

module _ (p : Platform) (quiet : IsQuiet p) (before : Db)
    (some_super : 1 ≤ active_supers before) where
  abbrev Same : Db → Type 0
  Same db = db.users ≡ before.users

  abbrev HasSuper : Db → Type 0
  HasSuper db = 1 ≤ active_supers db

  stable : Stable p Same
  stable = IsQuiet-Stable Same quiet

  has-stable : Stable p HasSuper
  has-stable = IsQuiet-Stable HasSuper quiet

  stop : (db : Db) → Same db → HasSuper db
  stop db same = subst (λ us. 1 ≤ length (select is_active_super us)) (sym same) some_super

  has-Ignores : Ignores HasSuper Collections.audit_logs
  has-Ignores = record { at = λ db ds h. h }

  record_change-Keeps : (c : Change) → Keeps HasSuper (record_change p c)
  unfolding record_change
  record_change-Keeps c =
      search (keeps_rules, Keeps-insert_ignored Collections.audit_logs p has-stable has-Ignores)

  -- The write is safe where another active super admin stays, or where the account that it changes
  -- stays one if it was one.
  write_roles-Ends :
      (user_id : String) (u : User) (roles : List Role) (actor_id reason : String)
      → (2 ≤ active_supers before)
        ⊎ ((d : User) (rest : List User)
            → With d rest before.users
            → (d.id == user_id) ≡ true
            → is_active_super d ≡ true
            → contains (map role_value roles) "SUPER_ADMIN" ≡ true)
      → Ends Same (write_roles p user_id u roles actor_id reason) HasSuper
  unfolding write_roles
  write_roles-Ends user_id u roles actor_id reason safe =
      Ends-bind stop _ _ (search keeps_rules) (λ now.
        Ends-then_keeps _ _
          (Ends-update_one p Collections.users stable stop _ _ (λ db d rest ds same w m v.
            let w' = subst (With d rest) same w in
            remains is_active_super w' v some_super (kept d w' m now)))
          (λ _. search (keeps_rules, record_change-Keeps)))
    where
      kept :
          (d : User) {rest : List User}
          → With d rest before.users
          → (d.id == user_id) ≡ true
          → (now : ℕ)
          → (2 ≤ active_supers before)
            ⊎ (is_active_super d ≡ true
                → is_active_super (record d { roles = map role_value roles; updated_at = now })
                  ≡ true)
      kept d w m now = elim safe [
        | inl many ↦ inl many
        | inr stays ↦ inr (λ was.
            and-true-intro (stays d _ w m was)
              (and-true (contains d.roles "SUPER_ADMIN") (is_active d.status) was).1)
      ]

  set_user_roles-Ends :
      Distinct same_id before.users
      → (user_id : String) (roles : List Role) (actor_id reason : String)
      → Ends Same (set_user_roles p user_id roles actor_id reason) HasSuper
  unfolding set_user_roles keep_a_super
  set_user_roles-Ends distinct user_id roles actor_id reason = Ends-raise_if _ _ _ stop (λ other.
      Ends-find_one p stable Collections.users _ _
        (λ db u rest same w m. Ends-or_raise (some u) user_not_found _ stop (λ x is_u.
          Ends-when (demotes p x roles) _ _
            (λ demoted. Ends-assoc _ _ _ (
              Ends-count_documents p Collections.users stable is_active_super none _
                (λ db' n same' counts. Ends-raise_if _ _ _ stop (λ enough.
                  write_roles-Ends user_id x roles actor_id reason
                    (inl (more n db' same' counts enough))))))
            (λ kept. write_roles-Ends user_id x roles actor_id reason (
              inr (λ d others v m' was.
                stays p x d roles kept
                  (some_eq is_u
                    ∙ same_id_unique u d distinct (subst (With u rest) same w) v
                        (==-eq _ _ m ∙ sym (==-eq _ _ m')))
                  was)))))
        (λ db same none_match. Ends-or_raise none user_not_found _ stop (λ x e. absurd (cc (e)))))
    where
      more :
          (n : ℕ) (db : Db)
          → Same db
          → n ≡ active_supers db
          → leb n 1 ≡ false
          → 2 ≤ active_supers before
      more n db same counts enough =
          subst (λ us. 2 ≤ length (select is_active_super us)) same
            (subst (λ k. 2 ≤ k) counts (ground arith))

-- Alone on the database, with one account to an id and some active super admin, there is still an
-- active super admin after a change of roles, however the change ends.
pub set_user_roles_lem :
    (p : Platform)
    → IsQuiet p
    → (s : State) → Distinct same_id s.db.users
    → 1 ≤ active_supers s.db
    → (user_id : String) (roles : List Role) (actor_id reason : String)
    → 1 ≤ active_supers (set_user_roles p user_id roles actor_id reason s).1.db
set_user_roles_lem p quiet s distinct some_super user_id roles actor_id reason =
    (set_user_roles-Ends p quiet s.db some_super distinct user_id roles actor_id reason).at s refl
