-- ===== src/Admin/Revocation.antt =====
-- The sessions that the console ends: `revoke_all_sessions` and `set_user_status` of
-- app/modules/admin/console.py.
use voltaris_mobility_backen.Prelude.{
  ℕ, String, string_eq, ◌==◌, ==-eq, ==-refl, ==-sym, ◌≡◌, refl, sym, ap, ◌∙◌, subst, Bool, true,
  false, not, ◌&&◌, List, [], ◌∷◌, All, All-map, map, if◌then◌else◌,
}
use voltaris_mobility_backen.Core.Platform.{Platform, IsQuiet}
use voltaris_mobility_backen.Core.Action.{update_one, when}
use voltaris_mobility_backen.Core.Keeps.{
  Keeps, Ignores, keeps_rules, Keeps-insert_ignored, Keeps-find_one, Keeps-utc_now,
}
use voltaris_mobility_backen.Core.Returns.{IsQuiet-Stable}
use voltaris_mobility_backen.Core.Ends.{Ends}
use voltaris_mobility_backen.Core.Closing.{Ends-then_keeps, Ends-utc_now}
use voltaris_mobility_backen.Core.Leaves.{
  Leaves, Leaves-ends, Leaves-keeps, Leaves-then, Leaves-bind, Leaves-or_raise, Leaves-update_one,
  Ends-update_many,
}
use voltaris_mobility_backen.Database.Bags.{All-put, Distinct, Distinct-take}
use voltaris_mobility_backen.Database.Rows.{All-Shuffled}
use voltaris_mobility_backen.Database.Reads.{IsUnindexed, changed_where}
use voltaris_mobility_backen.Database.Indexes.{sessions_clash}
use voltaris_mobility_backen.Database.Collections
use voltaris_mobility_backen.Database.Collections.{Db}
use voltaris_mobility_backen.Audit.Models.{Change}
use voltaris_mobility_backen.Audit.Service.{record_change}
use voltaris_mobility_backen.Users.Models.{User, UserStatus}
use voltaris_mobility_backen.Auth.Models.{Session}
use voltaris_mobility_backen.Auth.Sessions.{revoke}
use voltaris_mobility_backen.Admin.Console.{
  is_active, is_open_session, revoke_open, end_sessions, set_user_status, revoke_all_sessions,
}
use voltaris_mobility_backen.Admin.LastAdmin.{same_id}

-- No stored session of the account is open.
abbrev pub IsSignedOut : String → Db → Type 0
IsSignedOut user_id db = All (λ x. is_open_session user_id x ≡ false) db.sessions

-- Every stored account of that id has that status.
abbrev pub HasStatus : String → UserStatus → Db → Type 0
HasStatus user_id status db =
    All (λ (u : User). (u.id == user_id) ≡ true → u.status ≡ status) db.users

and-false : (b : Bool) → (b && false) ≡ false
and-false true = refl
and-false false = refl

All-mapped :
    {A B : Type 0} (P : B → Type 0) (f : A → B) (xs : List A)
    → ((x : A) → P (f x))
    → All P (map f xs)
All-mapped P f [] h = tt
All-mapped P f (x ∷ xs) h = (h x, All-mapped P f xs h)

module _ (user_id reason : String) (now : ℕ) where
  revoked-closed : (x : Session) → is_open_session user_id (revoke reason now x) ≡ false
  revoked-closed x = and-false (x.user_id == user_id)

  changed-closed :
      (x : Session)
      → is_open_session user_id (changed_where (is_open_session user_id) (revoke reason now) x)
        ≡ false
  changed-closed x = branch (is_open_session user_id x) refl
    where
      branch :
          (b : Bool)
          → is_open_session user_id x ≡ b
          → is_open_session user_id (if b then revoke reason now x else x) ≡ false
      branch true e = revoked-closed x
      branch false e = e

  revoke-IsUnindexed : IsUnindexed sessions_clash (revoke reason now)
  unfolding sessions_clash
  revoke-IsUnindexed a b = refl

module _ (p : Platform) (quiet : IsQuiet p) (user_id : String) where
  -- The write that closes them.
  revoke_open-Ends :
      (P : Db → Type 0)
      → Ignores P Collections.sessions
      → (reason : String)
      → Ends P (revoke_open p user_id reason) (λ db. P db × IsSignedOut user_id db)
  revoke_open-Ends P ignored reason = Ends-utc_now p _ (λ now.
      Ends-update_many p Collections.sessions (is_open_session user_id) (revoke reason now)
        (IsQuiet-Stable P quiet) (revoke-IsUnindexed user_id reason now)
        (λ x _. revoked-closed user_id reason now x)
        (λ db ds h shuffled. (
          ignored.at db ds h,
          All-Shuffled _ shuffled (All-mapped _ _ db.sessions (changed-closed user_id reason now)),
        )))

  record_change-Keeps :
      (P : Db → Type 0)
      → Ignores P Collections.audit_logs
      → (c : Change) → Keeps P (record_change p c)
  unfolding record_change
  record_change-Keeps P ignored c =
      search (
        keeps_rules,
        Keeps-insert_ignored Collections.audit_logs p (IsQuiet-Stable P quiet) ignored,
      )

  audit-Keeps : (c : Change) → Keeps (λ db. Unit {0} × IsSignedOut user_id db) (record_change p c)
  audit-Keeps c = record_change-Keeps _ (record { at = λ db ds h. h }) c

  pub revoke_all_sessions-Ends :
      (actor_id : String)
      → Ends
          (λ db. Unit {0})
          (revoke_all_sessions p user_id actor_id)
          (λ db. Unit {0} × IsSignedOut user_id db)
  unfolding revoke_all_sessions
  revoke_all_sessions-Ends actor_id =
      Ends-then_keeps _ _
        (revoke_open-Ends (λ db. Unit) (record { at = λ db ds h. tt }) "admin_revoked")
        (λ _. search (keeps_rules, audit-Keeps))

  module _ (status : UserStatus) where
    abbrev pub One : Db → Type 0
    One db = Distinct same_id db.users

    status-Ignores-sessions : Ignores (HasStatus user_id status) Collections.sessions
    status-Ignores-sessions = record { at = λ db ds h. h }

    both-Keeps :
        (c : Change)
        → Keeps (λ db. HasStatus user_id status db × IsSignedOut user_id db) (record_change p c)
    both-Keeps c = record_change-Keeps _ (record { at = λ db ds h. h }) c

    -- Where one account has the id, the write reaches every account of that id.
    status_write-Leaves :
        (now : ℕ)
        → Leaves One
            (update_one p Collections.users
              (λ x. x.id == user_id)
              (λ x. record x { status = status; updated_at = now }))
            (HasStatus user_id status)
    status_write-Leaves now =
        Leaves-update_one p Collections.users _ _ (IsQuiet-Stable One quiet) (λ db distinct. (
          (λ none_match. All-map _ _ db.users (λ u differs e. absurd (cc (differs, e))) none_match),
          (λ d d' rest ds is_changed w m v.
              let apart = (Distinct-take same_id (λ a b. ==-sym a.id b.id) w distinct).0 in
              All-put _ v (λ _. ap (λ (u : User). u.status) is_changed)
                (All-map _ _ rest
                  (λ u differs e. absurd (
                    cc (
                      differs,
                      subst (λ (i : String). (i == u.id) ≡ true)
                          (==-eq u.id user_id e ∙ sym (==-eq d.id user_id m)) (==-refl u.id),
                    )))
                  apart)),
        ))

    pub set_user_status-Leaves :
        (not (is_active status)) ≡ true
        → (actor_id reason : String)
        → Leaves One
            (set_user_status p user_id status actor_id reason)
            (λ db. HasStatus user_id status db × IsSignedOut user_id db)
    unfolding set_user_status
    set_user_status-Leaves ends actor_id reason =
        Leaves-bind _ _ (Keeps-find_one p (IsQuiet-Stable One quiet) Collections.users _) (λ row.
          Leaves-or_raise row _ _ (λ u. Leaves-bind _ _ (Keeps-utc_now p) (λ now.
            Leaves-then _ _ (status_write-Leaves now) (λ _.
              Leaves-then _ _ (ended _ ends)
                (λ _. Leaves-keeps _ (λ db h. h) (search (keeps_rules, both-Keeps)))))))
      where
        ended :
            (b : Bool)
            → b ≡ true
            → Leaves
                (HasStatus user_id status)
                (when b (end_sessions p user_id))
                (λ db. HasStatus user_id status db × IsSignedOut user_id db)
        ended true e = Leaves-ends _ (
            Ends-then_keeps _ _
              (revoke_open-Ends (HasStatus user_id status) status-Ignores-sessions "status_change")
              (λ _. search keeps_rules))
        ended false e = absurd (cc (e))
