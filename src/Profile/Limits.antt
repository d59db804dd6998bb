-- ===== src/Profile/Limits.antt =====
-- The limit of the saved searches: `create_saved_search` of app/modules/users/profile_service.py.
use voltaris_mobility_backen.Prelude.{
  ℕ, ◌+◌, ◌≤◌, ◌<◌, String, string_eq, ◌==◌, ==-eq, ◌≡◌, refl, sym, ap, ◌∙◌, subst, Bool, true,
  false, leb, none, List, length, arith, if◌then◌else◌,
}
use voltaris_mobility_backen.Core.Platform.{Platform, IsQuiet}
use voltaris_mobility_backen.Core.Action.{State}
use voltaris_mobility_backen.Core.Keeps.{Stable, keeps_rules, Keeps-pure}
use voltaris_mobility_backen.Core.Returns.{IsQuiet-Stable}
use voltaris_mobility_backen.Core.Ends.{Ends, Ends-bind, Ends-raise_if}
use voltaris_mobility_backen.Core.Closing.{Ends-count_documents, Ends-insert_one, Ends-then_keeps}
use voltaris_mobility_backen.Database.With.{With}
use voltaris_mobility_backen.Database.Reads.{select}
use voltaris_mobility_backen.Database.Rows.{select-With}
use voltaris_mobility_backen.Database.Collections
use voltaris_mobility_backen.Database.Collections.{Db}
use voltaris_mobility_backen.Profile.Models.{SavedSearch}
use voltaris_mobility_backen.Profile.Service.{is_search_of, search_row, create_saved_search}

abbrev pub searches_of : String → Db → ℕ
searches_of user_id db = length (select (is_search_of user_id) db.saved_searches)

-- No account has more than 25 saved searches.
abbrev pub IsWithinLimit : Db → Type 0
IsWithinLimit db = (user_id : String) → searches_of user_id db ≤ 25

one_more :
    (b : Bool) (n k : ℕ) → k ≡ (if b then 1 else 0) + n → n ≤ 25 → (b ≡ true → n < 25) → k ≤ 25
one_more true n k e h room = let r = room refl in omega arith
one_more false n k e h room = omega arith

module _ (p : Platform) (quiet : IsQuiet p) (before : Db) (within : IsWithinLimit before) where
  abbrev Same : Db → Type 0
  Same db = db.saved_searches ≡ before.saved_searches

  stable : Stable p Same
  stable = IsQuiet-Stable Same quiet

  stop : (db : Db) → Same db → IsWithinLimit db
  stop db same user_id =
      subst (λ xs. length (select (is_search_of user_id) xs) ≤ 25) (sym same) (within user_id)

  add_row :
      (user_id : String)
      → searches_of user_id before < 25
      → (row : SavedSearch) → row.user_id ≡ user_id
      → (db : Db) (ds : List SavedSearch) → Same db
      → With row db.saved_searches ds
      → IsWithinLimit (record db { saved_searches = ds })
  add_row user_id room row mine db ds same w other =
      one_more (row.user_id == other) (searches_of other before) _
        (select-With (is_search_of other) w
          ∙ ap
              (λ xs.
                (if row.user_id == other then 1 else 0) + length (select (is_search_of other) xs))
              same)
        (within other) (λ e. subst (λ u. searches_of u before < 25) (sym mine ∙ ==-eq _ _ e) room)

  create_saved_search-Ends :
      (user_id label query : String)
      → Ends Same (create_saved_search p user_id label query) IsWithinLimit
  unfolding create_saved_search
  create_saved_search-Ends user_id label query =
      Ends-count_documents p Collections.saved_searches stable _ none _ (λ db n same counts.
        Ends-raise_if _ _ _ stop (λ below. Ends-bind stop _ _ (search keeps_rules) (λ id.
          Ends-bind stop _ _ (search keeps_rules) (λ now.
            Ends-then_keeps _ _
              (Ends-insert_one p Collections.saved_searches stable stop _ (
                add_row user_id (room n db same counts below)
                  (search_row id user_id label query now) refl))
              (λ _. Keeps-pure _)))))
    where
      room :
          (n : ℕ) (db : Db)
          → Same db
          → n ≡ searches_of user_id db
          → leb 25 n ≡ false
          → searches_of user_id before < 25
      room n db same counts below =
          subst (λ xs. length (select (is_search_of user_id) xs) < 25) same
            (subst (λ k. k < 25) counts (ground arith))

-- Alone on the database, no account has more than 25 saved searches after another was asked for, if
-- none had before.
pub create_saved_search_lem :
    (p : Platform)
    → IsQuiet p
    → (user_id label query : String) (s : State) → IsWithinLimit s.db
    → IsWithinLimit (create_saved_search p user_id label query s).1.db
create_saved_search_lem p quiet user_id label query s within =
    (create_saved_search-Ends p quiet s.db within user_id label query).at s refl
