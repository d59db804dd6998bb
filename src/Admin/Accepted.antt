-- ===== src/Admin/Accepted.antt =====
-- What a filter that `_validate_filter` lets through contains: app/modules/admin/console.py.
use voltaris_mobility_backen.Prelude.{
  ℕ, suc, ◌+◌, ◌≤◌, String, string_eq, ◌==◌, ==-refl, ◌≡◌, refl, sym, subst, Bool, true, false, not,
  ◌&&◌, ltb, List, [], ◌∷◌, ◌++◌, contains, All, arith, if◌then◌else◌,
}
use voltaris_mobility_backen.Prelude.Text.{starts_with, str_length}
use voltaris_mobility_backen.Core.Action.{Result, ok, err}
use voltaris_mobility_backen.Admin.Filter.{
  Node, Items, Fields, null, text, number, flag, array, dict, no_items, item, no_fields, field,
  allowed_operators, rejected, followed_by, check_operator, check_regex, validate, validate_items,
  validate_fields,
}

-- Every key of a value with what stands under it, at any depth.
mutual
  pub entries : Node → List (String × Node)
  entries (dict fields) = entries_fields fields
  entries (array items) = entries_items items
  entries null = []
  entries (text value) = []
  entries (number value) = []
  entries (flag value) = []

  entries_items : Items → List (String × Node)
  entries_items no_items = []
  entries_items (item value items) = entries value ++ entries_items items

  entries_fields : Fields → List (String × Node)
  entries_fields no_fields = []
  entries_fields (field key value fields) = (key, value) ∷ entries value ++ entries_fields fields

abbrev higher : ℕ → ℕ → ℕ
higher a b = if ltb a b then b else a

-- How many levels of keys and lists a value has.
mutual
  pub height : Node → ℕ
  height (dict fields) = height_fields fields
  height (array items) = height_items items
  height null = 0
  height (text value) = 0
  height (number value) = 0
  height (flag value) = 0

  height_items : Items → ℕ
  height_items no_items = 0
  height_items (item value items) = higher (suc (height value)) (height_items items)

  height_fields : Fields → ℕ
  height_fields no_fields = 0
  height_fields (field key value fields) = higher (suc (height value)) (height_fields fields)

-- A key that begins with `$` is an allowed operator, and a pattern compiles and has at most 200
-- characters.
abbrev pub IsHarmless : (String → Bool) → String × Node → Type 0
IsHarmless compiles (key, value) =
    (starts_with "$" key ≡ true → contains allowed_operators key ≡ true)
    × ((pattern_text : String)
        → key ≡ "$regex"
        → value ≡ text pattern_text
        → (str_length pattern_text ≤ 200) × (compiles pattern_text ≡ true))

All-++ {ℓ κ} :
    {A : Type ℓ} (P : A → Type κ) (xs ys : List A) → All P xs → All P ys → All P (xs ++ ys)
All-++ P [] ys f g = g
All-++ P (x ∷ xs) ys f g = (f.0, All-++ P xs ys f.1 g)

followed_by-ok : (a b : Result (Unit {0})) → followed_by a b ≡ ok tt → (a ≡ ok tt) × (b ≡ ok tt)
followed_by-ok (ok tt) b e = (refl, e)
followed_by-ok (err x) b e = absurd (cc (e))

check_operator-ok :
    (key : String)
    → check_operator key ≡ ok tt
    → starts_with "$" key ≡ true
    → contains allowed_operators key ≡ true
check_operator-ok key e h = test (starts_with "$" key) (contains allowed_operators key) h e
  where
    test : (a b : Bool) → a ≡ true → (if a && not b then rejected else ok tt) ≡ ok tt → b ≡ true
    test true true h e = refl
    test true false h e = absurd (cc (e))
    test false b h e = absurd (cc (h))

regex-ok :
    (is_regex too_long good : Bool)
    → is_regex ≡ true
    → (if is_regex && (if too_long then true else not good) then rejected else ok tt) ≡ ok tt
    → (too_long ≡ false) × (good ≡ true)
regex-ok true true good h e = absurd (cc (e))
regex-ok true false true h e = (refl, refl)
regex-ok true false false h e = absurd (cc (e))
regex-ok false too_long good h e = absurd (cc (h))

module _ (compiles : String → Bool) where
  check_regex-ok :
      (key : String) (value : Node)
      → check_regex compiles key value ≡ ok tt
      → (pattern_text : String) → key ≡ "$regex"
      → value ≡ text pattern_text
      → (str_length pattern_text ≤ 200) × (compiles pattern_text ≡ true)
  check_regex-ok key value e pattern_text is_regex is_text =
      let e' = subst (λ v. check_regex compiles key v ≡ ok tt) is_text e in
      let (short, good) =
        regex-ok (key == "$regex") (ltb 200 (str_length pattern_text)) (compiles pattern_text)
          (subst (λ (k : String). (k == "$regex") ≡ true) (sym is_regex)
            (==-refl {A = String} "$regex"))
          e' in
      (ground arith, good)

  -- What acceptance at a depth shows.
  abbrev Accepts : Node → Type 0
  Accepts value =
      (depth : ℕ)
      → validate compiles value depth ≡ ok tt
      → (height value + depth ≤ 6) × All (IsHarmless compiles) (entries value)

  abbrev AcceptsItems : Items → Type 0
  AcceptsItems items =
      (depth : ℕ)
      → depth ≤ 6
      → validate_items compiles items depth ≡ ok tt
      → (height_items items + depth ≤ 6) × All (IsHarmless compiles) (entries_items items)

  abbrev AcceptsFields : Fields → Type 0
  AcceptsFields fields =
      (depth : ℕ)
      → depth ≤ 6
      → validate_fields compiles fields depth ≡ ok tt
      → (height_fields fields + depth ≤ 6) × All (IsHarmless compiles) (entries_fields fields)

  within :
      (depth : ℕ) (r : Result (Unit {0}))
      → (if ltb 6 depth then rejected else r) ≡ ok tt
      → (depth ≤ 6) × (r ≡ ok tt)
  within depth r e = ground arith

  validate-Accepts : (value : Node) → Accepts value
  unfolding validate entries height
  validate-Accepts value = elim value as Accepts AcceptsItems AcceptsFields [
    | dict (fs → ih) ↦ λ depth e. let (low, rest) = within depth _ e in ih depth low rest
    | array (xs → ih) ↦ λ depth e. let (low, rest) = within depth _ e in ih depth low rest
    | no_items ↦ λ depth low e. (omega arith, tt)
    | item (v → ih) (xs → rest) ↦ λ depth low e.
        let (here, later) = followed_by-ok _ _ e in
        let (h, clean) = ih (suc depth) here in
        let (h', clean') = rest depth low later in
        (ground arith, All-++ _ (entries v) (entries_items xs) clean clean')
    | no_fields ↦ λ depth low e. (omega arith, tt)
    | field key (v → ih) (fs → rest) ↦ λ depth low e.
        let (operator_ok, e') = followed_by-ok _ _ e in
        let (regex_ok, e'') = followed_by-ok _ _ e' in
        let (here, later) = followed_by-ok _ _ e'' in
        let (h, clean) = ih (suc depth) here in
        let (h', clean') = rest depth low later in
        (
          ground arith,
          (
            (check_operator-ok key operator_ok, check_regex-ok key v regex_ok),
            All-++ _ (entries v) (entries_fields fs) clean clean',
          ),
        )
    | _ ↦ λ depth e. (ground arith, tt)
  ]

-- A filter that is accepted has at most six levels, and at every depth its operators are allowed
-- ones and its patterns compile and have at most 200 characters.
pub validate_lem :
    (compiles : String → Bool) (value : Node)
    → validate compiles value 0 ≡ ok tt
    → (height value ≤ 6) × All (IsHarmless compiles) (entries value)
validate_lem compiles value e =
    let (h, clean) = validate-Accepts compiles value 0 e in (omega arith, clean)
