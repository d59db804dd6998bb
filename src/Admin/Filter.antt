-- ===== src/Admin/Filter.antt =====
-- The filters of the console: `_validate_filter` and `_redact` of app/modules/admin/console.py.
-- `re.compile` is a parameter, as a test whether it raises.
use voltaris_mobility_backen.Prelude.{
  ℕ, suc, String, string_eq, ◌==◌, Bool, true, not, ◌&&◌, ltb, List, [], ◌∷◌, contains,
  if◌then◌else◌,
}
use voltaris_mobility_backen.Prelude.Int.{ℤ}
use voltaris_mobility_backen.Prelude.Text.{starts_with, str_length}
use voltaris_mobility_backen.Core.Errors.{app_error, invalid_request}
use voltaris_mobility_backen.Core.Action.{Result, ok, err}

-- A decoded JSON value.
mutual
  pub data Node : Type 0 where
    null : Node
    text : String → Node
    number : ℤ → Node
    flag : Bool → Node
    array : Items → Node
    dict : Fields → Node

  pub data Items : Type 0 where
    no_items : Items
    item : Node → Items → Items

  pub data Fields : Type 0 where
    no_fields : Fields
    field : String → Node → Fields → Fields

abbrev pub allowed_operators : List String
allowed_operators =
    "$eq" ∷ "$ne" ∷ "$gt" ∷ "$gte" ∷ "$lt" ∷ "$lte" ∷ "$in" ∷ "$nin" ∷ "$and" ∷ "$or" ∷ "$not"
    ∷ "$nor" ∷ "$exists" ∷ "$type" ∷ "$regex" ∷ "$options" ∷ "$size" ∷ "$all" ∷ "$elemMatch" ∷ []

abbrev pub rejected : Result (Unit {0})
rejected = err (app_error invalid_request)

-- One check after another: the first that raises ends them.
abbrev pub followed_by : Result (Unit {0}) → Result (Unit {0}) → Result (Unit {0})
followed_by (ok tt) later = later
followed_by (err e) later = err e

abbrev pub check_operator : String → Result (Unit {0})
check_operator key =
    if starts_with "$" key && not (contains allowed_operators key) then rejected else ok tt

abbrev pub check_regex : (String → Bool) → String → Node → Result (Unit {0})
check_regex compiles key (text value) =
    if key == "$regex" && (if ltb 200 (str_length value) then true else not (compiles value))
    then rejected
    else ok tt
check_regex compiles key value = ok tt

module _ (compiles : String → Bool) where
  -- `_validate_filter`
  unfoldable mutual
    pub validate : Node → ℕ → Result (Unit {0})
    validate (dict fields) depth =
        let rest = validate_fields fields depth in if ltb 6 depth then rejected else rest
    validate (array items) depth =
        let rest = validate_items items depth in if ltb 6 depth then rejected else rest
    validate null depth = if ltb 6 depth then rejected else ok tt
    validate (text value) depth = if ltb 6 depth then rejected else ok tt
    validate (number value) depth = if ltb 6 depth then rejected else ok tt
    validate (flag value) depth = if ltb 6 depth then rejected else ok tt

    pub validate_items : Items → ℕ → Result (Unit {0})
    validate_items no_items depth = ok tt
    validate_items (item value items) depth =
        followed_by (validate value (suc depth)) (validate_items items depth)

    pub validate_fields : Fields → ℕ → Result (Unit {0})
    validate_fields no_fields depth = ok tt
    validate_fields (field key value fields) depth = followed_by (check_operator key) (
        followed_by (check_regex compiles key value)
          (followed_by (validate value (suc depth)) (validate_fields fields depth)))

-- A stored document as the console reads it, and `_redact`.
abbrev pub Document : Type 0
Document = List (String × Node)

abbrev pub always_redact : List String
always_redact = "password_hash" ∷ "mfa_secret" ∷ "refresh_jti" ∷ "identities" ∷ []

unfoldable pub redact : Document → Document
redact [] = []
redact ((key, value) ∷ document) =
    (key, (if contains always_redact key then text "[redacted]" else value)) ∷ redact document
