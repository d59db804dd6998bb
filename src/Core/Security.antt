-- ===== src/Core/Security.antt =====
-- The webhook signature of app/core/security.py. The key, the body and the digest are texts here,
-- as the digest function takes them; a time is in seconds.
use Prim.Native.Char.{code}
use Prim.Native.String.{◌++◌}
use voltaris_mobility_backen.Prelude.{
  ℕ, ◌+◌, String, string_eq, ◌==◌, eqb, ltb, Bool, not, ◌&&◌, Option, none, some, List, [], ◌∷◌,
  if◌then◌else◌,
}
use voltaris_mobility_backen.Prelude.Int.{ℤ, pos, ◌-ℤ◌, pos_part, neg_part}
use voltaris_mobility_backen.Prelude.Text.{str_ℕ, is_ascii}
use voltaris_mobility_backen.Core.Errors.{
  ErrorCode, app_error, python_error, webhook_signature_invalid,
}
use voltaris_mobility_backen.Core.Platform.{Platform}
use voltaris_mobility_backen.Core.Action.{Result, ok, err}

-- `text.split(separator)` for a separator of one character
push : String → List String → List String
push c [] = c ∷ []
push c (piece ∷ pieces) = (c ++ piece) ∷ pieces

unfoldable pub split : ℕ → String → List String
unfolding push
split sep String.[] = "" ∷ []
split sep (String.◌∷◌ c s) =
    let pieces = split sep s in
    if eqb (code c) sep then "" ∷ pieces else push (String.◌∷◌ c "") pieces

-- `text.split(separator, 1)` of a text that has the separator, and `none` of one that has not
in_front : String → Option (String × String) → Option (String × String)
in_front c none = none
in_front c (some (key, value)) = some (c ++ key, value)

unfoldable pub split_once : ℕ → String → Option (String × String)
unfolding in_front
split_once sep String.[] = none
split_once sep (String.◌∷◌ c s) =
    let rest = split_once sep s in
    if eqb (code c) sep then some ("", s) else in_front (String.◌∷◌ c "") rest

-- `dict(piece.split("=", 1) for piece in pieces if "=" in piece).get(key)`: the last entry counts.
entry_of : String → Option (String × String) → Option String → Option String
entry_of key none later = later
entry_of key (some (k, value)) none = if k == key then some value else none
entry_of key (some (k, value)) (some v) = some v

unfoldable pub get_part : String → List String → Option String
unfolding entry_of split_once
get_part key [] = none
get_part key (piece ∷ pieces) = entry_of key (split_once b'=' piece) (get_part key pieces)

abbrev pub non_empty : Option String → Option String
non_empty none = none
non_empty (some s) = if s == "" then none else some s

-- `abs(current - sent_at) > tolerance_seconds`
abbrev pub is_outside : ℕ → ℕ → ℤ → Bool
is_outside tolerance current sent_at =
    let age = pos current -ℤ sent_at in ltb tolerance (pos_part age + neg_part age)

-- `if not compare_digest(a, b): raise AppError(code)`, which raises TypeError for a text that is not
-- ASCII
unfoldable pub compare_digest : ErrorCode → String → String → Result (Unit {0})
unfolding is_ascii
compare_digest code a b =
    if not (is_ascii a && is_ascii b)
    then err python_error
    else if a == b
    then ok tt
    else err (app_error code)

module _ (p : Platform) where
  abbrev pub invalid : Result (Unit {0})
  invalid = err (app_error webhook_signature_invalid)

  -- The timestamp is signed with the body.
  unfoldable pub expected_digest : String → String → String → String
  expected_digest secret timestamp payload = p.hmac_sha256_hex secret (timestamp ++ "." ++ payload)

  abbrev check_age : String → ℕ → ℕ → String → String → String → Option ℤ → Result (Unit {0})
  check_age secret tolerance current payload timestamp provided none = invalid
  check_age secret tolerance current payload timestamp provided (some sent_at) =
      if is_outside tolerance current sent_at
      then invalid
      else compare_digest webhook_signature_invalid (expected_digest secret timestamp payload)
          provided

  abbrev check_parts : String → ℕ → ℕ → String → Option String → Option String → Result (Unit {0})
  check_parts secret tolerance current payload none provided = invalid
  check_parts secret tolerance current payload (some timestamp) none = invalid
  check_parts secret tolerance current payload (some timestamp) (some provided) =
      check_age secret tolerance current payload timestamp provided (p.parse_int timestamp)

  -- `verify_webhook_signature` at the time `current`
  unfoldable pub verify_webhook_signature : String → String → String → ℕ → ℕ → Result (Unit {0})
  unfolding get_part split compare_digest
  verify_webhook_signature payload signature_header secret tolerance current =
      let parts = split b',' signature_header in
      check_parts secret tolerance current payload (non_empty (get_part "t" parts))
        (non_empty (get_part "v1" parts))

  -- `sign_webhook`
  unfoldable pub sign_webhook : String → String → ℕ → String
  sign_webhook payload secret ts =
      "t=" ++ str_ℕ ts ++ ",v1=" ++ expected_digest secret (str_ℕ ts) payload
