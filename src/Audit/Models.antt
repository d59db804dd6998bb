-- ===== src/Audit/Models.antt =====
-- app/modules/audit/service.py: the entries of the audit trail, and the scrubbing of snapshots.
use voltaris_mobility_backen.Prelude.{
  ℕ, String, string_eq, Option, none, some, List, [], ◌∷◌, contains, if◌then◌else◌,
}
use voltaris_mobility_backen.Prelude.Int.{ℤ}

-- The values that the services put into a snapshot.
pub data Value : Type 0 where
  null : Value
  text : String → Value
  number : ℤ → Value
  texts : List String → Value

abbrev pub text_or_null : Option String → Value
text_or_null none = null
text_or_null (some s) = text s

abbrev pub Snapshot : Type 0
Snapshot = List (String × Value)

abbrev pub sensitive_fields : List String
sensitive_fields = "password_hash" ∷ "mfa_secret" ∷ "api_key" ∷ "token" ∷ "secret" ∷ []

unfoldable pub scrub_fields : Snapshot → Snapshot
scrub_fields [] = []
scrub_fields ((key, value) ∷ snapshot) =
    (key, (if contains sensitive_fields key then text "[redacted]" else value))
    ∷ scrub_fields snapshot

-- `_scrub`
unfoldable pub scrub : Option Snapshot → Option Snapshot
unfolding scrub_fields
scrub none = none
scrub (some snapshot) = some (scrub_fields snapshot)

-- What a caller of `record` says of a change.
pub record Change : Type 0 where
  pub action : String
  pub entity_type : String
  pub entity_id : String
  pub actor_id : Option String
  pub before : Option Snapshot
  pub after : Option Snapshot
  pub ip : Option String

pub record AuditEntry : Type 0 where
  pub id : String
  pub actor_id : Option String
  pub action : String
  pub entity_type : String
  pub entity_id : String
  pub before : Option Snapshot
  pub after : Option Snapshot
  pub ip : Option String
  pub at : ℕ
