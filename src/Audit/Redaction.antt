-- ===== src/Audit/Redaction.antt =====
-- What `record` of app/modules/audit/service.py writes to the trail.
use voltaris_mobility_backen.Prelude.{
  ℕ, String, string_eq, ◌≡◌, refl, ap, suc, length, subst, map, Bool, true, false, Option, none,
  some, [], ◌∷◌, contains, All, if◌then◌else◌,
}
use voltaris_mobility_backen.Core.Platform.{Platform, IsQuiet}
use voltaris_mobility_backen.Core.Action.{ok, State}
use voltaris_mobility_backen.Core.Keeps.{keeps_rules, Keeps-pure}
use voltaris_mobility_backen.Core.Returns.{IsQuiet-Stable}
use voltaris_mobility_backen.Core.Leaves.{
  Leaves, Leaves-bind, Leaves-then, Leaves-keeps, Leaves-insert_one,
}
use voltaris_mobility_backen.Database.With.{With}
use voltaris_mobility_backen.Database.Collections
use voltaris_mobility_backen.Database.Collections.{Db}
use voltaris_mobility_backen.Audit.Models.{
  Value, text, Snapshot, Change, AuditEntry, sensitive_fields, scrub_fields, scrub,
}
use voltaris_mobility_backen.Audit.Service.{record_change}

-- An entry that gives nothing away: its key is not sensitive, or its value is redacted.
abbrev pub IsClean : String × Value → Type 0
IsClean entry = contains sensitive_fields entry.0 ≡ true → entry.1 ≡ text "[redacted]"

-- The entries whose key is not sensitive.
abbrev pub harmless : Snapshot → Snapshot
harmless [] = []
harmless (entry ∷ snapshot) =
    let rest = harmless snapshot in if contains sensitive_fields entry.0 then rest else entry ∷ rest

redacted :
    (b : Bool) (value : Value)
    → b ≡ true
    → (if b then text "[redacted]" else value) ≡ text "[redacted]"
redacted true value h = refl
redacted false value h = cc

kept :
    (b : Bool) (entry written : String × Value) (xs ys : Snapshot)
    → (b ≡ false → written ≡ entry)
    → xs ≡ ys
    → (if b then xs else written ∷ xs) ≡ (if b then ys else entry ∷ ys)
kept true entry written xs ys same h = h
kept false entry written xs ys same h = rw (same refl, h) refl

not_redacted :
    (b : Bool) (key : String) (value : Value)
    → b ≡ false
    → ◌≡◌ {A = String × Value} (key, (if b then text "[redacted]" else value)) (key, value)
not_redacted true key value h = cc
not_redacted false key value h = refl

-- What may be written of a snapshot: no sensitive value, as many entries, and the entries of the
-- other keys as they were, in their order.
pub data IsRedaction : Option Snapshot → Option Snapshot → Type 0 where
  no_snapshot : IsRedaction none none
  redaction :
      (given written : Snapshot)
      → All IsClean written
      → length written ≡ length given
      → map (λ entry. entry.0) written ≡ map (λ entry. entry.0) given
      → harmless written ≡ harmless given
      → IsRedaction (some given) (some written)

scrub_fields_lem :
    (snapshot : Snapshot)
    → All IsClean (scrub_fields snapshot)
      × (length (scrub_fields snapshot) ≡ length snapshot)
      × (map (λ entry. entry.0) (scrub_fields snapshot) ≡ map (λ entry. entry.0) snapshot)
      × (harmless (scrub_fields snapshot) ≡ harmless snapshot)
unfolding scrub_fields
scrub_fields_lem [] = (tt, refl, refl, refl)
scrub_fields_lem ((key, value) ∷ snapshot) =
    let (clean, size, keys, same) = scrub_fields_lem snapshot in
    (
      (redacted (contains sensitive_fields key) value, clean),
      ap suc size,
      ap (λ rest. key ∷ rest) keys,
      kept (contains sensitive_fields key) (key, value) _ _ _
          (not_redacted (contains sensitive_fields key) key value) same,
    )

scrub-IsRedaction : (o : Option Snapshot) → IsRedaction o (scrub o)
unfolding scrub
scrub-IsRedaction none = no_snapshot
scrub-IsRedaction (some given) =
    let (clean, size, keys, same) = scrub_fields_lem given in redaction given _ clean size keys same

-- The entry of a change.
pub record IsEntryOf (c : Change) (e : AuditEntry) : Type 0 where
  pub action : e.action ≡ c.action
  pub entity_type : e.entity_type ≡ c.entity_type
  pub entity_id : e.entity_id ≡ c.entity_id
  pub actor_id : e.actor_id ≡ c.actor_id
  pub ip : e.ip ≡ c.ip
  pub before : IsRedaction c.before e.before
  pub after : IsRedaction c.after e.after

module _ (p : Platform) (quiet : IsQuiet p) (c : Change) (before : Db) where
  abbrev Same : Db → Type 0
  Same db = db.audit_logs ≡ before.audit_logs

  abbrev pub IsRecorded : Db → Type 0
  IsRecorded db = (e : AuditEntry) × With e before.audit_logs db.audit_logs × IsEntryOf c e

  abbrev entry : String → ℕ → AuditEntry
  entry entry_id at = record {
    id = entry_id;
    actor_id = c.actor_id;
    action = c.action;
    entity_type = c.entity_type;
    entity_id = c.entity_id;
    before = scrub c.before;
    after = scrub c.after;
    ip = c.ip;
    at = at;
  }

  entry-IsEntryOf : (entry_id : String) (at : ℕ) → IsEntryOf c (entry entry_id at)
  entry-IsEntryOf entry_id at = record {
    action = refl;
    entity_type = refl;
    entity_id = refl;
    actor_id = refl;
    ip = refl;
    before = scrub-IsRedaction c.before;
    after = scrub-IsRedaction c.after;
  }

  record_change-Leaves : Leaves Same (record_change p c) IsRecorded
  unfolding record_change
  record_change-Leaves = Leaves-bind _ _ (search keeps_rules) (λ entry_id.
      Leaves-bind _ _ (search keeps_rules) (λ at.
        Leaves-then _ _
          (Leaves-insert_one p Collections.audit_logs (IsQuiet-Stable Same quiet)
            (entry entry_id at)
            (λ db ds same w. (
              entry entry_id at,
              subst (λ es. With (entry entry_id at) es ds) same w,
              entry-IsEntryOf entry_id at,
            )))
          (λ _. Leaves-keeps _ (λ db h. h) (Keeps-pure _))))

-- Alone on the database, once `record` has answered, the audit trail holds what it held before and
-- one entry more: that of the change, with both snapshots redacted. No sensitive value is in them,
-- and the other entries of a snapshot are as they were, in their order.
pub record_change_lem :
    (p : Platform)
    → IsQuiet p
    → (c : Change) (s : State) (entry_id : String) → (record_change p c s).0 ≡ ok entry_id
    → (e : AuditEntry) × With e s.db.audit_logs (record_change p c s).1.db.audit_logs
      × IsEntryOf c e
record_change_lem p quiet c s entry_id answered =
    (record_change-Leaves p quiet c s.db).at s refl entry_id answered
