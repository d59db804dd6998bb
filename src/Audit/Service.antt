-- ===== src/Audit/Service.antt =====
-- `AuditService.record` of app/modules/audit/service.py. The request id comes from a context
-- variable of the web framework and no caller gives a user agent: both are left out of an entry.
use voltaris_mobility_backen.Prelude.{String}
use voltaris_mobility_backen.Core.Platform.{Platform}
use voltaris_mobility_backen.Core.Action.{Action, pure, ◌>>=◌, ◌>>◌, uuid4_hex, utc_now, insert_one}
use voltaris_mobility_backen.Database.Collections
use voltaris_mobility_backen.Audit.Models.{Change, scrub}

module _ (p : Platform) where
  -- `record`
  unfoldable pub record_change : Change → Action String
  record_change c = do
    entry_id ← uuid4_hex p
    at ← utc_now p
    insert_one p Collections.audit_logs (record {
      id = entry_id;
      actor_id = c.actor_id;
      action = c.action;
      entity_type = c.entity_type;
      entity_id = c.entity_id;
      before = scrub c.before;
      after = scrub c.after;
      ip = c.ip;
      at = at;
    })
    pure entry_id
