-- ===== src/Payments/Events.antt =====
-- The log of webhook events: `_record_event` and `_finish_event` of app/modules/payments/service.py.
use voltaris_mobility_backen.Prelude.{
  String, string_eq, ◌==◌, Bool, true, ◌&&◌, is_some, Option, some,
}
use voltaris_mobility_backen.Core.Platform.{Platform}
use voltaris_mobility_backen.Core.Action.{
  Action, pure, ◌>>=◌, ◌>>◌, uuid4_hex, utc_now, insert_one, update_one,
}
use voltaris_mobility_backen.Database.Collections
use voltaris_mobility_backen.Payments.Models.{Outcome, Payload, PaymentEvent}

-- The query for an event that was recorded before.
abbrev pub is_event : String → String → PaymentEvent → Bool
is_event provider event_id e = e.provider == provider && e.provider_event_id == event_id

abbrev pub with_outcome : Outcome → PaymentEvent → PaymentEvent
with_outcome outcome e = record e { processed = true; outcome = some outcome }

module _ (p : Platform) where
  -- `_record_event`
  unfoldable pub record_event : String → String → Bool → Option Outcome → Payload → Action String
  record_event provider_event_id event_type signature_valid outcome payload = do
    row_id ← uuid4_hex p
    now ← utc_now p
    insert_one p Collections.payment_events (record {
      id = row_id;
      provider = p.provider.name;
      provider_event_id = provider_event_id;
      event_type = event_type;
      signature_valid = signature_valid;
      processed = is_some outcome;
      outcome = outcome;
      raw_payload = payload;
      received_at = now;
    })
    pure row_id

  -- `_finish_event`
  unfoldable pub finish_event : String → Outcome → Action (Unit {0})
  finish_event row_id outcome = do
    update_one p Collections.payment_events (λ e. e.id == row_id) (with_outcome outcome)
    pure tt
