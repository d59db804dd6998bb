-- ===== src/Payments/Webhook.antt =====
-- `PaymentService.handle_webhook` of app/modules/payments/service.py: the gates, in their order.
use Prim.Native.String.{◌++◌}
use voltaris_mobility_backen.Prelude.{
  ℕ, suc, ◌/◌, String, string_eq, nat_eq, ◌==◌, Bool, true, false, not, ◌&&◌, is_some, get_or,
  Option, none, some, [], ◌∷◌, if◌then◌else◌,
}
use voltaris_mobility_backen.Prelude.Int.{ℤ, negsuc, int_eq}
use voltaris_mobility_backen.Core.Errors.{
  Failure, app_error, python_error, invalid_request, payment_not_found, payment_amount_mismatch,
  payment_currency_mismatch, invalid_state_transition, concurrent_modification,
}
use voltaris_mobility_backen.Core.Platform.{Platform}
use voltaris_mobility_backen.Core.Action.{
  Action, Result, ok, err, pure, fail, raise, ◌>>=◌, ◌>>◌, raise_if, when, on_duplicate, uuid4_hex,
  utc_now, find_one, update_one,
}
use voltaris_mobility_backen.Core.Security.{verify_webhook_signature}
use voltaris_mobility_backen.Database.Collections
use voltaris_mobility_backen.Audit.Models.{text, number}
use voltaris_mobility_backen.Audit.Service.{record_change}
use voltaris_mobility_backen.Payments.Models.{
  Payment, PaymentStatus, paid, failed, cancelled, refunded, processing, status_eq, status_value,
  can_transition, Amount, absent, integer, not_integer, EventData, Payload, Outcome,
  rejected_signature, rejected_unknown_payment, rejected_amount_mismatch,
  rejected_currency_mismatch, ignored_unhandled_type, rejected_concurrent_modification,
  rejected_transition, WebhookResponse, duplicate, ignored,
}
use voltaris_mobility_backen.Payments.Events.{is_event, record_event, finish_event}
use voltaris_mobility_backen.Payments.Settlement.{settle}

abbrev pub no_data : EventData
no_data = record {
  payment_id = none;
  amount = absent;
  currency = none;
  provider_transaction_id = none;
}

-- The dictionary from event types to statuses.
unfoldable pub target_of : String → Option PaymentStatus
target_of event_type =
    if event_type == "payment.succeeded"
    then some paid
    else if event_type == "payment.failed"
    then some failed
    else if event_type == "payment.cancelled"
    then some cancelled
    else if event_type == "payment.refunded"
    then some refunded
    else if event_type == "payment.processing"
    then some processing
    else none

abbrev pub unchanged_payment : Payment → Payment → Bool
unchanged_payment seen x = x.id == seen.id && x.status == seen.status && x.version == seen.version

abbrev pub moved : PaymentStatus → ℕ → Option String → Payment → Payment
moved target now transaction_id x = record x {
  status = target;
  updated_at = now;
  provider_transaction_id = transaction_id;
  version = suc x.version;
}

module _ (p : Platform) where
  -- Closes the event with the outcome and raises.
  unfoldable pub reject : {A : Type 0} → String → Outcome → Failure → Action A
  reject row_id outcome failure = finish_event p row_id outcome >> fail failure

  -- The change of state that passed every gate: compare-and-set, audit, settlement.
  unfoldable pub apply_transition :
      String → String → EventData → Payment → PaymentStatus → Action WebhookResponse
  apply_transition row_id event_id d x target = do
    now ← utc_now p
    written ←
        update_one p Collections.payments (unchanged_payment x)
          (moved target now (get_or d.provider_transaction_id x.provider_transaction_id))
    if not (is_some written)
        then reject row_id rejected_concurrent_modification (app_error concurrent_modification)
        else do
          record_change p (record {
            action = "payment.status_changed";
            entity_type = "payment";
            entity_id = x.id;
            actor_id = none;
            before = some (("status", text (status_value x.status)) ∷ []);
            after =
                some (("status", text (status_value target)) ∷ ("event_id", text event_id) ∷ []);
            ip = none;
          })
          when (target == paid) (settle p x)
          finish_event p row_id (Outcome.applied target)
          pure (WebhookResponse.applied target event_id)

  -- The dictionary of targets, then the state machine.
  abbrev pub advance :
      String → String → EventData → Payment → Option PaymentStatus → Action WebhookResponse
  advance row_id event_id d x none =
      finish_event p row_id ignored_unhandled_type >> pure (ignored event_id)
  advance row_id event_id d x (some target) =
      if not (can_transition x.status target)
      then reject row_id (rejected_transition x.status target) (app_error invalid_state_transition)
      else apply_transition row_id event_id d x target

  abbrev pub check_currency :
      String → EventData → Payment → Action WebhookResponse → Action WebhookResponse
  check_currency row_id d x rest =
      if not (get_or d.currency "" == x.currency)
      then reject row_id rejected_currency_mismatch (app_error payment_currency_mismatch)
      else rest

  -- `int(data.get("amount", -1))`; a value at which `int` raises leaves the event open.
  abbrev pub check_reported : String → ℤ → Payment → Action WebhookResponse → Action WebhookResponse
  check_reported row_id reported x rest =
      if not (reported == x.amount)
      then (do
        finish_event p row_id rejected_amount_mismatch
        record_change p (record {
          action = "payment.amount_mismatch";
          entity_type = "payment";
          entity_id = x.id;
          actor_id = none;
          before = some (("expected", number x.amount) ∷ []);
          after = some (("reported", number reported) ∷ []);
          ip = none;
        })
        raise payment_amount_mismatch)
      else rest

  abbrev pub check_amount :
      String → Amount → Payment → Action WebhookResponse → Action WebhookResponse
  check_amount row_id absent x rest = check_reported row_id (negsuc 0) x rest
  check_amount row_id (integer n) x rest = check_reported row_id n x rest
  check_amount row_id not_integer x rest = fail python_error

  -- What happens to a payment that was found.
  unfoldable pub process_payment :
      String → String → String → EventData → Payment → Action WebhookResponse
  process_payment row_id event_id event_type d x =
      let rest = advance row_id event_id d x (target_of event_type) in
      if event_type == "payment.succeeded"
      then check_amount row_id d.amount x (check_currency row_id d x rest)
      else rest

  abbrev pub process_found :
      String → String → String → EventData → Option Payment → Action WebhookResponse
  process_found row_id event_id event_type d none =
      reject row_id rejected_unknown_payment (app_error payment_not_found)
  process_found row_id event_id event_type d (some x) =
      process_payment row_id event_id event_type d x

  -- From the recorded event on; `none` stands for a lost race on the event's index.
  unfoldable pub process_recorded :
      String → String → EventData → Option String → Action WebhookResponse
  process_recorded event_id event_type d none = pure (duplicate event_id)
  process_recorded event_id event_type d (some row_id) =
      find_one p Collections.payments (λ x. x.id == get_or d.payment_id "")
      >>= process_found row_id event_id event_type d

  -- From the replay gate on.
  unfoldable pub process_signed : String → String → Payload → Action WebhookResponse
  process_signed event_id event_type payload = do
    raise_if (event_id == "") invalid_request
    already ← find_one p Collections.payment_events (is_event p.provider.name event_id)
    if is_some already then pure (duplicate event_id) else do
      row ←
          on_duplicate
            (record_event p event_id event_type true none payload >>= λ row_id. pure (some row_id))
            (pure none)
      process_recorded event_id event_type (get_or payload.event_data no_data) row

  -- The id under which an unsigned event is recorded.
  unfoldable pub unsigned_id : String → Action String
  unsigned_id event_id =
      if event_id == ""
      then (do fallback ← uuid4_hex p; pure ("unsigned_" ++ fallback))
      else pure event_id

  abbrev pub check_signature :
      String → String → Payload → Result (Unit {0}) → Action WebhookResponse
  check_signature event_id event_type payload (ok _) = process_signed event_id event_type payload
  check_signature event_id event_type payload (err (app_error e)) = do
    recorded_id ← unsigned_id event_id
    record_event p recorded_id event_type false (some rejected_signature) payload
    raise e
  check_signature event_id event_type payload (err e) = fail e

  -- `handle_webhook`
  unfoldable pub handle_webhook : String → String → Payload → Action WebhookResponse
  handle_webhook raw_body signature_header payload = do
    now ← utc_now p
    check_signature (get_or payload.id "") (get_or payload.event_type "") payload (
        verify_webhook_signature p raw_body signature_header p.settings.payment_webhook_secret
          p.settings.payment_webhook_tolerance_seconds (now / 1000000))
