-- ===== src/Payments/Approval.antt =====
-- What stands behind an applied event, in terms of the database before the call of `handle_webhook`.
use voltaris_mobility_backen.Prelude.{
  suc, ◌/◌, ◌≢◌, String, string_eq, ◌==◌, ==-eq, ==-ne, ◌≡◌, refl, sym, ◌∙◌, subst, Bool, true,
  false, get_or, Option, none, some, some, List,
}
use voltaris_mobility_backen.Prelude.Int.{int_eq}
use voltaris_mobility_backen.Core.Errors.{app_error, duplicate_key, python_error}
use voltaris_mobility_backen.Core.Platform.{Platform, IsQuiet}
use voltaris_mobility_backen.Core.Action.{Result, ok, err, State, ◌>>=◌, utc_now}
use voltaris_mobility_backen.Core.Keeps.{
  Keeps, Ignores, keeps_rules, Keeps-insert_ignored, Keeps-on_duplicate, Keeps-bind, Keeps-pure,
}
use voltaris_mobility_backen.Core.Returns.{
  Returns, IsQuiet-Stable, Returns-pure, Returns-fail, Returns-weaken, Returns-map, Returns-bind,
  Returns-after, Returns-raise_if, Returns-find_one,
}
use voltaris_mobility_backen.Core.Security.{verify_webhook_signature}
use voltaris_mobility_backen.Database.Mongo.{With, NoneMatch}
use voltaris_mobility_backen.Database.Collections
use voltaris_mobility_backen.Database.Collections.{Db}
use voltaris_mobility_backen.Payments.Models.{
  Payment, PaymentStatus, Payload, PaymentEvent, EventData, Outcome, WebhookResponse, applied,
  duplicate, status_eq,
}
use voltaris_mobility_backen.Payments.Events.{is_event, record_event}
use voltaris_mobility_backen.Payments.Webhook.{
  no_data, process_recorded, process_signed, check_signature, handle_webhook,
}
use voltaris_mobility_backen.Payments.Gates.{Passes, reject-Returns, process_payment-Returns}

module _ (p : Platform) (quiet : IsQuiet p) (payments : List Payment)
    (events : List PaymentEvent) where
  -- The payments, and the payments with the log of events, as they were before the call.
  abbrev SamePayments : Db → Type 0
  SamePayments db = db.payments ≡ payments

  abbrev SameRecords : Db → Type 0
  SameRecords db = (db.payments ≡ payments) × (db.payment_events ≡ events)

  -- What stands behind an answer, in terms of the database before the call.
  abbrev Approved : String → String → EventData → WebhookResponse → Type 0
  Approved event_id event_type d r =
      (target : PaymentStatus) (e : String)
      → r ≡ applied target e
      → (e ≡ event_id)
        × ((event_id == "") ≡ false)
        × NoneMatch (is_event p.provider.name event_id) events
        × ((x : Payment) × (rest : List Payment) × With x rest payments
            × (x.id ≡ get_or d.payment_id "")
            × Passes event_type d x target)

  process_recorded-Returns :
      (event_id event_type : String) (d : EventData) (row : Option String)
      → (event_id == "") ≡ false
      → NoneMatch (is_event p.provider.name event_id) events
      → Returns SamePayments
          (process_recorded p event_id event_type d row)
          (Approved event_id event_type d)
  unfolding process_recorded
  process_recorded-Returns event_id event_type d none named fresh =
      Returns-pure (duplicate event_id) (λ target e c. cc)
  process_recorded-Returns event_id event_type d (some row_id) named fresh =
      Returns-find_one p (IsQuiet-Stable SamePayments quiet) Collections.payments _ _
        (λ db x rest h w m.
          Returns-weaken _ (λ db h. tt)
            (Returns-map _
              (λ r a target e c.
                let (i, g) = a target e c in
                (i, named, fresh, (x, rest, subst (With x rest) h w, ==-eq _ _ m, g)))
              (process_payment-Returns p row_id event_id event_type d x)))
        (λ db h none_match. Returns-weaken _ (λ db h. tt) (reject-Returns p row_id _ _))

  events_ignored : Ignores SamePayments Collections.payment_events
  events_ignored = record { at = λ db ds h. h }

  record_event-Keeps :
      (event_id event_type : String) (valid : Bool) (outcome : Option Outcome) (payload : Payload)
      → Keeps SamePayments (record_event p event_id event_type valid outcome payload)
  unfolding record_event
  record_event-Keeps event_id event_type valid outcome payload =
      search (keeps_rules, Keeps-insert_ignored, IsQuiet-Stable, events_ignored)

  process_signed-Returns :
      (event_id event_type : String) (payload : Payload)
      → Returns SameRecords
          (process_signed p event_id event_type payload)
          (Approved event_id event_type (get_or payload.event_data no_data))
  unfolding process_signed
  process_signed-Returns event_id event_type payload = Returns-raise_if _ _ _ (λ named.
      Returns-find_one p (IsQuiet-Stable SameRecords quiet) Collections.payment_events _ _
        (λ db x rest h w m. Returns-pure (duplicate event_id) (λ target e c. cc))
        (λ db h none_match.
          Returns-weaken _ (λ db h. h.0)
            (Returns-bind _ _
              (Keeps-on_duplicate _ _
                (Keeps-bind _ _ (record_event-Keeps event_id event_type true none payload)
                  (λ row_id. Keeps-pure _))
                (Keeps-pure none))
              (λ row.
                process_recorded-Returns event_id event_type _ row named
                  (subst (NoneMatch (is_event p.provider.name event_id)) h.1 none_match)))))

  check_signature-Returns :
      (event_id event_type : String) (payload : Payload) (r : Result (Unit {0}))
      → Returns SameRecords (check_signature p event_id event_type payload r) (λ answer.
        (target : PaymentStatus) (e : String)
        → answer ≡ applied target e
        → (r ≡ ok tt)
          × (e ≡ event_id)
          × ((event_id == "") ≡ false)
          × NoneMatch (is_event p.provider.name event_id) events
          × ((x : Payment) × (rest : List Payment) × With x rest payments
              × (x.id ≡ get_or (get_or payload.event_data no_data).payment_id "")
              × Passes event_type (get_or payload.event_data no_data) x target))
  check_signature-Returns event_id event_type payload (ok u) =
      Returns-map _
        (λ answer a target e c.
          let (i, named, fresh, x) = a target e c in (refl, i, named, fresh, x))
        (process_signed-Returns event_id event_type payload)
  check_signature-Returns event_id event_type payload (err (app_error x)) =
      Returns-weaken _ (λ db h. tt)
        (Returns-after _ _ (λ _. Returns-after _ _ (λ _. Returns-fail (app_error x))))
  check_signature-Returns event_id event_type payload (err duplicate_key) =
      Returns-fail duplicate_key
  check_signature-Returns event_id event_type payload (err python_error) = Returns-fail python_error

-- On a database that no other request touches meanwhile, an event is applied to a payment only if
-- its signature is valid at the time of the call, it has an id that was not recorded before, its
-- type stands for the status, and the payment that it names is stored and may move there; and to
-- PAID only if it reports the stored amount and currency of that payment.
pub handle_webhook_applied :
    (p : Platform)
    → IsQuiet p
    → (raw_body signature_header : String) (payload : Payload) (s : State)
    → (target : PaymentStatus) (event_id : String)
    → (handle_webhook p raw_body signature_header payload s).0 ≡ ok (applied target event_id)
    → (verify_webhook_signature p raw_body signature_header p.settings.payment_webhook_secret
          p.settings.payment_webhook_tolerance_seconds
          (p.now s.calls / 1000000)
        ≡ ok tt)
      × (event_id ≡ get_or payload.id "")
      × (event_id ≢ "")
      × NoneMatch (is_event p.provider.name event_id) s.db.payment_events
      × ((x : Payment) × (rest : List Payment) × With x rest s.db.payments
          × (x.id ≡ get_or (get_or payload.event_data no_data).payment_id "")
          × Passes (get_or payload.event_type "") (get_or payload.event_data no_data) x target)
unfolding handle_webhook ◌>>=◌ utc_now
handle_webhook_applied p quiet raw_body signature_header payload s target event_id e =
    let (valid, i, named, fresh, found) =
      (check_signature-Returns p quiet s.db.payments s.db.payment_events (get_or payload.id "")
          (get_or payload.event_type "") payload _).at
        (record s { calls = suc s.calls }) (refl, refl) _ e target event_id refl in
    (
      valid,
      i,
      (λ q. ==-ne (get_or payload.id "") "" named (sym i ∙ q)),
      subst (λ n. NoneMatch (is_event p.provider.name n) s.db.payment_events) (sym i) fresh,
      found,
    )
