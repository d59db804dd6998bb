-- ===== src/Payments/Unmoved.antt =====
-- What `handle_webhook` leaves alone, however the call ends.
use voltaris_mobility_backen.Prelude.{
  suc, ◌/◌, String, string_eq, ◌==◌, ==-eq, ==-ne, ◌≡◌, ◌≢◌, refl, subst, ◌⊎◌, inl, true, false,
  get_or, Option, none, some, List,
}
use voltaris_mobility_backen.Prelude.Int.{int_eq}
use voltaris_mobility_backen.Core.Errors.{app_error, duplicate_key, python_error}
use voltaris_mobility_backen.Core.Platform.{Platform, IsQuiet}
use voltaris_mobility_backen.Core.Action.{Result, ok, err, State, utc_now, ◌>>=◌}
use voltaris_mobility_backen.Core.Keeps.{Keeps-on_duplicate, Keeps-bind, Keeps-pure, Keeps-fail}
use voltaris_mobility_backen.Core.Ends.{
  Ends, Ends-keeps, Ends-weaken, Ends-bind, Ends-raise_if, Ends-find_one,
}
use voltaris_mobility_backen.Core.Returns.{IsQuiet-Stable}
use voltaris_mobility_backen.Core.Security.{verify_webhook_signature}
use voltaris_mobility_backen.Database.Mongo.{With, NoneMatch}
use voltaris_mobility_backen.Database.Collections
use voltaris_mobility_backen.Database.Collections.{Db}
use voltaris_mobility_backen.Payments.Models.{
  Payment, PaymentStatus, Payload, EventData, rejected_signature, status_eq,
}
use voltaris_mobility_backen.Payments.Events.{is_event}
use voltaris_mobility_backen.Payments.Webhook.{
  no_data, process_recorded, process_signed, check_signature, handle_webhook,
}
use voltaris_mobility_backen.Payments.Gates.{Passes}
use voltaris_mobility_backen.Payments.Safety.{
  SameMoney, Same, stable, record_event-Keeps, unsigned_id-Keeps, reject-Keeps, Unmoved, unmoved,
  process_payment-Ends,
}

-- What must hold for an event to move money, in terms of the state before the call.
pub record IsApproved (p : Platform) (raw_body signature_header : String) (payload : Payload)
    (s : State) : Type 0 where
  pub valid :
      verify_webhook_signature p raw_body signature_header p.settings.payment_webhook_secret
        p.settings.payment_webhook_tolerance_seconds
        (p.now s.calls / 1000000)
      ≡ ok tt
  pub named : get_or payload.id "" ≢ ""
  pub fresh : NoneMatch (is_event p.provider.name (get_or payload.id "")) s.db.payment_events
  pub target : PaymentStatus
  pub payment : Payment
  pub rest : List Payment
  pub stored : With payment rest s.db.payments
  pub meant : payment.id ≡ get_or (get_or payload.event_data no_data).payment_id ""
  pub passes :
      Passes (get_or payload.event_type "") (get_or payload.event_data no_data) payment target

module _ (p : Platform) (quiet : IsQuiet p) (before : Db) (G : Type 0) where
  abbrev SameLog : Db → Type 0
  SameLog db = SameMoney before db × (db.payment_events ≡ before.payment_events)

  abbrev Moves : EventData → String → Type 0
  Moves d event_type =
      (target : PaymentStatus) (x : Payment) (rest : List Payment)
      → With x rest before.payments
      → x.id ≡ get_or d.payment_id ""
      → Passes event_type d x target
      → G

  process_recorded-Ends :
      (event_id event_type : String) (d : EventData) (row : Option String)
      → Moves d event_type
      → Ends
          (Same p quiet before)
          (process_recorded p event_id event_type d row)
          (Unmoved p quiet before G)
  unfolding process_recorded
  process_recorded-Ends event_id event_type d none pass =
      Ends-keeps _ (unmoved p quiet before G) (Keeps-pure _)
  process_recorded-Ends event_id event_type d (some row_id) pass =
      Ends-find_one p (stable p quiet before) Collections.payments _ _
        (λ db x rest h w m.
          process_payment-Ends p quiet before G row_id event_id event_type d x
            (λ target. pass target x rest (subst (With x rest) h.payments w) (==-eq _ _ m)))
        (λ db h none_match.
          Ends-keeps _ (unmoved p quiet before G) (reject-Keeps p quiet before row_id _ _))

  process_signed-Ends :
      (event_id event_type : String) (payload : Payload)
      → ((event_id == "") ≡ false
          → NoneMatch (is_event p.provider.name event_id) before.payment_events
          → Moves (get_or payload.event_data no_data) event_type)
      → Ends SameLog (process_signed p event_id event_type payload) (Unmoved p quiet before G)
  unfolding process_signed
  process_signed-Ends event_id event_type payload pass =
      Ends-raise_if _ _ _ (λ db h. inl h.0)
        (λ named.
          Ends-find_one p (IsQuiet-Stable SameLog quiet) Collections.payment_events _ _
            (λ db x rest h w m. Ends-keeps _ (λ db h. inl h.0) (Keeps-pure _))
            (λ db h none_match.
              Ends-weaken _ (λ db h. h.0)
                (Ends-bind (unmoved p quiet before G) _ _
                  (Keeps-on_duplicate _ _
                    (Keeps-bind _ _
                      (record_event-Keeps p quiet before event_id event_type true none payload)
                      (λ row_id. Keeps-pure _))
                    (Keeps-pure none))
                  (λ row. process_recorded-Ends event_id event_type _ row (
                    pass named
                      (subst (NoneMatch (is_event p.provider.name event_id)) h.1 none_match))))))

  check_signature-Ends :
      (event_id event_type : String) (payload : Payload) (r : Result (Unit {0}))
      → (r ≡ ok tt
          → (event_id == "") ≡ false
          → NoneMatch (is_event p.provider.name event_id) before.payment_events
          → Moves (get_or payload.event_data no_data) event_type)
      → Ends SameLog (check_signature p event_id event_type payload r) (Unmoved p quiet before G)
  check_signature-Ends event_id event_type payload (ok u) pass =
      process_signed-Ends event_id event_type payload (pass refl)
  check_signature-Ends event_id event_type payload (err (app_error x)) pass =
      Ends-weaken _ (λ db h. h.0)
        (Ends-keeps _ (unmoved p quiet before G) (
          Keeps-bind _ _ (unsigned_id-Keeps p quiet before event_id) (λ recorded_id.
            Keeps-bind _ _
              (record_event-Keeps p quiet before recorded_id event_type false
                (some rejected_signature) payload)
              (λ row_id. Keeps-fail (app_error x)))))
  check_signature-Ends event_id event_type payload (err duplicate_key) pass =
      Ends-weaken _ (λ db h. h.0)
        (Ends-keeps _ (unmoved p quiet before G) (Keeps-fail duplicate_key))
  check_signature-Ends event_id event_type payload (err python_error) pass =
      Ends-weaken _ (λ db h. h.0)
        (Ends-keeps _ (unmoved p quiet before G) (Keeps-fail python_error))

-- On a database that no other request touches meanwhile, and however the call ends, by an answer
-- or by an error at any point: either no order, vehicle, payment or commission has changed, or the
-- signature was valid, the event had an id that was not recorded before, and the payment that it
-- names was stored and passes the gates of amount, currency and status.
pub handle_webhook_safe :
    (p : Platform)
    → IsQuiet p
    → (raw_body signature_header : String) (payload : Payload) (s : State)
    → SameMoney s.db (handle_webhook p raw_body signature_header payload s).1.db
      ⊎ IsApproved p raw_body signature_header payload s
unfolding handle_webhook ◌>>=◌ utc_now
handle_webhook_safe p quiet raw_body signature_header payload s =
    (check_signature-Ends p quiet s.db (IsApproved p raw_body signature_header payload s)
        (get_or payload.id "") (get_or payload.event_type "") payload _
        (λ valid named fresh target x rest stored meant passes. record {
          valid = valid;
          named = ==-ne _ _ named;
          fresh = fresh;
          target = target;
          payment = x;
          rest = rest;
          stored = stored;
          meant = meant;
          passes = passes;
        })).at
      (record s { calls = suc s.calls })
      (record { vehicles = refl; orders = refl; payments = refl; commissions = refl }, refl)
