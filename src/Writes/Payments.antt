-- ===== src/Writes/Payments.antt =====
-- Every call of the payment service keeps a predicate that is closed under its atomic writes.
use voltaris_mobility_backen.Prelude.{
  ℕ, String, not, not-eq-false, ◌≡◌, Bool, false, Option, none, some,
}
use voltaris_mobility_backen.Core.Errors.{Failure, app_error, duplicate_key, python_error}
use voltaris_mobility_backen.Core.Platform.{Platform}
use voltaris_mobility_backen.Core.Action.{Action, Result, ok, err, update_one}
use voltaris_mobility_backen.Core.Keeps.{
  Keeps, Stable, keeps_rules, Keeps-insert_one, Keeps-update_one, Keeps-raise_if, Keeps-or_raise,
}
use voltaris_mobility_backen.Database.Collections
use voltaris_mobility_backen.Database.Collections.{Db}
use voltaris_mobility_backen.Commissions.Service.{Calculated, breakdown, raised}
use voltaris_mobility_backen.Vehicles.Models.{Vehicle}
use voltaris_mobility_backen.Orders.Models.{Order}
use voltaris_mobility_backen.Payments.Models.{
  Payment, PaymentStatus, Payload, EventData, Outcome, WebhookResponse, can_transition, Amount,
  absent, integer, not_integer,
}
use voltaris_mobility_backen.Payments.Events.{record_event, finish_event}
use voltaris_mobility_backen.Payments.Settlement.{
  audit_review, audit_recorded, book_commission, book_for, book_sale, settle,
}
use voltaris_mobility_backen.Payments.Webhook.{
  unchanged_payment, moved, reject, apply_transition, advance, check_currency, check_amount,
  process_payment, process_found, process_recorded, process_signed, unsigned_id, check_signature,
  handle_webhook,
}
use voltaris_mobility_backen.Payments.Checkout.{open_payment, create_checkout_session}
use voltaris_mobility_backen.Writes.Closed.{OrderWrites, PaymentWrites}
use voltaris_mobility_backen.Writes.Orders.{record_change-Keeps, transition-Keeps}

ruleset service_rules =
    (keeps_rules, Keeps-raise_if, Keeps-or_raise, record_change-Keeps, transition-Keeps)

module _ (p : Platform) {P : Db → Type 0} (stable : Stable p P) (orders : OrderWrites P)
    (writes : PaymentWrites P) where
  record_event-Keeps :
      (event_id event_type : String) (valid : Bool) (outcome : Option Outcome) (payload : Payload)
      → Keeps P (record_event p event_id event_type valid outcome payload)
  unfolding record_event
  record_event-Keeps event_id event_type valid outcome payload =
      search (service_rules, Keeps-insert_one, writes.logged) depth 12

  finish_event-Keeps :
      (row_id : String) (outcome : Outcome) → Keeps P (finish_event p row_id outcome)
  unfolding finish_event
  finish_event-Keeps row_id outcome = search (service_rules, Keeps-update_one, writes.finished)

  reject-Keeps :
      {A : Type 0} (row_id : String) (outcome : Outcome) (failure : Failure)
      → Keeps P (reject p {A = A} row_id outcome failure)
  unfolding reject
  reject-Keeps row_id outcome failure = search (service_rules, finish_event-Keeps)

  audit_review-Keeps : (o : Order) (split : Calculated) → Keeps P (audit_review p o split)
  unfolding audit_review
  audit_review-Keeps o (breakdown b) = search service_rules
  audit_review-Keeps o (raised reason) = search service_rules

  audit_recorded-Keeps : (o : Order) (split : Calculated) → Keeps P (audit_recorded p o split)
  unfolding audit_recorded
  audit_recorded-Keeps o (breakdown b) = search service_rules
  audit_recorded-Keeps o (raised reason) = search service_rules

  book_for-Keeps : (o : Order) (v : Option Vehicle) → Keeps P (book_for p o v)
  unfolding book_commission
  book_for-Keeps o none = search service_rules
  book_for-Keeps o (some v) =
      search
        (service_rules, Keeps-insert_one, writes.booked, audit_review-Keeps, audit_recorded-Keeps)
        depth 14

  book_sale-Keeps : (o : Option Order) → Keeps P (book_sale p o)
  book_sale-Keeps none = search service_rules
  book_sale-Keeps (some o) = search (service_rules, book_for-Keeps)

  settle-Keeps : (x : Payment) → Keeps P (settle p x)
  unfolding settle
  settle-Keeps x = search (service_rules, book_sale-Keeps) depth 8

  payment_moved-Keeps :
      (seen : Payment) (target : PaymentStatus) (now : ℕ) (transaction_id : Option String)
      → not (can_transition seen.status target) ≡ false
      → Keeps P (
          update_one p Collections.payments
            (unchanged_payment seen)
            (moved target now transaction_id))
  payment_moved-Keeps seen target now transaction_id legal =
      Keeps-update_one Collections.payments p stable (unchanged_payment seen)
        (moved target now transaction_id)
        (writes.moved_payment seen target now transaction_id
          (not-eq-false (can_transition seen.status target) legal))

  apply_transition-Keeps :
      (row_id event_id : String) (d : EventData) (x : Payment) (target : PaymentStatus)
      → not (can_transition x.status target) ≡ false
      → Keeps P (apply_transition p row_id event_id d x target)
  unfolding apply_transition
  apply_transition-Keeps row_id event_id d x target legal =
      search (service_rules, payment_moved-Keeps, settle-Keeps, finish_event-Keeps, reject-Keeps)
        depth 14

  advance-Keeps :
      (row_id event_id : String) (d : EventData) (x : Payment) (target : Option PaymentStatus)
      → Keeps P (advance p row_id event_id d x target)
  advance-Keeps row_id event_id d x none = search (service_rules, finish_event-Keeps)
  advance-Keeps row_id event_id d x (some target) =
      search (service_rules, reject-Keeps, apply_transition-Keeps)

  check_amount-Keeps :
      (row_id : String) (amount : Amount) (x : Payment) (rest : Action WebhookResponse)
      → Keeps P rest
      → Keeps P (check_amount p row_id amount x rest)
  check_amount-Keeps row_id absent x rest h = search (service_rules, finish_event-Keeps) depth 8
  check_amount-Keeps row_id (integer n) x rest h =
      search (service_rules, finish_event-Keeps) depth 8
  check_amount-Keeps row_id not_integer x rest h = search service_rules

  check_currency-Keeps :
      (row_id : String) (d : EventData) (x : Payment) (rest : Action WebhookResponse)
      → Keeps P rest
      → Keeps P (check_currency p row_id d x rest)
  check_currency-Keeps row_id d x rest h = search (service_rules, reject-Keeps)

  process_found-Keeps :
      (row_id event_id event_type : String) (d : EventData) (row : Option Payment)
      → Keeps P (process_found p row_id event_id event_type d row)
  unfolding process_payment
  process_found-Keeps row_id event_id event_type d none = search reject-Keeps
  process_found-Keeps row_id event_id event_type d (some x) =
      search (service_rules, check_amount-Keeps, check_currency-Keeps, advance-Keeps) depth 8

  process_recorded-Keeps :
      (event_id event_type : String) (d : EventData) (row : Option String)
      → Keeps P (process_recorded p event_id event_type d row)
  unfolding process_recorded
  process_recorded-Keeps event_id event_type d none = search service_rules
  process_recorded-Keeps event_id event_type d (some row_id) =
      search (service_rules, process_found-Keeps)

  process_signed-Keeps :
      (event_id event_type : String) (payload : Payload)
      → Keeps P (process_signed p event_id event_type payload)
  unfolding process_signed
  process_signed-Keeps event_id event_type payload =
      search (service_rules, record_event-Keeps, process_recorded-Keeps) depth 14

  check_signature-Keeps :
      (event_id event_type : String) (payload : Payload) (r : Result (Unit {0}))
      → Keeps P (check_signature p event_id event_type payload r)
  unfolding unsigned_id
  check_signature-Keeps event_id event_type payload (ok done) =
      process_signed-Keeps event_id event_type payload
  check_signature-Keeps event_id event_type payload (err (app_error e)) =
      search (service_rules, record_event-Keeps) depth 12
  check_signature-Keeps event_id event_type payload (err duplicate_key) = search service_rules
  check_signature-Keeps event_id event_type payload (err python_error) = search service_rules

  pub handle_webhook-Keeps :
      (raw_body signature_header : String) (payload : Payload)
      → Keeps P (handle_webhook p raw_body signature_header payload)
  unfolding handle_webhook
  handle_webhook-Keeps raw_body signature_header payload =
      search (service_rules, check_signature-Keeps)

  open_payment-Keeps :
      (o : Order) (customer_id customer_email : String) (existing : Option Payment)
      → Keeps P (open_payment p o customer_id customer_email existing)
  unfolding open_payment
  open_payment-Keeps o customer_id customer_email (some x) = search service_rules
  open_payment-Keeps o customer_id customer_email none =
      search (service_rules, Keeps-insert_one, Keeps-update_one, writes.opened, writes.attached)
        depth 20

  pub create_checkout_session-Keeps :
      (order_id customer_id customer_email : String)
      → Keeps P (create_checkout_session p order_id customer_id customer_email)
  unfolding create_checkout_session
  create_checkout_session-Keeps order_id customer_id customer_email =
      search (service_rules, open_payment-Keeps) depth 14
