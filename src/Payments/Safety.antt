-- ===== src/Payments/Safety.antt =====
-- What the gates of `handle_webhook` leave alone in the collections of orders, vehicles, payments
-- and commissions.
use voltaris_mobility_backen.Prelude.{
  String, string_eq, ◌==◌, ==-eq, not-eq-false, ◌≡◌, refl, ap, ◌∙◌, ◌⊎◌, inl, inr, Bool, true,
  false, not, get_or, Option, none, some,
}
use voltaris_mobility_backen.Prelude.Int.{ℤ, negsuc, int_eq}
use voltaris_mobility_backen.Core.Errors.{Failure}
use voltaris_mobility_backen.Core.Platform.{Platform, IsQuiet}
use voltaris_mobility_backen.Core.Action.{Action}
use voltaris_mobility_backen.Core.Keeps.{
  Keeps, Stable, Ignores, keeps_rules, Keeps-insert_ignored, Keeps-update_ignored, Keeps-fail,
}
use voltaris_mobility_backen.Core.Ends.{Ends, Ends-keeps, Ends-if, Ends-anyway}
use voltaris_mobility_backen.Core.Returns.{IsQuiet-Stable}
use voltaris_mobility_backen.Database.Collections
use voltaris_mobility_backen.Database.Collections.{Db}
use voltaris_mobility_backen.Audit.Models.{Change}
use voltaris_mobility_backen.Audit.Service.{record_change}
use voltaris_mobility_backen.Payments.Models.{
  Payment, PaymentStatus, paid, Payload, EventData, Amount, absent, integer, not_integer, Outcome,
  WebhookResponse, can_transition, status_eq,
}
use voltaris_mobility_backen.Payments.Events.{record_event, finish_event}
use voltaris_mobility_backen.Payments.Webhook.{
  target_of, reject, advance, check_currency, check_reported, check_amount, process_payment,
  unsigned_id,
}
use voltaris_mobility_backen.Payments.Gates.{Passes, reported, paid_means_succeeded}

-- The collections that money and stock depend on are as they were.
pub record SameMoney (before db : Db) : Type 0 where
  pub vehicles : db.vehicles ≡ before.vehicles
  pub orders : db.orders ≡ before.orders
  pub payments : db.payments ≡ before.payments
  pub commissions : db.commissions ≡ before.commissions

module _ (p : Platform) (quiet : IsQuiet p) (before : Db) where
  abbrev pub Same : Db → Type 0
  Same db = SameMoney before db

  pub stable : Stable p Same
  stable = IsQuiet-Stable Same quiet

  events_ignored : Ignores Same Collections.payment_events
  events_ignored = record {
    at = λ db ds h. record {
      vehicles = h.vehicles;
      orders = h.orders;
      payments = h.payments;
      commissions = h.commissions;
    };
  }

  audit_ignored : Ignores Same Collections.audit_logs
  audit_ignored = record {
    at = λ db ds h. record {
      vehicles = h.vehicles;
      orders = h.orders;
      payments = h.payments;
      commissions = h.commissions;
    };
  }

  pub record_event-Keeps :
      (event_id event_type : String) (valid : Bool) (outcome : Option Outcome) (payload : Payload)
      → Keeps Same (record_event p event_id event_type valid outcome payload)
  unfolding record_event
  record_event-Keeps event_id event_type valid outcome payload =
      search (keeps_rules, Keeps-insert_ignored, stable, events_ignored)

  finish_event-Keeps :
      (row_id : String) (outcome : Outcome) → Keeps Same (finish_event p row_id outcome)
  unfolding finish_event
  finish_event-Keeps row_id outcome =
      search (keeps_rules, Keeps-update_ignored, stable, events_ignored)

  record_change-Keeps : (c : Change) → Keeps Same (record_change p c)
  unfolding record_change
  record_change-Keeps c = search (keeps_rules, Keeps-insert_ignored, stable, audit_ignored)

  pub reject-Keeps :
      {A : Type 0} (row_id : String) (outcome : Outcome) (failure : Failure)
      → Keeps {A = A} Same (reject p row_id outcome failure)
  unfolding reject
  reject-Keeps row_id outcome failure = search (keeps_rules, finish_event-Keeps)

  pub unsigned_id-Keeps : (event_id : String) → Keeps Same (unsigned_id p event_id)
  unfolding unsigned_id
  unsigned_id-Keeps event_id = search keeps_rules

  module _ (G : Type 0) where
    -- Nothing changed, or `G` holds.
    abbrev pub Unmoved : Db → Type 0
    Unmoved db = Same db ⊎ G

    pub unmoved : (db : Db) → Same db → Unmoved db
    unmoved db h = inl h

    advance-Ends :
        (row_id event_id event_type : String) (d : EventData) (x : Payment)
        (r : Option PaymentStatus)
        → ((target : PaymentStatus) → r ≡ some target → can_transition x.status target ≡ true → G)
        → Ends Same (advance p row_id event_id d x r) Unmoved
    advance-Ends row_id event_id event_type d x none pass =
        Ends-keeps _ unmoved (search (keeps_rules, finish_event-Keeps))
    advance-Ends row_id event_id event_type d x (some target) pass =
        Ends-if (not (can_transition x.status target)) _ _
          (λ illegal. Ends-keeps _ unmoved (reject-Keeps row_id _ _))
          (λ legal. Ends-anyway _ (λ db. inr (pass target refl (not-eq-false _ legal))))

    check_reported-Ends :
        (row_id : String) (n : ℤ) (x : Payment) (rest : Action WebhookResponse)
        → (n ≡ x.amount → Ends Same rest Unmoved)
        → Ends Same (check_reported p row_id n x rest) Unmoved
    check_reported-Ends row_id n x rest h =
        Ends-if (not (n == x.amount)) _ _
          (λ differs.
            Ends-keeps _ unmoved (search (keeps_rules, finish_event-Keeps, record_change-Keeps)))
          (λ same. h (==-eq _ _ (not-eq-false _ same)))

    check_amount-Ends :
        (row_id : String) (amount : Amount) (x : Payment) (rest : Action WebhookResponse)
        → (reported amount ≡ some x.amount → Ends Same rest Unmoved)
        → Ends Same (check_amount p row_id amount x rest) Unmoved
    check_amount-Ends row_id absent x rest h =
        check_reported-Ends row_id (negsuc 0) x rest (λ e. h (ap some e))
    check_amount-Ends row_id (integer n) x rest h =
        check_reported-Ends row_id n x rest (λ e. h (ap some e))
    check_amount-Ends row_id not_integer x rest h = Ends-keeps _ unmoved (Keeps-fail _)

    check_currency-Ends :
        (row_id : String) (d : EventData) (x : Payment) (rest : Action WebhookResponse)
        → (get_or d.currency "" ≡ x.currency → Ends Same rest Unmoved)
        → Ends Same (check_currency p row_id d x rest) Unmoved
    check_currency-Ends row_id d x rest h =
        Ends-if (not (get_or d.currency "" == x.currency)) _ _
          (λ differs. Ends-keeps _ unmoved (reject-Keeps row_id _ _))
          (λ same. h (==-eq _ _ (not-eq-false _ same)))

    -- The gates of a payment that was found: money moves only past them.
    pub process_payment-Ends :
        (row_id event_id event_type : String) (d : EventData) (x : Payment)
        → ((target : PaymentStatus) → Passes event_type d x target → G)
        → Ends Same (process_payment p row_id event_id event_type d x) Unmoved
    unfolding process_payment
    process_payment-Ends row_id event_id event_type d x pass =
        Ends-if (event_type == "payment.succeeded") _ _
          (λ succeeded. check_amount-Ends row_id d.amount x _ (λ amount.
            check_currency-Ends row_id d x _ (λ currency.
              advance-Ends row_id event_id event_type d x (target_of event_type) (λ target e legal.
                pass target (record {
                  targeted = e;
                  legal = legal;
                  amount = λ _. amount;
                  currency = λ _. currency;
                })))))
          (λ other.
            advance-Ends row_id event_id event_type d x (target_of event_type) (λ target e legal.
              pass target (record {
                targeted = e;
                legal = legal;
                amount = λ q. absurd (unpaid target e other q);
                currency = λ q. absurd (unpaid target e other q);
              })))
      where
        unpaid :
            (target : PaymentStatus)
            → target_of event_type ≡ some target
            → (event_type == "payment.succeeded") ≡ false
            → ¬ (target ≡ paid)
        unpaid target e other q = cc (other, paid_means_succeeded event_type (e ∙ ap some q))
