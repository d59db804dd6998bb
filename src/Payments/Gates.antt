-- ===== src/Payments/Gates.antt =====
-- The gates of `handle_webhook`: what must hold for an event to be applied to a payment.
use voltaris_mobility_backen.Prelude.{
  String, string_eq, ◌==◌, ==-eq, not-eq-false, ◌≡◌, refl, ap, ◌∙◌, subst, true, not, get_or,
  Option, none, some, some, arith,
}
use voltaris_mobility_backen.Prelude.Int.{ℤ, negsuc, int_eq}
use voltaris_mobility_backen.Core.Errors.{Failure}
use voltaris_mobility_backen.Core.Platform.{Platform}
use voltaris_mobility_backen.Core.Action.{Action}
use voltaris_mobility_backen.Core.Returns.{
  Returns, Anything, Returns-pure, Returns-fail, Returns-if, Returns-map, Returns-after,
}
use voltaris_mobility_backen.Payments.Models.{
  Payment, PaymentStatus, paid, EventData, Amount, absent, integer, not_integer, Outcome,
  WebhookResponse, applied, ignored, can_transition, status_eq,
}
use voltaris_mobility_backen.Payments.Webhook.{
  target_of, reject, apply_transition, advance, check_currency, check_reported, check_amount,
  process_payment,
}

-- The amount that an event reports; a missing one counts as -1, and one that is no number as none.
abbrev pub reported : Amount → Option ℤ
reported absent = some (negsuc 0)
reported (integer n) = some n
reported not_integer = none

-- An event that may move the payment `x` to `target`.
pub record Passes (event_type : String) (d : EventData) (x : Payment) (target : PaymentStatus)
    : Type 0 where
  pub targeted : target_of event_type ≡ some target
  pub legal : can_transition x.status target ≡ true
  pub amount : target ≡ paid → reported d.amount ≡ some x.amount
  pub currency : target ≡ paid → get_or d.currency "" ≡ x.currency

-- What stands behind an answer: if it says that the event was applied, the event passes.
abbrev Applied : String → String → EventData → Payment → WebhookResponse → Type 0
Applied event_id event_type d x r =
    (target : PaymentStatus) (e : String)
    → r ≡ applied target e
    → (e ≡ event_id) × Passes event_type d x target

-- Only one type of event leads to PAID.
pub paid_means_succeeded :
    (event_type : String)
    → target_of event_type ≡ some paid
    → (event_type == "payment.succeeded") ≡ true
unfolding target_of
paid_means_succeeded event_type h = ground arith

module _ (p : Platform) where
  pub reject-Returns :
      {A : Type 0} {Q : A → Type 0} (row_id : String) (outcome : Outcome) (failure : Failure)
      → Returns Anything (reject p row_id outcome failure) Q
  unfolding reject
  reject-Returns row_id outcome failure = Returns-after _ _ (λ _. Returns-fail failure)

  pub apply_transition-Returns :
      (row_id event_id : String) (d : EventData) (x : Payment) (target : PaymentStatus)
      → Returns Anything
          (apply_transition p row_id event_id d x target)
          (λ r. r ≡ applied target event_id)
  unfolding apply_transition
  apply_transition-Returns row_id event_id d x target =
      search (Returns-after, Returns-if, reject-Returns, Returns-pure) depth 12

  -- Every change to the payments comes through here, with the gates passed.
  pub advance-Returns :
      (row_id event_id event_type : String) (d : EventData) (x : Payment) (r : Option PaymentStatus)
      → target_of event_type ≡ r
      → (r ≡ some paid → (reported d.amount ≡ some x.amount) × (get_or d.currency "" ≡ x.currency))
      → Returns Anything (advance p row_id event_id d x r) (Applied event_id event_type d x)
  advance-Returns row_id event_id event_type d x none e g =
      Returns-after _ _ (λ _. Returns-pure (ignored event_id) (λ target i c. cc))
  advance-Returns row_id event_id event_type d x (some t) e g =
      Returns-if (not (can_transition x.status t)) _ _ (λ illegal. reject-Returns row_id _ _)
        (λ legal.
          Returns-map _ (λ r a target i c. passes r a target i c (not-eq-false _ legal))
            (apply_transition-Returns row_id event_id d x t))
    where
      passes :
          (r : WebhookResponse)
          → r ≡ applied t event_id
          → (target : PaymentStatus) (i : String) → r ≡ applied target i
          → can_transition x.status t ≡ true
          → (i ≡ event_id) × Passes event_type d x target
      passes r a target i c legal =
          let same : t ≡ target = cc in
          (
            cc,
            record {
              targeted = e ∙ ap some same;
              legal = subst (λ u. can_transition x.status u ≡ true) same legal;
              amount = λ q. (g (ap some (same ∙ q))).0;
              currency = λ q. (g (ap some (same ∙ q))).1;
            },
          )

  check_reported-Returns :
      {Q : WebhookResponse → Type 0} (row_id : String) (n : ℤ) (x : Payment)
      (rest : Action WebhookResponse)
      → (n ≡ x.amount → Returns Anything rest Q)
      → Returns Anything (check_reported p row_id n x rest) Q
  check_reported-Returns row_id n x rest h =
      Returns-if (not (n == x.amount)) _ _
        (λ differs. Returns-after _ _ (λ _. Returns-after _ _ (λ _. Returns-fail _)))
        (λ same. h (==-eq _ _ (not-eq-false _ same)))

  pub check_amount-Returns :
      {Q : WebhookResponse → Type 0} (row_id : String) (amount : Amount) (x : Payment)
      (rest : Action WebhookResponse)
      → (reported amount ≡ some x.amount → Returns Anything rest Q)
      → Returns Anything (check_amount p row_id amount x rest) Q
  check_amount-Returns row_id absent x rest h =
      check_reported-Returns row_id (negsuc 0) x rest (λ e. h (ap some e))
  check_amount-Returns row_id (integer n) x rest h =
      check_reported-Returns row_id n x rest (λ e. h (ap some e))
  check_amount-Returns row_id not_integer x rest h = Returns-fail _

  pub check_currency-Returns :
      {Q : WebhookResponse → Type 0} (row_id : String) (d : EventData) (x : Payment)
      (rest : Action WebhookResponse)
      → (get_or d.currency "" ≡ x.currency → Returns Anything rest Q)
      → Returns Anything (check_currency p row_id d x rest) Q
  check_currency-Returns row_id d x rest h =
      Returns-if (not (get_or d.currency "" == x.currency)) _ _
        (λ differs. reject-Returns row_id _ _) (λ same. h (==-eq _ _ (not-eq-false _ same)))

  pub process_payment-Returns :
      (row_id event_id event_type : String) (d : EventData) (x : Payment)
      → Returns Anything
          (process_payment p row_id event_id event_type d x)
          (Applied event_id event_type d x)
  unfolding process_payment
  process_payment-Returns row_id event_id event_type d x =
      Returns-if (event_type == "payment.succeeded") _ _
        (λ succeeded. check_amount-Returns row_id d.amount x _ (λ amount.
          check_currency-Returns row_id d x _ (λ currency.
            advance-Returns row_id event_id event_type d x (target_of event_type) refl
              (λ _. (amount, currency)))))
        (λ other.
          advance-Returns row_id event_id event_type d x (target_of event_type) refl
            (λ e. absurd (cc (other, paid_means_succeeded event_type e))))
