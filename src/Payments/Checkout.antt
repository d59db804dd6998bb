-- ===== src/Payments/Checkout.antt =====
-- `PaymentService.create_checkout_session` and the customer's read of the payment state, of
-- app/modules/payments/service.py.
use voltaris_mobility_backen.Prelude.{
  ℕ, String, string_eq, ◌==◌, Bool, not, ◌&&◌, ◌||◌, Option, none, some, [], ◌∷◌,
}
use voltaris_mobility_backen.Prelude.Int.{ℤ}
use voltaris_mobility_backen.Core.Errors.{
  order_not_found, payment_already_processed, invalid_state_transition,
}
use voltaris_mobility_backen.Core.Platform.{Platform, CheckoutSession}
use voltaris_mobility_backen.Core.Action.{
  Action, pure, or_raise, ◌>>=◌, ◌>>◌, raise_if, when, uuid4_hex, utc_now, call, find_one,
  insert_one, update_one,
}
use voltaris_mobility_backen.Database.Collections
use voltaris_mobility_backen.Audit.Models.{text, number}
use voltaris_mobility_backen.Audit.Service.{record_change}
use voltaris_mobility_backen.Orders.Models.{Order, OrderStatus, status_eq}
use voltaris_mobility_backen.Orders.Documents.{has_id}
use voltaris_mobility_backen.Orders.Transitions.{transition}
use voltaris_mobility_backen.Payments.Models.{
  Payment, PaymentStatus, status_eq as payment_status_eq,
}

-- The response of a checkout: the payment's id and the provider's session.
pub record Checkout : Type 0 where
  pub payment_id : String
  pub session : CheckoutSession

-- The query for a payment of the order that is still in flight.
abbrev pub in_flight : String → Payment → Bool
in_flight order_id x =
    x.order_id == order_id
    && (x.status == PaymentStatus.pending || x.status == PaymentStatus.processing)

abbrev pub is_payable : Order → Bool
is_payable o = o.status == OrderStatus.pending || o.status == OrderStatus.payment_pending

module _ (p : Platform) where
  abbrev open_session : Order → ℤ → String → String → Action CheckoutSession
  open_session o amount currency customer_email =
      call p (λ n. p.provider.create_checkout_session n o.id amount currency customer_email)

  -- The document of a new payment: its amount and currency are the order's.
  abbrev new_payment : String → Order → String → CheckoutSession → ℕ → Payment
  new_payment payment_id o customer_id session now = record {
    id = payment_id;
    order_id = o.id;
    customer_id = customer_id;
    provider = p.provider.name;
    provider_transaction_id = some session.provider_transaction_id;
    amount = o.total;
    currency = o.currency;
    status = PaymentStatus.pending;
    version = 0;
    created_at = now;
    updated_at = now;
  }

  -- A payment in flight is reused, at its own amount.
  unfoldable pub open_payment : Order → String → String → Option Payment → Action Checkout
  open_payment o customer_id customer_email (some x) = do
    session ← open_session o x.amount x.currency customer_email
    pure (record { payment_id = x.id; session = session })
  open_payment o customer_id customer_email none = do
    payment_id ← uuid4_hex p
    session ← open_session o o.total o.currency customer_email
    now ← utc_now p
    insert_one p Collections.payments (new_payment payment_id o customer_id session now)
    when (o.status == OrderStatus.pending)
        (do transition p o.id OrderStatus.payment_pending (some customer_id) none; pure tt)
    update_one p Collections.orders (has_id o.id) (λ x. record x { payment_id = some payment_id })
    record_change p (record {
      action = "payment.session_created";
      entity_type = "payment";
      entity_id = payment_id;
      actor_id = some customer_id;
      before = none;
      after =
          some (
            ("order_id", text o.id) ∷ ("amount", number o.total) ∷ ("status", text "PENDING") ∷ []);
      ip = none;
    })
    pure (record { payment_id = payment_id; session = session })

  -- `create_checkout_session`
  unfoldable pub create_checkout_session : String → String → String → Action Checkout
  create_checkout_session order_id customer_id customer_email = do
    row ← find_one p Collections.orders (λ o. o.id == order_id && o.customer_id == customer_id)
    o ← or_raise row order_not_found
    raise_if (o.status == OrderStatus.paid) payment_already_processed
    raise_if (not (is_payable o)) invalid_state_transition
    existing ← find_one p Collections.payments (in_flight order_id)
    open_payment o customer_id customer_email existing
