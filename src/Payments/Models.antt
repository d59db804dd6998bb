-- ===== src/Payments/Models.antt =====
-- app/modules/payments/models.py: the payment state machine, the stored payment and the event log.
use voltaris_mobility_backen.Prelude.{
  ℕ, String, ◌≡◌, ◌↔◌, Eq, eqb, Bool, true, Option, List, [], ◌∷◌, contains, arith,
}
use voltaris_mobility_backen.Prelude.Int.{ℤ}

pub data PaymentStatus : Type 0 where
  pending processing paid failed cancelled refunded : PaymentStatus

abbrev pub status_value : PaymentStatus → String
status_value pending = "PENDING"
status_value processing = "PROCESSING"
status_value paid = "PAID"
status_value failed = "FAILED"
status_value cancelled = "CANCELLED"
status_value refunded = "REFUNDED"

abbrev pub index : PaymentStatus → ℕ
index pending = 0
index processing = 1
index paid = 2
index failed = 3
index cancelled = 4
index refunded = 5

pub status_beq_iff : (a b : PaymentStatus) → (eqb (index a) (index b) ≡ true) ↔ (a ≡ b)
status_beq_iff a b = ground arith

instance abbrev pub status_eq : Eq PaymentStatus
status_eq = record { beq = λ a b. eqb (index a) (index b); beq_iff = status_beq_iff }

unfoldable pub allowed_transitions : PaymentStatus → List PaymentStatus
allowed_transitions pending = processing ∷ paid ∷ failed ∷ cancelled ∷ []
allowed_transitions processing = paid ∷ failed ∷ cancelled ∷ []
allowed_transitions paid = refunded ∷ []
allowed_transitions failed = processing ∷ []
allowed_transitions cancelled = []
allowed_transitions refunded = []

unfoldable pub can_transition : PaymentStatus → PaymentStatus → Bool
unfolding allowed_transitions
can_transition current target = contains (allowed_transitions current) target

pub record Payment : Type 0 where
  pub id : String
  pub order_id : String
  pub customer_id : String
  pub provider : String
  pub provider_transaction_id : Option String
  pub amount : ℤ
  pub currency : String
  pub status : PaymentStatus
  pub version : ℕ
  pub created_at : ℕ
  pub updated_at : ℕ

-- `int(data.get("amount", -1))`: the key is missing, the value is one that `int` reads, or it is
-- one at which `int` raises.
pub data Amount : Type 0 where
  absent : Amount
  integer : ℤ → Amount
  not_integer : Amount

-- The fields of a decoded webhook body that the service reads; an outer `none` is a missing key.
pub record EventData : Type 0 where
  pub payment_id : Option String
  pub amount : Amount
  pub currency : Option String
  pub provider_transaction_id : Option (Option String)

pub record Payload : Type 0 where
  pub id : Option String
  pub event_type : Option String
  pub event_data : Option EventData

-- The outcome of an event, which the code writes as a sentence.
pub data Outcome : Type 0 where
  rejected_signature rejected_unknown_payment : Outcome
  rejected_amount_mismatch rejected_currency_mismatch : Outcome
  ignored_unhandled_type rejected_concurrent_modification : Outcome
  rejected_transition : PaymentStatus → PaymentStatus → Outcome
  applied : PaymentStatus → Outcome

pub record PaymentEvent : Type 0 where
  pub id : String
  pub provider : String
  pub provider_event_id : String
  pub event_type : String
  pub signature_valid : Bool
  pub processed : Bool
  pub outcome : Option Outcome
  pub raw_payload : Payload
  pub received_at : ℕ

-- The answer to the provider.
pub data WebhookResponse : Type 0 where
  duplicate ignored : String → WebhookResponse
  applied : PaymentStatus → String → WebhookResponse
