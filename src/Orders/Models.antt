-- ===== src/Orders/Models.antt =====
-- app/modules/orders/models.py: the order state machine and the stored order.
use voltaris_mobility_backen.Prelude.{
  ℕ, String, ◌≡◌, ◌↔◌, Eq, eqb, Bool, true, Option, List, [], ◌∷◌, contains, arith,
}
use voltaris_mobility_backen.Prelude.Int.{ℤ}

pub data OrderStatus : Type 0 where
  pending payment_pending paid processing completed cancelled refunded : OrderStatus

abbrev pub status_value : OrderStatus → String
status_value pending = "PENDING"
status_value payment_pending = "PAYMENT_PENDING"
status_value paid = "PAID"
status_value processing = "PROCESSING"
status_value completed = "COMPLETED"
status_value cancelled = "CANCELLED"
status_value refunded = "REFUNDED"

abbrev pub index : OrderStatus → ℕ
index pending = 0
index payment_pending = 1
index paid = 2
index processing = 3
index completed = 4
index cancelled = 5
index refunded = 6

pub status_beq_iff : (a b : OrderStatus) → (eqb (index a) (index b) ≡ true) ↔ (a ≡ b)
status_beq_iff a b = ground arith

instance abbrev pub status_eq : Eq OrderStatus
status_eq = record { beq = λ a b. eqb (index a) (index b); beq_iff = status_beq_iff }

pub data OrderKind : Type 0 where
  purchase rental reservation : OrderKind

abbrev pub kind_value : OrderKind → String
kind_value purchase = "purchase"
kind_value rental = "rental"
kind_value reservation = "reservation"

unfoldable pub allowed_transitions : OrderStatus → List OrderStatus
allowed_transitions pending = payment_pending ∷ cancelled ∷ []
allowed_transitions payment_pending = paid ∷ cancelled ∷ []
allowed_transitions paid = processing ∷ refunded ∷ []
allowed_transitions processing = completed ∷ refunded ∷ []
allowed_transitions completed = refunded ∷ []
allowed_transitions cancelled = []
allowed_transitions refunded = []

abbrev pub active_order_statuses : List OrderStatus
active_order_statuses = pending ∷ payment_pending ∷ paid ∷ processing ∷ []

unfoldable pub can_transition : OrderStatus → OrderStatus → Bool
unfolding allowed_transitions
can_transition current target = contains (allowed_transitions current) target

pub record OrderLine : Type 0 where
  pub label : String
  pub amount : ℤ

pub record Order : Type 0 where
  pub id : String
  pub reference : String
  pub customer_id : String
  pub vehicle_id : String
  pub vehicle_slug : String
  pub vehicle_title : String
  pub kind : OrderKind
  pub lines : List OrderLine
  pub total : ℤ
  pub currency : String
  pub status : OrderStatus
  pub payment_id : Option String
  pub version : ℕ
  pub created_at : ℕ
  pub updated_at : ℕ

-- The body of an order in a response (`OrderService._serialise`). The vehicle's part is flat.
pub record OrderResponse : Type 0 where
  pub id : String
  pub reference : String
  pub vehicle_id : String
  pub vehicle_slug : String
  pub vehicle_title : String
  pub kind : OrderKind
  pub status : OrderStatus
  pub lines : List OrderLine
  pub total : ℤ
  pub currency : String
  pub created_at : ℕ

-- What `create_order` fingerprints of a request.
pub record RequestPayload : Type 0 where
  pub vehicle_id : String
  pub kind : OrderKind
  pub rental_days : Option ℤ

-- A document of the idempotency keys.
pub record IdempotencyKey : Type 0 where
  pub id : String
  pub user_id : String
  pub endpoint : String
  pub key : String
  pub fingerprint : String
  pub response : Option OrderResponse
  pub created_at : ℕ
  pub expires_at : ℕ
