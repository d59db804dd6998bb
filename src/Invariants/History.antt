-- ===== src/Invariants/History.antt =====
-- The history that a stored order or payment has behind it, read off its status and its version.
use voltaris_mobility_backen.Prelude.{
  ℕ, zero, suc, ◌+◌, ◌≤◌, String, ◌≡◌, refl, ap, ◌∙◌, sym, Option, List, true, ◌==◌, string_eq,
  nat_eq, ==-eq, and-true, subst, All, arith,
}
use mathlib.Core.Path.{subst₂}
use voltaris_mobility_backen.Core.Platform.{Platform}
use voltaris_mobility_backen.Core.Action.{State}
use voltaris_mobility_backen.Core.Keeps.{Stable}
use voltaris_mobility_backen.System.{Request, serve, serve-keeps}
use voltaris_mobility_backen.Database.Collections.{Db}
use voltaris_mobility_backen.Database.Bags.{All-take, All-put, All-replace}
use voltaris_mobility_backen.Orders.Models as OrderModels
use voltaris_mobility_backen.Orders.Models.{Order, OrderStatus, status_eq}
use voltaris_mobility_backen.Orders.Documents.{unchanged_order, to_status}
use voltaris_mobility_backen.Payments.Models as PaymentModels
use voltaris_mobility_backen.Payments.Models.{
  Payment, PaymentStatus, status_eq as payment_status_eq,
}
use voltaris_mobility_backen.Payments.Webhook.{unchanged_payment, moved}
use voltaris_mobility_backen.Writes.Closed.{OrderWrites, PaymentWrites}

-- `OrderPath s n`: the status is reached from PENDING by exactly `n` legal transitions.
pub data OrderPath : OrderStatus → ℕ → Type 0 where
  placed : OrderPath OrderStatus.pending zero
  step :
      {s : OrderStatus} {n : ℕ} (t : OrderStatus)
      → OrderPath s n
      → OrderModels.can_transition s t ≡ true
      → OrderPath t (suc n)

-- `PaymentPath s n c`: by exactly `n` legal transitions, of which `c` entered PAID.
abbrev captures : PaymentStatus → ℕ → ℕ
captures PaymentStatus.paid c = suc c
captures _ c = c

pub data PaymentPath : PaymentStatus → ℕ → ℕ → Type 0 where
  opened : PaymentPath PaymentStatus.pending zero zero
  step :
      {s : PaymentStatus} {n c : ℕ} (t : PaymentStatus)
      → PaymentPath s n c
      → PaymentModels.can_transition s t ≡ true
      → PaymentPath t (suc n) (captures t c)

-- The steps of the longest path to a status.
abbrev pub depth : OrderStatus → ℕ
depth OrderStatus.pending = 0
depth OrderStatus.payment_pending = 1
depth OrderStatus.paid = 2
depth OrderStatus.processing = 3
depth OrderStatus.completed = 4
depth OrderStatus.cancelled = 2
depth OrderStatus.refunded = 5

depth-step : (s t : OrderStatus) → OrderModels.can_transition s t ≡ true → depth s + 1 ≤ depth t
unfolding OrderModels.can_transition
depth-step s t h = ground arith

-- The order machine has no cycle: a status is reached within its depth, so within five steps.
pub OrderPath-le : {s : OrderStatus} {n : ℕ} → OrderPath s n → n ≤ depth s
OrderPath-le placed = omega arith
OrderPath-le (step {s = s} t path legal) = omega (arith, OrderPath-le path, depth-step s t legal)

abbrev pub captured : PaymentStatus → ℕ
captured PaymentStatus.paid = 1
captured PaymentStatus.refunded = 1
captured _ = 0

captured-step :
    (s t : PaymentStatus)
    → PaymentModels.can_transition s t ≡ true
    → captures t (captured s) ≡ captured t
unfolding PaymentModels.can_transition
captured-step s t h = ground arith

-- A payment was captured once if it is PAID or REFUNDED, and never otherwise.
pub PaymentPath-captured : {s : PaymentStatus} {n c : ℕ} → PaymentPath s n c → c ≡ captured s
PaymentPath-captured opened = refl
PaymentPath-captured (step {s = s} t path legal) =
    ap (captures t) (PaymentPath-captured path) ∙ captured-step s t legal

abbrev pub HasOrderHistory : Order → Type 0
HasOrderHistory o = OrderPath o.status o.version

abbrev pub HasPaymentHistory : Payment → Type 0
HasPaymentHistory x = PaymentPath x.status x.version (captured x.status)

-- Every stored order and payment has a legal history of as many steps as its version counts.
pub record HasHistory (db : Db) : Type 0 where
  pub orders : All HasOrderHistory db.orders
  pub payments : All HasPaymentHistory db.payments

same_order_status : (seen o : Order) → unchanged_order seen o ≡ true → o.status ≡ seen.status
same_order_status seen o m =
    ==-eq o.status seen.status
      (and-true (o.id == seen.id) _ (and-true _ (o.version == seen.version) m).0).1

-- The status that was checked is the status that is replaced.
pub still_legal :
    (seen o : Order) (target : OrderStatus)
    → unchanged_order seen o ≡ true
    → OrderModels.can_transition seen.status target ≡ true
    → OrderModels.can_transition o.status target ≡ true
still_legal seen o target m legal =
    subst (λ s. OrderModels.can_transition s target ≡ true) (sym (same_order_status seen o m)) legal

same_payment_status : (seen x : Payment) → unchanged_payment seen x ≡ true → x.status ≡ seen.status
same_payment_status seen x m =
    ==-eq x.status seen.status
      (and-true (x.id == seen.id) _ (and-true _ (x.version == seen.version) m).0).1

order_step :
    (seen o o' : Order) (target : OrderStatus) (now : ℕ)
    → OrderModels.can_transition seen.status target ≡ true
    → o' ≡ to_status target now o
    → unchanged_order seen o ≡ true
    → HasOrderHistory o
    → HasOrderHistory o'
order_step seen o o' target now legal e m h =
    subst HasOrderHistory (sym e) (OrderPath.step target h (still_legal seen o target m legal))

payment_step :
    (seen x x' : Payment) (target : PaymentStatus) (now : ℕ) (transaction_id : Option String)
    → PaymentModels.can_transition seen.status target ≡ true
    → x' ≡ moved target now transaction_id x
    → unchanged_payment seen x ≡ true
    → HasPaymentHistory x
    → HasPaymentHistory x'
payment_step seen x x' target now transaction_id legal e m h =
    let legal' : PaymentModels.can_transition x.status target ≡ true =
      subst (λ s. PaymentModels.can_transition s target ≡ true) (sym (same_payment_status seen x m))
        legal in
    subst HasPaymentHistory (sym e) (
      subst (λ c. PaymentPath target (suc x.version) c) (captured-step x.status target legal')
        (PaymentPath.step target h legal'))

new_payment_history :
    (x : Payment) → x.status ≡ PaymentStatus.pending → x.version ≡ 0 → HasPaymentHistory x
new_payment_history x s v = rw (s, v) PaymentPath.opened

order_writes : OrderWrites HasHistory
order_writes = record {
  placed = λ o s v db ds h none_match w. record {
    orders = All-put HasOrderHistory w (subst₂ OrderPath (sym s) (sym v) OrderPath.placed) h.orders;
    payments = h.payments;
  };
  taken_back = λ order_id db d rest h w m. record {
    orders = (All-take HasOrderHistory w h.orders).1;
    payments = h.payments;
  };
  moved_order = λ seen target now legal db d d' rest ds h e w m v. record {
    orders = All-replace HasOrderHistory w v h.orders (order_step seen d d' target now legal e m);
    payments = h.payments;
  };
  held = λ vehicle_id now db d d' rest ds h e w m v. record {
    orders = h.orders;
    payments = h.payments;
  };
  released = λ vehicle_id now db d d' rest ds h e w m v. record {
    orders = h.orders;
    payments = h.payments;
  };
  sold_off = λ vehicle_id now db d d' rest ds h e w m v. record {
    orders = h.orders;
    payments = h.payments;
  };
  claimed = λ row db ds h none_match w. record { orders = h.orders; payments = h.payments };
  completed = λ user_id endpoint key response db d d' rest ds h e w m v. record {
    orders = h.orders;
    payments = h.payments;
  };
  audited = λ entry db ds h none_match w. record { orders = h.orders; payments = h.payments };
}

payment_writes : PaymentWrites HasHistory
payment_writes = record {
  opened = λ x s v db ds h none_match w. record {
    orders = h.orders;
    payments = All-put HasPaymentHistory w (new_payment_history x s v) h.payments;
  };
  attached = λ order_id payment_id db d d' rest ds h e w m v. record {
    orders = All-replace HasOrderHistory w v h.orders (λ g. subst HasOrderHistory (sym e) g);
    payments = h.payments;
  };
  moved_payment = λ seen target now transaction_id legal db d d' rest ds h e w m v. record {
    orders = h.orders;
    payments =
        All-replace HasPaymentHistory w v h.payments
          (payment_step seen d d' target now transaction_id legal e m);
  };
  logged = λ row db ds h none_match w. record { orders = h.orders; payments = h.payments };
  finished = λ row_id outcome db d d' rest ds h e w m v. record {
    orders = h.orders;
    payments = h.payments;
  };
  booked = λ settings row_id now o v db ds h none_match w. record {
    orders = h.orders;
    payments = h.payments;
  };
}

module _ (p : Platform) (stable : Stable p HasHistory) where
  -- Whatever requests are served, in whatever interleaving with other requests that keep the
  -- same: every stored order reached its status from PENDING, and every stored payment its
  -- status, by exactly as many legal transitions as its version counts.
  pub serve-HasHistory :
      (requests : List Request) (s : State) → HasHistory s.db → HasHistory (serve p requests s).db
  serve-HasHistory = serve-keeps p stable order_writes payment_writes
