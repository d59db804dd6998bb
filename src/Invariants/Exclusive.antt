-- ===== src/Invariants/Exclusive.antt =====
-- One order per vehicle: no two stored orders hold one vehicle, whatever is served.
use voltaris_mobility_backen.Prelude.{
  ℕ, String, string_eq, ◌==◌, ==-refl, ==-sym, ◌≡◌, ap, true, false, some, List, arith,
}
use voltaris_mobility_backen.Core.Platform.{Platform}
use voltaris_mobility_backen.Core.Action.{State}
use voltaris_mobility_backen.Core.Keeps.{Stable}
use voltaris_mobility_backen.Database.Collections.{Db}
use voltaris_mobility_backen.Database.Bags.{
  All-take, Distinct, Distinct-take, Distinct-put, Distinct-replace,
}
use voltaris_mobility_backen.Database.Mongo.{With}
use voltaris_mobility_backen.Database.Indexes.{holds_vehicle, orders_clash}
use voltaris_mobility_backen.Orders.Models.{Order, OrderStatus, status_eq, can_transition}
use voltaris_mobility_backen.Orders.Documents.{unchanged_order, to_status}
use voltaris_mobility_backen.Invariants.History.{still_legal}
use voltaris_mobility_backen.Writes.Closed.{OrderWrites, PaymentWrites}
use voltaris_mobility_backen.System.{Request, serve, serve-keeps}

-- No legal transition makes an order hold its vehicle again.
transition_never_reacquires :
    (o : Order) (target : OrderStatus) (now : ℕ)
    → can_transition o.status target ≡ true
    → holds_vehicle o ≡ false
    → holds_vehicle (to_status target now o) ≡ false
unfolding can_transition holds_vehicle
transition_never_reacquires o target now legal h = ground arith

orders_clash_sym : (a b : Order) → orders_clash a b ≡ orders_clash b a
unfolding orders_clash
orders_clash_sym a b =
    ground
      (arith, ==-sym a.id b.id, ==-sym a.reference b.reference, ==-sym a.vehicle_id b.vehicle_id)

-- An order that lets go of its vehicle, or keeps it, clashes with no other order anew.
moved-clash :
    (o e : Order) (target : OrderStatus) (now : ℕ)
    → can_transition o.status target ≡ true
    → orders_clash o e ≡ false
    → orders_clash (to_status target now o) e ≡ false
unfolding orders_clash
moved-clash o e target now legal h = ground (arith, transition_never_reacquires o target now legal)

abbrev pub IsExclusive : Db → Type 0
IsExclusive db = Distinct orders_clash db.orders

moved-IsExclusive :
    (seen o o' : Order) (target : OrderStatus) (now : ℕ)
    → can_transition seen.status target ≡ true
    → o' ≡ to_status target now o
    → unchanged_order seen o ≡ true
    → (e : Order) → orders_clash o e ≡ false
    → orders_clash o' e ≡ false
moved-IsExclusive seen o o' target now legal e m x h =
    rw e (moved-clash o x target now (still_legal seen o target m legal) h)

order_writes : OrderWrites IsExclusive
order_writes = record {
  placed = λ o s v db ds h none_match w. Distinct-put orders_clash orders_clash_sym w none_match h;
  taken_back = λ order_id db d rest h w m. (Distinct-take orders_clash orders_clash_sym w h).1;
  moved_order = λ seen target now legal db d d' rest ds h e w m v.
      Distinct-replace orders_clash orders_clash_sym w v
        (moved-IsExclusive seen d d' target now legal e m) h;
  held = λ vehicle_id now db d d' rest ds h e w m v. h;
  released = λ vehicle_id now db d d' rest ds h e w m v. h;
  sold_off = λ vehicle_id now db d d' rest ds h e w m v. h;
  claimed = λ row db ds h none_match w. h;
  completed = λ user_id endpoint key response db d d' rest ds h e w m v. h;
  audited = λ entry db ds h none_match w. h;
}

attached-clash :
    (o o' : Order) (payment_id : String)
    → o' ≡ record o { payment_id = some payment_id }
    → (e : Order) → orders_clash o e ≡ false
    → orders_clash o' e ≡ false
unfolding orders_clash holds_vehicle
attached-clash o o' payment_id p e h = rw p h

payment_writes : PaymentWrites IsExclusive
payment_writes = record {
  opened = λ x s v db ds h none_match w. h;
  attached = λ order_id payment_id db d d' rest ds h e w m v.
      Distinct-replace orders_clash orders_clash_sym w v (attached-clash d d' payment_id e) h;
  moved_payment = λ seen target now transaction_id legal db d d' rest ds h e w m v. h;
  logged = λ row db ds h none_match w. h;
  finished = λ row_id outcome db d d' rest ds h e w m v. h;
  booked = λ settings row_id now o v db ds h none_match w. h;
}

clash_free :
    (a b : Order)
    → orders_clash a b ≡ false
    → a.vehicle_id ≡ b.vehicle_id
    → holds_vehicle a ≡ true
    → holds_vehicle b ≡ false
unfolding orders_clash
clash_free a b h same held =
    ground (arith, ==-refl b.vehicle_id, ap (λ (v : String). v == b.vehicle_id) same)

-- Whatever requests are served, in whatever interleaving with other requests that keep the
-- orders free of clashes, and from a database without a clash: of two stored orders for one
-- vehicle, at most one has a status that holds it.
pub one_order_per_vehicle :
    (p : Platform)
    → Stable p IsExclusive
    → (requests : List Request) (s : State) → IsExclusive s.db
    → (a b : Order) (rest others : List Order) → With a rest (serve p requests s).db.orders
    → With b others rest
    → a.vehicle_id ≡ b.vehicle_id
    → holds_vehicle a ≡ true
    → holds_vehicle b ≡ false
one_order_per_vehicle p stable requests s h a b rest others w v =
    let exclusive = serve-keeps p stable order_writes payment_writes requests s h in
    let apart = (Distinct-take orders_clash orders_clash_sym w exclusive).0 in
    clash_free a b (All-take (λ e. orders_clash a e ≡ false) v apart).0
