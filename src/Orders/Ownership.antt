-- ===== src/Orders/Ownership.antt =====
-- Who reads an order: the owner's filter of `get_for_customer` in app/modules/orders/service.py.
use voltaris_mobility_backen.Prelude.{
  String, string_eq, ◌==◌, ==-eq, and-true, ◌≡◌, refl, sym, suc, subst, Bool, ◌&&◌, ◌⊎◌, inl, inr,
  Option, none, some, List,
}
use voltaris_mobility_backen.Core.Errors.{app_error, order_not_found}
use voltaris_mobility_backen.Core.Platform.{Platform, IsQuiet}
use voltaris_mobility_backen.Core.Action.{Result, ok, err, State, or_raise, pure, ◌>>=◌, find_one}
use voltaris_mobility_backen.Database.Mongo.{With, NoneMatch, FindLaw, found, missing}
use voltaris_mobility_backen.Orders.Models.{Order, OrderResponse}
use voltaris_mobility_backen.Orders.Documents.{serialise}
use voltaris_mobility_backen.Orders.Transitions.{get_for_customer}

abbrev pub is_owned : String → String → Order → Bool
is_owned order_id customer_id o = o.id == order_id && o.customer_id == customer_id

-- The answer to a read of an order: a stored order of that id and customer, or that there is none.
abbrev pub Read : List Order → String → String → Result OrderResponse → Type 0
Read orders order_id customer_id r =
    ((o : Order) × (rest : List Order) × With o rest orders
      × (o.id ≡ order_id)
      × (o.customer_id ≡ customer_id)
      × (r ≡ ok (serialise o)))
    ⊎ (NoneMatch (is_owned order_id customer_id) orders × (r ≡ err (app_error order_not_found)))

abbrev answer : Option Order → Result OrderResponse
answer none = err (app_error order_not_found)
answer (some o) = ok (serialise o)

answer-Read :
    (orders : List Order) (order_id customer_id : String) (r : Option Order)
    → FindLaw (is_owned order_id customer_id) orders r
    → Read orders order_id customer_id (answer r)
answer-Read orders order_id customer_id (some o) (found rest w m) =
    let (i, c) = and-true (o.id == order_id) (o.customer_id == customer_id) m in
    inl (o, rest, w, ==-eq _ _ i, ==-eq _ _ c, refl)
answer-Read orders order_id customer_id none (missing none_match) = inr (none_match, refl)

get_for_customer-answer :
    (p : Platform) (order_id customer_id : String) (s : State)
    → (get_for_customer p order_id customer_id s).0
      ≡ answer (p.mongo.find_one (is_owned order_id customer_id) (p.others s.calls s.db).orders)
unfolding get_for_customer ◌>>=◌ find_one
get_for_customer-answer p order_id customer_id s =
    read (p.mongo.find_one (is_owned order_id customer_id) (p.others s.calls s.db).orders)
      (record { db = p.others s.calls s.db; calls = suc s.calls })
  where
    read :
        (r : Option Order) (s : State)
        → ((or_raise r order_not_found >>= (λ o. pure (serialise o))) s).0 ≡ answer r
    read none s = refl
    read (some o) s = refl

-- Alone on the database, `get_for_customer` answers with a stored order of that id that belongs to
-- that customer, and raises ORDER_NOT_FOUND exactly when there is none; an order of someone else
-- is not found.
pub get_for_customer_lem :
    (p : Platform)
    → IsQuiet p
    → (order_id customer_id : String) (s : State)
    → Read s.db.orders order_id customer_id (get_for_customer p order_id customer_id s).0
get_for_customer_lem p quiet order_id customer_id s =
    subst (λ db. Read db.orders order_id customer_id (get_for_customer p order_id customer_id s).0)
      (quiet s.calls s.db)
      (subst (Read _ order_id customer_id) (sym (get_for_customer-answer p order_id customer_id s))
        (answer-Read _ order_id customer_id _
          (p.mongo.find_law (is_owned order_id customer_id) (p.others s.calls s.db).orders)))
