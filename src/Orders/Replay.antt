-- ===== src/Orders/Replay.antt =====
-- Retries of `create_order` in app/modules/orders/service.py: a key that is recorded.
use voltaris_mobility_backen.Prelude.{
  suc, String, string_eq, ◌==◌, not, ◌≡◌, refl, sym, subst, Bool, true, false, Option, none, some,
  List, if◌then◌else◌,
}
use voltaris_mobility_backen.Prelude.Int.{ℤ}
use voltaris_mobility_backen.Core.Errors.{app_error, duplicate_request, idempotency_key_reused}
use voltaris_mobility_backen.Core.Platform.{Platform, IsQuiet}
use voltaris_mobility_backen.Core.Action.{Result, Action, raise, ok, err, State, ◌>>=◌, find_one}
use voltaris_mobility_backen.Database.Mongo.{With, NoneMatch, FindLaw, found, missing}
use voltaris_mobility_backen.Database.Bags.{All-take}
use voltaris_mobility_backen.Orders.Models.{
  OrderKind, OrderResponse, RequestPayload, IdempotencyKey,
}
use voltaris_mobility_backen.Orders.Idempotency.{
  in_scope, replayed, fingerprint, replay_found, replay_or_reserve,
}
use voltaris_mobility_backen.Orders.Creation.{create_new, create_and_store, create_order}

-- The answer to a retry, from the row of its key.
abbrev pub retried : String → IdempotencyKey → Result OrderResponse
retried body row =
    if not (row.fingerprint == body)
    then err (app_error idempotency_key_reused)
    else elim row.response [ none ↦ err (app_error duplicate_request) | some r ↦ ok r ]

no_match :
    {D : Type 0} (q : D → Bool) {d : D} {rest ds : List D}
    → With d rest ds
    → q d ≡ true
    → NoneMatch q ds
    → ⊥
no_match q w m n = cc (m, (All-take (λ d. q d ≡ false) w n).0)

module _ (p : Platform) (customer_id vehicle_id : String) (kind : OrderKind)
    (rental_days : Option ℤ) (key : String) (ip : Option String) where
  abbrev store : Option OrderResponse → Action OrderResponse
  store = create_and_store p customer_id vehicle_id kind rental_days key ip

  abbrev body : RequestPayload
  body = record { vehicle_id = vehicle_id; kind = kind; rental_days = rental_days }

  check_row-retried :
      (same : Bool) (response : Option OrderResponse) (s : State)
      → ((if not same then raise idempotency_key_reused else replayed response) >>= store) s ≡ (
        (if not same
            then err (app_error idempotency_key_reused)
            else elim response [ none ↦ err (app_error duplicate_request) | some r ↦ ok r ]),
        s,
      )
  unfolding ◌>>=◌
  check_row-retried false response s = refl
  check_row-retried true none s = refl
  check_row-retried true (some r) s = refl

  abbrev scope : IdempotencyKey → Bool
  scope = in_scope customer_id "POST /orders" key

  -- A retry ends as the row says that is found for its key, and writes nothing.
  abbrev Retried : List IdempotencyKey → State → Result OrderResponse × State → Type 0
  Retried keys s r =
      (row : IdempotencyKey) × (rest : List IdempotencyKey) × With row rest keys
      × (scope row ≡ true)
      × (r ≡ (retried (fingerprint p body) row, s))

  found-Retried :
      (keys : List IdempotencyKey) (r : Option IdempotencyKey) (s : State) (row : IdempotencyKey)
      (rest : List IdempotencyKey)
      → With row rest keys
      → scope row ≡ true
      → FindLaw scope keys r
      → Retried keys s ((replay_found p customer_id "POST /orders" key body r >>= store) s)
  found-Retried keys (some seen) s row rest w m (found others v e) = (
    seen,
    others,
    v,
    e,
    check_row-retried (seen.fingerprint == fingerprint p body) seen.response s,
  )
  found-Retried keys none s row rest w m (missing none_match) =
      absurd (no_match scope w m none_match)

  replay-Retried :
      (s : State) (row : IdempotencyKey) (rest : List IdempotencyKey)
      → With row rest (p.others s.calls s.db).idempotency_keys
      → scope row ≡ true
      → Retried
          (p.others s.calls s.db).idempotency_keys
          (record { db = p.others s.calls s.db; calls = suc s.calls })
          ((replay_or_reserve p customer_id "POST /orders" key body >>= store) s)
  unfolding replay_or_reserve ◌>>=◌ find_one
  replay-Retried s row rest w m =
      found-Retried (p.others s.calls s.db).idempotency_keys
        (p.mongo.find_one scope (p.others s.calls s.db).idempotency_keys) _ row rest w m
        (p.mongo.find_law scope (p.others s.calls s.db).idempotency_keys)

  quiet-Retried :
      IsQuiet p
      → (s : State) (row : IdempotencyKey) (rest : List IdempotencyKey)
      → With row rest s.db.idempotency_keys
      → scope row ≡ true
      → Retried s.db.idempotency_keys
          (record s { calls = suc s.calls })
          ((replay_or_reserve p customer_id "POST /orders" key body >>= store) s)
  quiet-Retried quiet s row rest w m =
      subst
        (λ db.
          With row rest db.idempotency_keys
          → Retried db.idempotency_keys (record { db = db; calls = suc s.calls })
              ((replay_or_reserve p customer_id "POST /orders" key body >>= store) s))
        (quiet s.calls s.db) (λ w. replay-Retried s row rest w m) w

-- Alone on the database, `create_order` with a key that is recorded for the customer places no
-- order and writes nothing at all: it answers as a row of that key says, with the stored response
-- if the body is the same and the first request was answered, with DUPLICATE_REQUEST if that one
-- is not finished, and with IDEMPOTENCY_KEY_REUSED if the body differs.
pub create_order_replay :
    (p : Platform)
    → IsQuiet p
    → (customer_id vehicle_id : String) (kind : OrderKind) (rental_days : Option ℤ)
    → (key : String) (ip : Option String) (s : State) → (key == "") ≡ false
    → (row : IdempotencyKey) (rest : List IdempotencyKey) → With row rest s.db.idempotency_keys
    → in_scope customer_id "POST /orders" key row ≡ true
    → (seen : IdempotencyKey) × (others : List IdempotencyKey) × With seen others
        s.db.idempotency_keys
      × (in_scope customer_id "POST /orders" key seen ≡ true)
      × (create_order p customer_id vehicle_id kind rental_days (some key) ip s ≡ (
        retried
            (fingerprint p
              (record { vehicle_id = vehicle_id; kind = kind; rental_days = rental_days }))
            seen,
        record s { calls = suc s.calls },
      ))
unfolding create_order
create_order_replay p quiet customer_id vehicle_id kind rental_days key ip s named row rest w m =
    subst
      (λ b.
        Retried p customer_id vehicle_id kind rental_days key ip s.db.idempotency_keys
          (record s { calls = suc s.calls })
          ((if b
              then create_new p customer_id vehicle_id kind rental_days ip
              else replay_or_reserve p customer_id "POST /orders" key
                  (record { vehicle_id = vehicle_id; kind = kind; rental_days = rental_days })
                >>= create_and_store p customer_id vehicle_id kind rental_days key ip)
            s))
      (sym named)
      (quiet-Retried p customer_id vehicle_id kind rental_days key ip quiet s row rest w m)
