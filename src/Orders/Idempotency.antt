-- ===== src/Orders/Idempotency.antt =====
-- The idempotency keys of `OrderService` in app/modules/orders/service.py. Times are counted in
-- microseconds, the resolution of a datetime.
use voltaris_mobility_backen.Prelude.{
  ℕ, ◌+◌, String, string_eq, ◌==◌, Bool, not, ◌&&◌, Option, none, some, if◌then◌else◌,
}
use voltaris_mobility_backen.Core.Errors.{duplicate_request, idempotency_key_reused}
use voltaris_mobility_backen.Core.Platform.{Platform}
use voltaris_mobility_backen.Core.Action.{
  Action, pure, raise, ◌>>=◌, ◌>>◌, on_duplicate, uuid4_hex, utc_now, find_one, insert_one,
  update_one,
}
use voltaris_mobility_backen.Database.Collections
use voltaris_mobility_backen.Orders.Models.{IdempotencyKey, OrderResponse, RequestPayload}

abbrev pub idempotency_ttl : ℕ
idempotency_ttl = 86400000000

-- The query `{"user_id": …, "endpoint": …, "key": …}`
abbrev pub in_scope : String → String → String → IdempotencyKey → Bool
in_scope user_id endpoint key row =
    row.user_id == user_id && row.endpoint == endpoint && row.key == key

-- A row that is found: a body that differs is refused, an unfinished request too, and a finished
-- one is replayed.
abbrev pub replayed : Option OrderResponse → Action (Option OrderResponse)
replayed none = raise duplicate_request
replayed (some response) = pure (some response)

abbrev pub check_row : String → IdempotencyKey → Action (Option OrderResponse)
check_row fingerprint row =
    if not (row.fingerprint == fingerprint)
    then raise idempotency_key_reused
    else replayed row.response

module _ (p : Platform) where
  unfoldable pub fingerprint : RequestPayload → String
  fingerprint body = p.sha256_hex (p.json_dumps body)

  unfoldable pub reserve : String → String → String → RequestPayload → Action (Option OrderResponse)
  reserve user_id endpoint key body = do
    row_id ← uuid4_hex p
    created ← utc_now p
    later ← utc_now p
    on_duplicate
        (insert_one p Collections.idempotency_keys (record {
          id = row_id;
          user_id = user_id;
          endpoint = endpoint;
          key = key;
          fingerprint = fingerprint body;
          response = none;
          created_at = created;
          expires_at = later + idempotency_ttl;
        }))
        (raise duplicate_request)
    pure none

  abbrev pub replay_found :
      String
      → String
      → String
      → RequestPayload
      → Option IdempotencyKey
      → Action (Option OrderResponse)
  replay_found user_id endpoint key body none = reserve user_id endpoint key body
  replay_found user_id endpoint key body (some row) = check_row (fingerprint body) row

  -- `_replay_or_reserve`
  unfoldable pub replay_or_reserve :
      String → String → String → RequestPayload → Action (Option OrderResponse)
  unfolding reserve
  replay_or_reserve user_id endpoint key body =
      find_one p Collections.idempotency_keys (in_scope user_id endpoint key)
      >>= replay_found user_id endpoint key body

  -- `_store_idempotent_response`; the time of completion is not read back and left out.
  unfoldable pub store_idempotent_response :
      String → String → String → OrderResponse → Action (Unit {0})
  store_idempotent_response user_id endpoint key response = do
    utc_now p
    update_one p Collections.idempotency_keys (in_scope user_id endpoint key)
        (λ row. record row { response = some response })
    pure tt
