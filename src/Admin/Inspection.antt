-- ===== src/Admin/Inspection.antt =====
-- The read operations of the console: `inspect` and `collection_stats` of
-- app/modules/admin/console.py. A collection by its name, with a filter of the client, is the
-- parameter `RawReads`: the server evaluates it.
use voltaris_mobility_backen.Prelude.{
  ℕ, suc, ◌≤◌, String, string_eq, Bool, not, eqb, get_or, Option, none, some, List, [], ◌∷◌, map,
  length, contains,
}
use voltaris_mobility_backen.Prelude.Int.{ℤ, pos}
use voltaris_mobility_backen.Core.Errors.{forbidden}
use voltaris_mobility_backen.Core.Platform.{Platform}
use voltaris_mobility_backen.Core.Action.{Action, ok, pure, raise_if, lift, ◌>>=◌, ◌>>◌}
use voltaris_mobility_backen.Database.Collections.{Db}
use voltaris_mobility_backen.Audit.Models.{text, number}
use voltaris_mobility_backen.Audit.Service.{record_change}
use voltaris_mobility_backen.Vehicles.Pages.{at_least_one, at_most}
use voltaris_mobility_backen.Admin.Filter.{Node, dict, no_fields, validate, Document, redact}
use voltaris_mobility_backen.Admin.Console.{max_limit}

-- `READABLE`
abbrev pub readable : List String
readable =
    "users" ∷ "sessions" ∷ "vehicles" ∷ "orders" ∷ "payments" ∷ "payment_events" ∷ "commissions"
    ∷ "idempotency_keys" ∷ "audit_logs" ∷ "login_attempts" ∷ []

-- `db[name].find(filter).sort(field, direction).limit(n).to_list(n)`, which returns at most `n`
-- documents, with the number of the call; `count_documents({})` and `len(index_information())`; the
-- text of a filter, cut at 500 characters.
pub record RawReads : Type 0 where
  pub find : ℕ → Db → String → Node → String → Bool → ℕ → List Document
  pub within_limit :
      (n : ℕ) (db : Db) (name : String) (filter : Node) (sort_field : String) (descending : Bool)
      (limit : ℕ)
      → length (find n db name filter sort_field descending limit) ≤ limit
  pub count : Db → String → ℕ
  pub indexes : String → ℕ
  pub filter_text : Node → String
  pub compiles : String → Bool

pub record Inspection : Type 0 where
  pub collection : String
  pub count : ℕ
  pub limit : ℕ
  pub truncated : Bool
  pub items : List Document

-- `max(1, min(limit, MAX_LIMIT))`
abbrev pub clamp : ℤ → ℕ
clamp limit = at_most max_limit (at_least_one limit)

module _ (p : Platform) (raw : RawReads) where
  unfoldable pub raw_find : String → Node → String → Bool → ℕ → Action (List Document)
  raw_find name filter sort_field descending limit s =
      let db = p.others s.calls s.db in
      (
        ok (raw.find s.calls db name filter sort_field descending limit),
        record { db = db; calls = suc s.calls },
      )

  -- `inspect`
  unfoldable pub inspect : String → Option Node → String → Bool → ℤ → String → Action Inspection
  inspect collection query sort_field descending limit actor_id = do
    raise_if (not (contains readable collection)) forbidden
    lift (validate raw.compiles (get_or query (dict no_fields)) 0)
    rows ← raw_find collection (get_or query (dict no_fields)) sort_field descending (clamp limit)
    record_change p (record {
      action = "admin.inspect";
      entity_type = "collection";
      entity_id = collection;
      actor_id = some actor_id;
      before = none;
      after = some (
          ("filter", text (raw.filter_text (get_or query (dict no_fields))))
          ∷ ("returned", number (pos (length rows)))
          ∷ ("limit", number (pos (clamp limit)))
          ∷ []);
      ip = none;
    })
    pure (record {
      collection = collection;
      count = length rows;
      limit = clamp limit;
      truncated = eqb (length rows) (clamp limit);
      items = map redact rows;
    })
