-- ===== src/Tests/Witnesses.antt =====
-- The theorems at work on the sample shop.
use voltaris_mobility_backen.Prelude.{
  none, some, String, string_eq, ◌≡◌, ◌↔◌, ◌⊎◌, refl, true, List, [], ◌∷◌, contains,
}
use voltaris_mobility_backen.Prelude.Int.{pos}
use voltaris_mobility_backen.Core.Platform.{IsQuiet}
use voltaris_mobility_backen.Core.Action.{State}
use voltaris_mobility_backen.Core.Keeps.{Stable}
use voltaris_mobility_backen.Database.With.{With}
use voltaris_mobility_backen.Database.Collections.{Db}
use voltaris_mobility_backen.Audit.Models.{Snapshot, Change, AuditEntry, text}
use voltaris_mobility_backen.Audit.Service.{record_change}
use voltaris_mobility_backen.Audit.Redaction.{IsEntryOf, record_change_lem}
use voltaris_mobility_backen.Users.Models.{
  permissions_for, permission_eq, payment_refund, role_assign, vehicle_write,
}
use voltaris_mobility_backen.Users.Grants.{
  IsGranted, permissions_for_iff, permissions_for_money, permissions_for_highest,
}
use voltaris_mobility_backen.Orders.Ownership.{Read, get_for_customer_lem}
use voltaris_mobility_backen.Orders.Transitions.{get_for_customer}
use voltaris_mobility_backen.Payments.Models.{Payload, integer}
use voltaris_mobility_backen.Payments.Webhook.{handle_webhook}
use voltaris_mobility_backen.Payments.Safety.{SameMoney}
use voltaris_mobility_backen.Payments.Unmoved.{IsApproved, handle_webhook_safe}
use voltaris_mobility_backen.System.{serve}
use voltaris_mobility_backen.Invariants.History.{HasHistory, serve-HasHistory}
use voltaris_mobility_backen.Invariants.Ledger.{IsLedger, serve-IsLedger}
use voltaris_mobility_backen.Tests.Machine.{machine}
use voltaris_mobility_backen.Tests.Samples.{shop, opening, event}
use voltaris_mobility_backen.Tests.Runs.{buy, checkout, signature, sale}

-- Nothing else runs in the shop.
pub shop-IsQuiet : IsQuiet shop
shop-IsQuiet n db = refl

pub shop-Stable : (P : Db → Type 0) → Stable shop P
shop-Stable P = record { others = λ n db h. h }

-- The shop with an order and an open payment.
abbrev pub awaiting_payment : State
awaiting_payment = serve shop (buy ∷ checkout ∷ []) opening

abbrev pub paid_payload : Payload
paid_payload = event "e1" "payment.succeeded" "u12" (integer (pos 27000000))

handle_webhook_safe_example :
    SameMoney awaiting_payment.db
      (handle_webhook shop "body" signature paid_payload awaiting_payment).1.db
    ⊎ IsApproved shop "body" signature paid_payload awaiting_payment
handle_webhook_safe_example =
    handle_webhook_safe shop shop-IsQuiet "body" signature paid_payload awaiting_payment

serve-HasHistory_example : HasHistory (serve shop sale opening).db
serve-HasHistory_example =
    serve-HasHistory shop (shop-Stable HasHistory) sale opening
      (record { orders = tt; payments = tt })

serve-IsLedger_example : IsLedger (serve shop sale opening).db
serve-IsLedger_example =
    serve-IsLedger shop (shop-Stable IsLedger) sale opening (record { sound = tt; once = tt })

get_for_customer_lem_example :
    Read awaiting_payment.db.orders "u1" "c1" (get_for_customer shop "u1" "c1" awaiting_payment).0
get_for_customer_lem_example = get_for_customer_lem shop shop-IsQuiet "u1" "c1" awaiting_payment

abbrev accountant : List String
accountant = "BUYER" ∷ "FINANCE" ∷ []

abbrev root : List String
root = "SUPER_ADMIN" ∷ []

permissions_for_money_example :
    (contains accountant "FINANCE" ≡ true) ⊎ (contains accountant "SUPER_ADMIN" ≡ true)
unfolding machine
permissions_for_money_example = permissions_for_money accountant payment_refund refl refl

permissions_for_highest_example : contains root "SUPER_ADMIN" ≡ true
unfolding machine
permissions_for_highest_example = permissions_for_highest root role_assign refl refl

permissions_for_iff_example :
    (contains (permissions_for ("nobody" ∷ "DEALER" ∷ [])) vehicle_write ≡ true)
    ↔ IsGranted ("nobody" ∷ "DEALER" ∷ []) vehicle_write
permissions_for_iff_example = permissions_for_iff ("nobody" ∷ "DEALER" ∷ []) vehicle_write

abbrev snapshot : Snapshot
snapshot = ("token", text "t-1") ∷ ("status", text "ACTIVE") ∷ []

abbrev change : Change
change = record {
  action = "user.created";
  entity_type = "user";
  entity_id = "c1";
  actor_id = none;
  before = none;
  after = some snapshot;
  ip = none;
}

record_change_lem_example :
    (e : AuditEntry) × With e opening.db.audit_logs
      (record_change shop change opening).1.db.audit_logs
    × IsEntryOf change e
unfolding machine
record_change_lem_example = record_change_lem shop shop-IsQuiet change opening "u0" refl
