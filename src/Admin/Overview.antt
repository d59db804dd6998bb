-- ===== src/Admin/Overview.antt =====
-- The monitoring of the console: `overview` and `collection_stats` of app/modules/admin/console.py.
-- The sums of the commissions are the server's `$group`, a parameter.
use voltaris_mobility_backen.Prelude.{
  ℕ, suc, ◌-◌, ◌*◌, String, string_eq, ◌==◌, Bool, true, not, ◌&&◌, leb, Option, none, some, List,
  [], ◌∷◌,
}
use voltaris_mobility_backen.Prelude.Int.{ℤ, pos}
use voltaris_mobility_backen.Core.Platform.{Platform, Reply}
use voltaris_mobility_backen.Core.Action.{Action, ok, pure, ◌>>=◌, utc_now, call, count_documents}
use voltaris_mobility_backen.Database.Collections
use voltaris_mobility_backen.Vehicles.Models.{VehicleStatus, status_eq as vehicle_status_eq}
use voltaris_mobility_backen.Orders.Models.{OrderStatus, status_eq as order_status_eq}
use voltaris_mobility_backen.Payments.Models.{PaymentStatus, status_eq as payment_status_eq}
use voltaris_mobility_backen.Commissions.Service.{CommissionStatus}
use voltaris_mobility_backen.Admin.Console.{is_active}
use voltaris_mobility_backen.Admin.Inspection.{RawReads}
use voltaris_mobility_backen.Api.Principals.{is_suspended}

-- The sums of gross sale, commission and net revenue since a time, by the number of the call; none
-- where no document is in the group.
abbrev pub Sums : Type 0
Sums = ℕ → ℕ → Reply (Option (ℤ × ℤ × ℤ))

pub record Overview : Type 0 where
  pub users_total : ℕ
  pub users_active : ℕ
  pub users_suspended : ℕ
  pub users_new_24h : ℕ
  pub vehicles_pending_review : ℕ
  pub vehicles_available : ℕ
  pub vehicles_reserved : ℕ
  pub vehicles_sold : ℕ
  pub orders_awaiting_payment : ℕ
  pub orders_paid : ℕ
  pub orders_new_24h : ℕ
  pub gross_sale : ℤ
  pub agency_commission : ℤ
  pub net_revenue : ℤ
  pub commissions_needing_review : ℕ
  pub failed_payments_24h : ℕ
  pub rejected_webhooks_24h : ℕ

abbrev totals : Option (ℤ × ℤ × ℤ) → ℤ × ℤ × ℤ
totals none = (pos 0, pos 0, pos 0)
totals (some sums) = sums

abbrev needs_review : CommissionStatus → Bool
needs_review CommissionStatus.needs_review = true
needs_review _ = Bool.false

-- `timedelta(days=n)`
abbrev days : ℕ → ℕ
days n = n * 86400 * 1000000

module _ (p : Platform) where
  abbrev vehicles_in : VehicleStatus → Action ℕ
  vehicles_in status = count_documents p Collections.vehicles (λ v. v.status == status) none

  -- `overview`
  unfoldable pub overview : Sums → Action Overview
  overview sums = do
    now ← utc_now p
    later ← utc_now p
    revenue ← call p (λ n. sums n (later - days 7))
    users_total ← count_documents p Collections.users (λ u. true) none
    users_active ← count_documents p Collections.users (λ u. is_active u.status) none
    users_suspended ← count_documents p Collections.users (λ u. is_suspended u.status) none
    users_new ← count_documents p Collections.users (λ u. leb (now - days 1) u.created_at) none
    pending_review ← vehicles_in VehicleStatus.pending_review
    available ← vehicles_in VehicleStatus.available
    reserved ← vehicles_in VehicleStatus.reserved
    sold ← vehicles_in VehicleStatus.sold
    awaiting ←
        count_documents p Collections.orders (λ o. o.status == OrderStatus.payment_pending) none
    paid ← count_documents p Collections.orders (λ o. o.status == OrderStatus.paid) none
    orders_new ← count_documents p Collections.orders (λ o. leb (now - days 1) o.created_at) none
    needing_review ← count_documents p Collections.commissions (λ c. needs_review c.status) none
    failed ←
        count_documents p Collections.payments
          (λ x. x.status == PaymentStatus.failed && leb (now - days 1) x.updated_at) none
    rejected ←
        count_documents p Collections.payment_events
          (λ e. not e.signature_valid && leb (now - days 1) e.received_at) none
    let (gross, commission, net) = totals revenue in
        pure (record {
          users_total = users_total;
          users_active = users_active;
          users_suspended = users_suspended;
          users_new_24h = users_new;
          vehicles_pending_review = pending_review;
          vehicles_available = available;
          vehicles_reserved = reserved;
          vehicles_sold = sold;
          orders_awaiting_payment = awaiting;
          orders_paid = paid;
          orders_new_24h = orders_new;
          gross_sale = gross;
          agency_commission = commission;
          net_revenue = net;
          commissions_needing_review = needing_review;
          failed_payments_24h = failed;
          rejected_webhooks_24h = rejected;
        })

pub record CollectionStats : Type 0 where
  pub collection : String
  pub documents : ℕ
  pub indexes : ℕ

module _ (p : Platform) (raw : RawReads) where
  raw_count : String → Action ℕ
  raw_count name s =
      let db = p.others s.calls s.db in
      (ok (raw.count db name), record { db = db; calls = suc s.calls })

  abbrev stats_of : List String → Action (List CollectionStats)
  stats_of [] = pure []
  stats_of (name ∷ names) = do
    documents ← raw_count name
    rest ← stats_of names
    pure (record { collection = name; documents = documents; indexes = raw.indexes name } ∷ rest)

  -- `collection_stats`, over the sorted names
  unfoldable pub collection_stats : Action (List CollectionStats)
  unfolding raw_count
  collection_stats = stats_of (
      "audit_logs" ∷ "commissions" ∷ "idempotency_keys" ∷ "login_attempts" ∷ "orders"
      ∷ "payment_events" ∷ "payments" ∷ "sessions" ∷ "users" ∷ "vehicles" ∷ [])
