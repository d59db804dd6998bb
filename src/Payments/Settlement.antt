-- ===== src/Payments/Settlement.antt =====
-- `PaymentService._settle` of app/modules/payments/service.py: the order advances and the
-- commission is booked.
use voltaris_mobility_backen.Prelude.{
  ℕ, String, string_eq, true, false, Option, none, some, [], ◌∷◌,
}
use voltaris_mobility_backen.Prelude.Int.{ℤ, pos}
use voltaris_mobility_backen.Core.Config.{Settings}
use voltaris_mobility_backen.Core.Platform.{Platform}
use voltaris_mobility_backen.Core.Action.{
  Action, pure, ◌>>=◌, ◌>>◌, when, on_duplicate, uuid4_hex, utc_now, find_one, insert_one,
}
use voltaris_mobility_backen.Database.Collections
use voltaris_mobility_backen.Audit.Models.{text, number}
use voltaris_mobility_backen.Audit.Service.{record_change}
use voltaris_mobility_backen.Commissions.Service.{
  Commission, Calculated, breakdown, raised, calculate, pending, needs_review, error_text,
}
use voltaris_mobility_backen.Vehicles.Models.{Vehicle, InternalFinancials}
use voltaris_mobility_backen.Orders.Models.{Order, paid}
use voltaris_mobility_backen.Orders.Documents.{has_id, vehicle_in}
use voltaris_mobility_backen.Orders.Pricing.{or_default}
use voltaris_mobility_backen.Orders.Transitions.{transition}
use voltaris_mobility_backen.Payments.Models.{Payment}

-- `internal.get("seller_expected_price", 0)`, where `internal` may be missing
abbrev pub seller_price : Option InternalFinancials → ℤ
seller_price none = pos 0
seller_price (some i) = i.seller_expected_price

abbrev pub listing_bps : Option InternalFinancials → Option ℤ
listing_bps none = none
listing_bps (some i) = i.commission_bps

-- The split of an order for a vehicle, at the listing's rate or the platform's.
unfoldable pub split_order : Settings → Order → Vehicle → Calculated
split_order settings o v =
    calculate o.total (seller_price v.internal) o.currency
      (or_default (listing_bps v.internal) settings.default_commission_bps) settings.payment_fee_bps
      settings.payment_fee_fixed_minor

-- `as_document`, and the document of a sale whose split could not be computed.
unfoldable pub commission_document : String → ℕ → Order → Calculated → Commission
commission_document row_id now o (breakdown b) = record {
  id = row_id;
  order_id = o.id;
  gross_sale = b.gross_sale;
  owner_settlement = some b.owner_settlement;
  agency_commission = some b.agency_commission;
  payment_fees = some b.payment_fees;
  net_revenue = some b.net_revenue;
  currency = b.currency;
  commission_bps = some b.commission_bps;
  status = pending;
  review_reason = none;
  created_at = now;
}
commission_document row_id now o (raised reason) = record {
  id = row_id;
  order_id = o.id;
  gross_sale = o.total;
  owner_settlement = none;
  agency_commission = none;
  payment_fees = none;
  net_revenue = none;
  currency = o.currency;
  commission_bps = none;
  status = needs_review;
  review_reason = some reason;
  created_at = now;
}

module _ (p : Platform) where
  -- The audit entry of a split that could not be computed, which comes before the insert.
  unfoldable pub audit_review : Order → Calculated → Action (Unit {0})
  audit_review o (breakdown b) = pure tt
  audit_review o (raised reason) = do
    record_change p (record {
      action = "commission.needs_review";
      entity_type = "commission";
      entity_id = o.id;
      actor_id = none;
      before = none;
      after = some (("gross_sale", number o.total) ∷ ("reason", text (error_text reason)) ∷ []);
      ip = none;
    })
    pure tt

  unfoldable pub audit_recorded : Order → Calculated → Action (Unit {0})
  audit_recorded o (raised reason) = pure tt
  audit_recorded o (breakdown b) = do
    record_change p (record {
      action = "commission.recorded";
      entity_type = "commission";
      entity_id = o.id;
      actor_id = none;
      before = none;
      after = some (
          ("gross_sale", number b.gross_sale)
          ∷ ("owner_settlement", number b.owner_settlement)
          ∷ ("agency_commission", number b.agency_commission)
          ∷ ("net_revenue", number b.net_revenue)
          ∷ []);
      ip = none;
    })
    pure tt

  -- Books the commission unless the order has one.
  unfoldable pub book_commission : Order → Calculated → Action (Unit {0})
  unfolding audit_review audit_recorded
  book_commission o split = do
    now ← utc_now p
    audit_review o split
    row_id ← uuid4_hex p
    booked ←
        on_duplicate
          (insert_one p Collections.commissions (commission_document row_id now o split)
            >> pure true)
          (pure false)
    when booked (audit_recorded o split)

  abbrev pub book_for : Order → Option Vehicle → Action (Unit {0})
  book_for o none = pure tt
  book_for o (some v) = book_commission o (split_order p.settings o v)

  abbrev pub book_sale : Option Order → Action (Unit {0})
  book_sale none = pure tt
  book_sale (some o) = find_one p Collections.vehicles (vehicle_in o.vehicle_id) >>= book_for o

  -- `_settle`
  unfoldable pub settle : Payment → Action (Unit {0})
  settle payment = do
    transition p payment.order_id paid none (some "payment settled")
    row ← find_one p Collections.orders (has_id payment.order_id)
    book_sale row
