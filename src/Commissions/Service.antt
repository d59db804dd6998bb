-- ===== src/Commissions/Service.antt =====
-- app/modules/commissions/service.py: the split of a sale, in integer minor units.
use Prim.Native.String.{◌++◌}
use voltaris_mobility_backen.Prelude.Text.{str}
use voltaris_mobility_backen.Prelude.{ℕ, String, Option, if◌then◌else◌}
use voltaris_mobility_backen.Prelude.Int.{ℤ, pos, ◌+ℤ◌, ◌-ℤ◌, ◌*ℤ◌, floor_div, leb_ℤ, ltb_ℤ}

pub data CommissionStatus : Type 0 where
  pending settled reversed needs_review : CommissionStatus

pub record CommissionBreakdown : Type 0 where
  pub gross_sale : ℤ
  pub owner_settlement : ℤ
  pub agency_commission : ℤ
  pub payment_fees : ℤ
  pub net_revenue : ℤ
  pub currency : String
  pub commission_bps : ℤ

-- The `ValueError`s of `calculate`, with the numbers that their messages name.
pub data ValueError : Type 0 where
  gross_not_positive seller_negative : ValueError
  seller_over_gross : ℤ → ℤ → ValueError
  spread_below_rate : ℤ → ℤ → ℤ → ℤ → ValueError

-- `str(exc)`
unfoldable pub error_text : ValueError → String
error_text gross_not_positive = "gross_sale must be positive"
error_text seller_negative = "seller_expected_price cannot be negative"
error_text (seller_over_gross seller gross) =
    "seller expects " ++ str seller ++ " but gross sale is only " ++ str gross
error_text (spread_below_rate spread bps minimum gross) =
    "spread "
    ++ str spread
    ++ " is below the agreed "
    ++ str bps
    ++ "bps ("
    ++ str minimum
    ++ ") on a gross sale of "
    ++ str gross

pub data Calculated : Type 0 where
  breakdown : CommissionBreakdown → Calculated
  raised : ValueError → Calculated

-- A document of the ledger; a split that could not be computed leaves its parts empty.
pub record Commission : Type 0 where
  pub id : String
  pub order_id : String
  pub gross_sale : ℤ
  pub owner_settlement : Option ℤ
  pub agency_commission : Option ℤ
  pub payment_fees : Option ℤ
  pub net_revenue : Option ℤ
  pub currency : String
  pub commission_bps : Option ℤ
  pub status : CommissionStatus
  pub review_reason : Option ValueError
  pub created_at : ℕ

abbrev minimum_commission : ℤ → ℤ → ℤ
minimum_commission gross_sale commission_bps = floor_div (gross_sale *ℤ commission_bps) 10000

abbrev payment_fees_of : ℤ → ℤ → ℤ → ℤ
payment_fees_of gross_sale fee_bps fee_fixed = floor_div (gross_sale *ℤ fee_bps) 10000 +ℤ fee_fixed

-- The `assert` of the source compares the sum of the split with the gross sale; that it cannot
-- fail is proved in `Commissions.Split`.
unfoldable pub calculate : ℤ → ℤ → String → ℤ → ℤ → ℤ → Calculated
calculate gross_sale seller_expected_price currency bps fee_bps fee_fixed =
    if leb_ℤ gross_sale (pos 0)
    then raised gross_not_positive
    else if ltb_ℤ seller_expected_price (pos 0)
    then raised seller_negative
    else if ltb_ℤ gross_sale seller_expected_price
    then raised (seller_over_gross seller_expected_price gross_sale)
    else let agency_commission = gross_sale -ℤ seller_expected_price in
      let minimum = minimum_commission gross_sale bps in
      let payment_fees = payment_fees_of gross_sale fee_bps fee_fixed in
      if ltb_ℤ agency_commission minimum
      then raised (spread_below_rate agency_commission bps minimum gross_sale)
      else breakdown (record {
        gross_sale = gross_sale;
        owner_settlement = seller_expected_price;
        agency_commission = agency_commission;
        payment_fees = payment_fees;
        net_revenue = agency_commission -ℤ payment_fees;
        currency = currency;
        commission_bps = bps;
      })
