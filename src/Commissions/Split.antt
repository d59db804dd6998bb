-- ===== src/Commissions/Split.antt =====
-- What the split of a sale guarantees, for every input.
use voltaris_mobility_backen.Prelude.{String, ◌≡◌, ◌↔◌, Bool, true, false}
use voltaris_mobility_backen.Prelude.Int.{ℤ, pos, ◌+ℤ◌, ◌-ℤ◌, ◌*ℤ◌, ◌≤ℤ◌, floor_div, int_laws}
use voltaris_mobility_backen.Commissions.Service.{
  CommissionBreakdown, Calculated, breakdown, raised, calculate,
}

abbrev pub is_computed : Calculated → Bool
is_computed (breakdown _) = true
is_computed (raised _) = false

module _ (gross seller : ℤ) (currency : String) (bps fee_bps fee_fixed : ℤ) where
  -- Whenever a split is computed, it is one of the given gross sale, the seller gets exactly the price that was promised, the
  -- settlement and the commission sum to the gross sale, the commission is at least the agreed
  -- rate of the gross sale rounded down, and the fees come out of the commission alone: net
  -- revenue, fees and settlement sum to the gross sale.
  pub calculate_split :
      (b : CommissionBreakdown)
      → calculate gross seller currency bps fee_bps fee_fixed ≡ breakdown b
      → (b.gross_sale ≡ gross)
        × (b.owner_settlement ≡ seller)
        × (b.owner_settlement +ℤ b.agency_commission ≡ gross)
        × (floor_div (gross *ℤ bps) 10000 ≤ℤ b.agency_commission)
        × (b.net_revenue +ℤ b.payment_fees +ℤ b.owner_settlement ≡ gross)
        × (pos 0 ≤ℤ b.agency_commission)
  unfolding calculate
  calculate_split b h = grind int_laws

  -- A split is computed, and nothing is raised, exactly when the gross sale is positive, the
  -- seller expects between zero and the gross sale, and what is left reaches the agreed rate.
  pub calculate_iff :
      (is_computed (calculate gross seller currency bps fee_bps fee_fixed) ≡ true) ↔ (
        (pos 1 ≤ℤ gross)
        × (pos 0 ≤ℤ seller)
        × (seller ≤ℤ gross)
        × (floor_div (gross *ℤ bps) 10000 ≤ℤ gross -ℤ seller))
  unfolding calculate
  calculate_iff = ((λ h. grind int_laws), (λ h. grind int_laws))
