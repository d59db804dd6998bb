-- ===== src/Invariants/Ledger.antt =====
-- The commission ledger: every booked document is sound, and an order is booked once.
use voltaris_mobility_backen.Prelude.{
  ℕ, String, string_eq, ==-sym, ◌≡◌, ◌⊎◌, refl, sym, ◌∙◌, inl, inr, none, some, List, All, arith,
}
use voltaris_mobility_backen.Prelude.Int.{ℤ, pos, ◌+ℤ◌, ◌≤ℤ◌}
use voltaris_mobility_backen.Core.Config.{Settings}
use voltaris_mobility_backen.Core.Platform.{Platform}
use voltaris_mobility_backen.Core.Action.{State}
use voltaris_mobility_backen.Core.Keeps.{Stable}
use voltaris_mobility_backen.Commissions.Service.{
  Commission, CommissionStatus, Calculated, breakdown, raised, needs_review,
}
use voltaris_mobility_backen.Commissions.Split.{calculate_split}
use voltaris_mobility_backen.Database.Collections.{Db}
use voltaris_mobility_backen.Database.Bags.{All-put, Distinct, Distinct-put}
use voltaris_mobility_backen.Database.Indexes.{commissions_clash}
use voltaris_mobility_backen.Orders.Models.{Order}
use voltaris_mobility_backen.Orders.Pricing.{or_default}
use voltaris_mobility_backen.Vehicles.Models.{Vehicle}
use voltaris_mobility_backen.Payments.Settlement.{
  commission_document, split_order, seller_price, listing_bps,
}
use voltaris_mobility_backen.Writes.Closed.{OrderWrites, PaymentWrites}
use voltaris_mobility_backen.System.{Request, serve, serve-keeps}

-- A split: settlement and commission sum to the gross sale, and net revenue, fees and settlement
-- do too; the commission is not negative.
pub record IsSplit (c : Commission) : Type 0 where
  pub owner : ℤ
  pub agency : ℤ
  pub fees : ℤ
  pub net : ℤ
  pub owner_stored : c.owner_settlement ≡ some owner
  pub agency_stored : c.agency_commission ≡ some agency
  pub fees_stored : c.payment_fees ≡ some fees
  pub net_stored : c.net_revenue ≡ some net
  pub status : c.status ≡ CommissionStatus.pending
  pub sums : owner +ℤ agency ≡ c.gross_sale
  pub fees_from_agency : net +ℤ fees +ℤ owner ≡ c.gross_sale
  pub nonneg : pos 0 ≤ℤ agency

-- A sale that waits for a review: the gross sale is booked and nothing of it is allocated.
pub record IsUnallocated (c : Commission) : Type 0 where
  pub status : c.status ≡ needs_review
  pub owner : c.owner_settlement ≡ none
  pub agency : c.agency_commission ≡ none
  pub net : c.net_revenue ≡ none

abbrev pub IsSound : Commission → Type 0
IsSound c = IsSplit c ⊎ IsUnallocated c

document-IsSound :
    (settings : Settings) (row_id : String) (now : ℕ) (o : Order) (v : Vehicle) (r : Calculated)
    → split_order settings o v ≡ r
    → IsSound (commission_document row_id now o r)
unfolding split_order commission_document
document-IsSound settings row_id now o v (raised reason) e =
    inr (record { status = refl; owner = refl; agency = refl; net = refl })
document-IsSound settings row_id now o v (breakdown b) e =
    let split =
      calculate_split o.total (seller_price v.internal) o.currency
        (or_default (listing_bps v.internal) settings.default_commission_bps)
        settings.payment_fee_bps settings.payment_fee_fixed_minor b e in
    inl (record {
      owner = b.owner_settlement;
      agency = b.agency_commission;
      fees = b.payment_fees;
      net = b.net_revenue;
      owner_stored = refl;
      agency_stored = refl;
      fees_stored = refl;
      net_stored = refl;
      status = refl;
      sums = split.2 ∙ sym split.0;
      fees_from_agency = split.4 ∙ sym split.0;
      nonneg = split.5;
    })

pub record IsLedger (db : Db) : Type 0 where
  pub sound : All IsSound db.commissions
  pub once : Distinct commissions_clash db.commissions

commissions_clash_sym : (a b : Commission) → commissions_clash a b ≡ commissions_clash b a
unfolding commissions_clash
commissions_clash_sym a b = ground (arith, ==-sym a.id b.id, ==-sym a.order_id b.order_id)

order_writes : OrderWrites IsLedger
order_writes = record {
  placed = λ o s v db ds h none_match w. record { sound = h.sound; once = h.once };
  taken_back = λ order_id db d rest h w m. record { sound = h.sound; once = h.once };
  moved_order =
      λ seen target now legal db d d' rest ds h e w m v. record { sound = h.sound; once = h.once };
  held = λ vehicle_id now db d d' rest ds h e w m v. record { sound = h.sound; once = h.once };
  released = λ vehicle_id now db d d' rest ds h e w m v. record { sound = h.sound; once = h.once };
  sold_off = λ vehicle_id now db d d' rest ds h e w m v. record { sound = h.sound; once = h.once };
  claimed = λ row db ds h none_match w. record { sound = h.sound; once = h.once };
  completed = λ user_id endpoint key response db d d' rest ds h e w m v. record {
    sound = h.sound;
    once = h.once;
  };
  audited = λ entry db ds h none_match w. record { sound = h.sound; once = h.once };
}

payment_writes : PaymentWrites IsLedger
payment_writes = record {
  opened = λ x s v db ds h none_match w. record { sound = h.sound; once = h.once };
  attached =
      λ order_id payment_id db d d' rest ds h e w m v. record { sound = h.sound; once = h.once };
  moved_payment = λ seen target now transaction_id legal db d d' rest ds h e w m v. record {
    sound = h.sound;
    once = h.once;
  };
  logged = λ row db ds h none_match w. record { sound = h.sound; once = h.once };
  finished = λ row_id outcome db d d' rest ds h e w m v. record { sound = h.sound; once = h.once };
  booked = λ settings row_id now o v db ds h none_match w. record {
    sound =
        All-put IsSound w (document-IsSound settings row_id now o v (split_order settings o v) refl)
          h.sound;
    once = Distinct-put commissions_clash commissions_clash_sym w none_match h.once;
  };
}

-- Whatever requests are served, in whatever interleaving with other requests that keep the
-- same: every booked commission is either a split whose parts sum to the gross sale, with the
-- fees taken from the agency's part, or an unallocated sale marked for review; and no order is
-- booked twice.
pub serve-IsLedger :
    (p : Platform)
    → Stable p IsLedger
    → (requests : List Request) (s : State) → IsLedger s.db
    → IsLedger (serve p requests s).db
serve-IsLedger p stable = serve-keeps p stable order_writes payment_writes
