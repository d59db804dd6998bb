-- ===== src/Orders/Sound.antt =====
-- What a new order rests on: the vehicle as it is stored, and no number of the client's.
use voltaris_mobility_backen.Prelude.{
  String, string_eq, ◌==◌, ==-eq, ==-ne, not-eq-false, ◌≡◌, ◌≢◌, Bool, if◌then◌else◌, refl, sym, ap,
  ◌∙◌, subst, true, false, not, Option, none, some, List, [], ◌∷◌, arith,
}
use voltaris_mobility_backen.Prelude.Int.{ℤ, pos, int_eq, ◌≤ℤ◌, ◌*ℤ◌, ◌+ℤ◌, int_laws}
use voltaris_mobility_backen.Core.Errors.{app_error, vehicle_not_purchasable}
use voltaris_mobility_backen.Core.Platform.{Platform, IsQuiet}
use voltaris_mobility_backen.Core.Action.{Result, ok, err, State}
use voltaris_mobility_backen.Core.Returns.{
  Returns, Anything, IsQuiet-Stable, Returns-pure, Returns-or_raise, Returns-lift, Returns-then,
  Returns-map, Returns-after, Returns-raise_if, Returns-find_one,
}
use voltaris_mobility_backen.Database.Mongo.{With}
use voltaris_mobility_backen.Database.Collections
use voltaris_mobility_backen.Database.Collections.{Db}
use voltaris_mobility_backen.Vehicles.Models.{Vehicle, available, status_eq}
use voltaris_mobility_backen.Orders.Models.{OrderKind, OrderLine, OrderResponse, pending}
use voltaris_mobility_backen.Orders.Documents.{serialise, kind_disabled, is_live, vehicle_in}
use voltaris_mobility_backen.Orders.Pricing.{price, price_purchase, price_rental, or_default}
use voltaris_mobility_backen.Orders.Creation.{
  orderable_vehicle, place_order, create_new, create_order,
}

abbrev pub sum : List OrderLine → ℤ
sum [] = pos 0
sum (line ∷ lines) = line.amount +ℤ sum lines

-- The days that are charged for: those of the request, and one where it says none or zero.
pub data IsDays : Option ℤ → ℤ → Type 0 where
  unsaid : IsDays none (pos 1)
  zero_days : IsDays (some (pos 0)) (pos 1)
  said : (days : ℤ) → days ≢ pos 0 → IsDays (some days) days

-- The total that a vehicle costs: the daily price times the days, one to 365 of them, or the agency's
-- price. A price of zero is no price.
pub data Costs (v : Vehicle) (rental_days : Option ℤ) : OrderKind → ℤ → Type 0 where
  rented :
      (daily days : ℤ)
      → v.rental_price_per_day ≡ some daily
      → daily ≢ pos 0
      → IsDays rental_days days
      → pos 1 ≤ℤ days
      → days ≤ℤ pos 365
      → Costs v rental_days OrderKind.rental (daily *ℤ days)
  bought :
      (total : ℤ)
      → v.agency_price ≡ some total
      → total ≢ pos 0
      → Costs v rental_days OrderKind.purchase total
  held :
      (total : ℤ)
      → v.agency_price ≡ some total
      → total ≢ pos 0
      → Costs v rental_days OrderKind.reservation total

default-IsDays : (rental_days : Option ℤ) → IsDays rental_days (or_default rental_days (pos 1))
default-IsDays none = unsaid
default-IsDays (some n) = branch (n == pos 0) refl
  where
    branch : (b : Bool) → (n == pos 0) ≡ b → IsDays (some n) (if b then pos 1 else n)
    branch true e = subst (λ k. IsDays (some k) (pos 1)) (sym (==-eq n (pos 0) e)) zero_days
    branch false e = said n (==-ne n (pos 0) e)

one_line : (total : ℤ) → total +ℤ pos 0 ≡ total
one_line total = grind int_laws

-- A price that got past the test of `if not value`
priced :
    {A : Type 0} (n : ℤ) (r : Result A) (y : A)
    → (if n == pos 0 then err (app_error vehicle_not_purchasable) else r) ≡ ok y
    → n ≢ pos 0
priced n r y h = branch (n == pos 0) refl h
  where
    branch :
        (b : Bool)
        → (n == pos 0) ≡ b
        → (if b then err (app_error vehicle_not_purchasable) else r) ≡ ok y
        → n ≢ pos 0
    branch true e h = absurd (cc (h))
    branch false e h = ==-ne n (pos 0) e

purchase_lem :
    (listed : Option ℤ) (total : ℤ) (lines : List OrderLine)
    → price_purchase listed ≡ ok (total, lines)
    → ((listed ≡ some total) × (total ≢ pos 0)) × (sum lines ≡ total)
purchase_lem none total lines h = cc
purchase_lem (some n) total lines h =
    let (same, sums) = split in
    ((same, subst (λ t. t ≢ pos 0) (injective same) (priced n _ (total, lines) h)), sums)
  where
    injective : {A : Type 0} {a b : A} → some a ≡ some b → a ≡ b
    injective e = cc

    split : (some n ≡ some total) × (sum lines ≡ total)
    split = ground (arith, one_line total)

rental_lem :
    (daily rental_days : Option ℤ) (total : ℤ) (lines : List OrderLine)
    → price_rental daily rental_days ≡ ok (total, lines)
    → ((d : ℤ) × (daily ≡ some d) × (d ≢ pos 0) × (d *ℤ or_default rental_days (pos 1) ≡ total))
      × ((pos 1 ≤ℤ or_default rental_days (pos 1)) × (or_default rental_days (pos 1) ≤ℤ pos 365))
      × (sum lines ≡ total)
rental_lem none rental_days total lines h = cc
rental_lem (some n) rental_days total lines h = (
  (n, refl, priced n _ (total, lines) h, ground (arith, one_line total)),
  grind int_laws,
  ground (arith, one_line total),
)

-- The total that is asked is what the vehicle costs for the days of the request, and the lines sum
-- to it.
pub price_lem :
    (v : Vehicle) (kind : OrderKind) (rental_days : Option ℤ) (total : ℤ) (lines : List OrderLine)
    → price v kind rental_days ≡ ok (total, lines)
    → Costs v rental_days kind total × (sum lines ≡ total)
unfolding price
price_lem v OrderKind.rental rental_days total lines h =
    let ((daily, listed, priced, e), (low, high), s) =
      rental_lem v.rental_price_per_day rental_days total lines h in
    (
      subst (Costs v rental_days OrderKind.rental) e
          (Costs.rented daily _ listed priced (default-IsDays rental_days) low high),
      s,
    )
price_lem v OrderKind.purchase rental_days total lines h =
    let ((listed, priced), s) = purchase_lem v.agency_price total lines h in
    (Costs.bought total listed priced, s)
price_lem v OrderKind.reservation rental_days total lines h =
    let ((listed, priced), s) = purchase_lem v.agency_price total lines h in
    (Costs.held total listed priced, s)

-- A vehicle that can be ordered.
pub record IsOrderable (vehicle_id : String) (kind : OrderKind) (v : Vehicle) : Type 0 where
  pub id : v.id ≡ vehicle_id
  pub live : v.deleted_at ≡ none
  pub available : v.status ≡ available
  pub enabled : kind_disabled kind v ≡ false

none_ne_some : (u : Vehicle) → ¬ (Option.none ≡ some u)
none_ne_some u e = cc

is_live_lem : (v u : Vehicle) → is_live (some v) ≡ some u → (u ≡ v) × (v.deleted_at ≡ none)
is_live_lem v u h = ground arith

module _ (p : Platform) (quiet : IsQuiet p) (vehicles : List Vehicle) where
  abbrev SameVehicles : Db → Type 0
  SameVehicles db = db.vehicles ≡ vehicles

  orderable :
      (vehicle_id : String) (kind : OrderKind) (db : Db) (v u : Vehicle) (rest : List Vehicle)
      → SameVehicles db
      → With v rest db.vehicles
      → vehicle_in vehicle_id v ≡ true
      → is_live (some v) ≡ some u
      → not (u.status == available) ≡ false
      → kind_disabled kind u ≡ false
      → (rest : List Vehicle) × With u rest vehicles × IsOrderable vehicle_id kind u
  orderable vehicle_id kind db v u rest h w m live free enabled =
      let (e, kept) = is_live_lem v u live in
      (
        rest,
        subst (λ x. With x rest vehicles) (sym e) (subst (With v rest) h w),
        record {
          id = ap (λ (x : Vehicle). x.id) e ∙ ==-eq v.id vehicle_id m;
          live = ap (λ (x : Vehicle). x.deleted_at) e ∙ kept;
          available = ==-eq u.status available (not-eq-false _ free);
          enabled = enabled;
        },
      )

  orderable_vehicle-Returns :
      (vehicle_id : String) (kind : OrderKind)
      → Returns SameVehicles
          (orderable_vehicle p vehicle_id kind)
          (λ v. (rest : List Vehicle) × With v rest vehicles × IsOrderable vehicle_id kind v)
  unfolding orderable_vehicle
  orderable_vehicle-Returns vehicle_id kind =
      Returns-find_one p (IsQuiet-Stable SameVehicles quiet) Collections.vehicles _ _
        (λ db v rest h w m. Returns-or_raise _ _ _ (λ u live. Returns-raise_if _ _ _ (λ free.
          Returns-raise_if _ _ _ (λ enabled.
            Returns-pure u (orderable vehicle_id kind db v u rest h w m live free enabled)))))
        (λ db h none_match. Returns-or_raise _ _ _ (λ u live. absurd (none_ne_some u live)))

  -- `place_order` answers with the total and the lines that it was given, of the vehicle.
  place_order-Returns :
      (customer_id : String) (v : Vehicle) (kind : OrderKind) (total : ℤ) (lines : List OrderLine)
      (ip : Option String)
      → Returns Anything (place_order p customer_id v kind (total, lines) ip) (λ r.
        (r.total ≡ total) × (r.lines ≡ lines) × (r.vehicle_id ≡ v.id) × (r.status ≡ pending))
  unfolding place_order serialise
  place_order-Returns customer_id v kind total lines ip = Returns-after _ _ (λ order_id.
      Returns-after _ _ (λ now. Returns-after _ _ (λ order_reference. Returns-after _ _ (λ _.
        Returns-after _ _
          (λ _. Returns-after _ _ (λ _. Returns-pure _ (refl, refl, refl, refl)))))))

  create_new-Returns :
      (customer_id vehicle_id : String) (kind : OrderKind) (rental_days : Option ℤ)
      (ip : Option String)
      → Returns SameVehicles (create_new p customer_id vehicle_id kind rental_days ip) (λ r.
        (v : Vehicle) × (rest : List Vehicle) × With v rest vehicles
        × IsOrderable vehicle_id kind v
        × Costs v rental_days kind r.total
        × (sum r.lines ≡ r.total)
        × (r.vehicle_id ≡ vehicle_id)
        × (r.status ≡ pending))
  unfolding create_new
  create_new-Returns customer_id vehicle_id kind rental_days ip =
      Returns-then _ _ (orderable_vehicle-Returns vehicle_id kind) (λ v (rest, w, orderable).
        Returns-lift _ _ (λ priced e.
          let (costs, sums) = price_lem v kind rental_days priced.0 priced.1 e in
          Returns-map _
            (λ r (same_total, same_lines, same_vehicle, status). (
              v,
              rest,
              w,
              orderable,
              subst (Costs v rental_days kind) (sym same_total) costs,
              ap sum same_lines ∙ sums ∙ sym same_total,
              same_vehicle ∙ orderable.id,
              status,
            ))
            (place_order-Returns customer_id v kind priced.0 priced.1 ip)))

-- Alone on the database, an order without an idempotency key that is answered is one of a stored
-- vehicle with the given id that was available, not deleted and offered for that kind of order;
-- its total is what that vehicle costs for the days of the request, its lines sum to the total, and
-- it is pending.
pub create_order_lem :
    (p : Platform)
    → IsQuiet p
    → (customer_id vehicle_id : String) (kind : OrderKind) (rental_days : Option ℤ)
    → (ip : Option String) (s : State) (r : OrderResponse)
    → (create_order p customer_id vehicle_id kind rental_days none ip s).0 ≡ ok r
    → (v : Vehicle) × (rest : List Vehicle) × With v rest s.db.vehicles
      × IsOrderable vehicle_id kind v
      × Costs v rental_days kind r.total
      × (sum r.lines ≡ r.total)
      × (r.vehicle_id ≡ vehicle_id)
      × (r.status ≡ pending)
unfolding create_order
create_order_lem p quiet customer_id vehicle_id kind rental_days ip s r e =
    (create_new-Returns p quiet s.db.vehicles customer_id vehicle_id kind rental_days ip).at s refl
      r e
