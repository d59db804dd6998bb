-- ===== src/Vehicles/Comparison.antt =====
-- What a comparison shows: `VehicleService.compare` of app/modules/vehicles/service.py.
use voltaris_mobility_backen.Prelude.{
  ℕ, ◌≤◌, String, string_eq, ◌==◌, ==-eq, ◌≡◌, refl, ap, ◌∙◌, subst, Bool, true, false, ◌||◌,
  and-true, is_some, eqb, ltb, Option, none, some, List, [], ◌∷◌, map, length, contains, All, arith,
  if◌then◌else◌,
}
use voltaris_mobility_backen.Core.Platform.{Platform, IsQuiet}
use voltaris_mobility_backen.Core.Action.{ok, State}
use voltaris_mobility_backen.Core.Keeps.{Keeps, Keeps-pure, Keeps-bind}
use voltaris_mobility_backen.Core.Returns.{
  Returns, IsQuiet-Stable, Returns-pure, Returns-map, Returns-keep, Returns-raise_if,
}
use voltaris_mobility_backen.Core.Many.{Returns-find_many}
use voltaris_mobility_backen.Database.Bags.{Distinct}
use voltaris_mobility_backen.Database.Keys.{unsorted}
use voltaris_mobility_backen.Database.Reads.{ReadLaw, select}
use voltaris_mobility_backen.Database.Rows.{IsIn, rows-All}
use voltaris_mobility_backen.Database.Collections
use voltaris_mobility_backen.Database.Collections.{Db}
use voltaris_mobility_backen.Vehicles.Models.{Vehicle, status_eq}
use voltaris_mobility_backen.Vehicles.Filter.{visible}
use voltaris_mobility_backen.Vehicles.Views.{summary, Seller, Detail, detail_of}
use voltaris_mobility_backen.Vehicles.Service.{details, compare, is_compared, by_id, in_order}
use voltaris_mobility_backen.Vehicles.Found.{same_vehicle, is_shown, select-is_shown}
use voltaris_mobility_backen.Vehicles.Sound.{SameShop}
use voltaris_mobility_backen.Vehicles.Details.{detail-Returns, detail-Keeps}

-- The row that was found for an id is one of the rows, and that of the id.
abbrev IsFound : (Vehicle → Type 0) → String → Option Vehicle → Type 0
IsFound P id none = Unit
IsFound P id (some v) = (v.id ≡ id) × P v

module _ (P : Vehicle → Type 0) where
  by_id-IsFound : (id : String) (rows : List Vehicle) → All P rows → IsFound P id (by_id id rows)
  by_id-IsFound id [] h = tt
  by_id-IsFound id (row ∷ rows) h =
      pick (by_id id rows) (by_id-IsFound id rows h.1) (row.id == id) refl
    where
      pick :
          (later : Option Vehicle)
          → IsFound P id later
          → (b : Bool) → (row.id == id) ≡ b
          → IsFound P id (elim later [ some x ↦ some x | none ↦ if b then some row else none ])
      pick (some x) known b m = known
      pick none known true m = (==-eq _ _ m, h.0)
      pick none known false m = tt

  in_order-All : (ids : List String) (rows : List Vehicle) → All P rows → All P (in_order ids rows)
  in_order-All [] rows h = tt
  in_order-All (id ∷ ids) rows h =
      step (by_id id rows) (by_id-IsFound id rows h) (in_order-All ids rows h)
    where
      step :
          (o : Option Vehicle)
          → IsFound P id o
          → All P (in_order ids rows)
          → All P (elim o [ none ↦ in_order ids rows | some v ↦ v ∷ in_order ids rows ])
      step none known rest = rest
      step (some v) known rest = (known.1, rest)

  -- The vehicles come in the order of the ids.
  in_order-ids :
      (ids : List String) (rows : List Vehicle)
      → All P rows
      → map (λ v. v.id) (in_order ids rows) ≡ select (λ i. is_some (by_id i rows)) ids
  in_order-ids [] rows h = refl
  in_order-ids (id ∷ ids) rows h =
      step (by_id id rows) (by_id-IsFound id rows h) (in_order-ids ids rows h)
    where
      step :
          (o : Option Vehicle)
          → IsFound P id o
          → map (λ v. v.id) (in_order ids rows) ≡ select (λ i. is_some (by_id i rows)) ids
          → map (λ v. v.id) (elim o [ none ↦ in_order ids rows | some v ↦ v ∷ in_order ids rows ])
            ≡ (if is_some o
                then id ∷ select (λ i. is_some (by_id i rows)) ids
                else select (λ i. is_some (by_id i rows)) ids)
      step none found rest = rest
      step (some v) found rest = cc (found.0, rest)

-- What a comparison of `ids` answers with: one to four ids, and a detail for each of them of which
-- a stored vehicle has a public status, in the caller's order.
pub record IsComparison (ids : List String) (db : Db) (ds : List Detail) : Type 0 where
  pub vehicles : List Vehicle
  pub stored :
      All
        (λ v. IsIn db.vehicles v × (contains visible v.status ≡ true) × (contains ids v.id ≡ true))
        vehicles
  pub shown : map (λ d. d.listing) ds ≡ map summary vehicles
  pub order : map (λ v. v.id) vehicles ≡ select (is_shown db.vehicles) ids
  pub limits : (1 ≤ length ids) × (length ids ≤ 4)

shown-cons :
    (d : Detail) (ds : List Detail) (v : Vehicle) (vs : List Vehicle) {Q : Seller → Type 0}
    → (s : Seller) × Q s × (d ≡ detail_of v s)
    → map (λ (x : Detail). x.listing) ds ≡ map summary vs
    → map (λ (x : Detail). x.listing) (d ∷ ds) ≡ map summary (v ∷ vs)
unfolding detail_of
shown-cons d ds v vs (s, known, e) rest = cc (ap (λ (x : Detail). x.listing) e, rest)

limits_lem : (n : ℕ) → (eqb n 0 || ltb 4 n) ≡ false → (1 ≤ n) × (n ≤ 4)
limits_lem n h = ground arith

module _ (p : Platform) (quiet : IsQuiet p) (before : Db)
    (distinct : Distinct same_vehicle before.vehicles) where
  details-Keeps : (vs : List Vehicle) → Keeps (SameShop before) (details p vs)
  unfolding details
  details-Keeps [] = Keeps-pure []
  details-Keeps (v ∷ vs) =
      Keeps-bind _ _ (detail-Keeps p quiet before v)
        (λ d. Keeps-bind _ _ (details-Keeps vs) (λ ds. Keeps-pure _))

  details-Returns :
      (vs : List Vehicle)
      → Returns (SameShop before) (details p vs) (λ ds. map (λ d. d.listing) ds ≡ map summary vs)
  unfolding details
  details-Returns [] = Returns-pure [] refl
  details-Returns (v ∷ vs) =
      Returns-keep _ _ (detail-Keeps p quiet before v) (detail-Returns p quiet before v) (λ d known.
        Returns-keep _ _ (details-Keeps vs) (details-Returns vs)
          (λ ds rest. Returns-pure _ (shown-cons d ds v vs known rest)))

  compare-Returns :
      (ids : List String) → Returns (SameShop before) (compare p ids) (IsComparison ids before)
  unfolding compare
  compare-Returns ids = Returns-raise_if _ _ _ (λ few.
      Returns-find_many p Collections.vehicles (IsQuiet-Stable _ quiet) _ _ _ _ _
        (λ db rows same law.
          let limits = limits_lem (length ids) few in
          let law' = subst (λ vs. ReadLaw (is_compared ids) unsorted 0 4 vs rows) same.0 law in
          let here = rows-All law _ (λ v m. (
            subst (λ vs. IsIn vs v) same.0 m.1,
            (and-true (contains ids v.id) (contains visible v.status) m.0).1,
            (and-true (contains ids v.id) (contains visible v.status) m.0).0,
          )) in
          Returns-map _
            (λ ds shown. record {
              vehicles = in_order ids rows;
              stored = in_order-All _ ids rows here;
              shown = shown;
              order = in_order-ids _ ids rows here ∙ select-is_shown ids law' distinct limits.1;
              limits = limits;
            })
            (details-Returns (in_order ids rows))))

-- Alone on the database, with one vehicle to an id, a comparison that is answered is one of one to
-- four ids; it shows a detail for each of these ids of which a stored vehicle has a public status,
-- and none for the others, in the order in which the caller named them.
pub compare_lem :
    (p : Platform)
    → IsQuiet p
    → (ids : List String) (s : State) → Distinct same_vehicle s.db.vehicles
    → (ds : List Detail) → (compare p ids s).0 ≡ ok ds
    → IsComparison ids s.db ds
compare_lem p quiet ids s distinct ds e =
    (compare-Returns p quiet s.db distinct ids).at s (refl, refl) ds e
