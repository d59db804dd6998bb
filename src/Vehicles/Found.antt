-- ===== src/Vehicles/Found.antt =====
-- Which rows the query of `compare` finds: app/modules/vehicles/service.py. Where one vehicle has an
-- id, the limit of four cuts nothing off.
use voltaris_mobility_backen.Prelude.{
  suc, ◌≤◌, String, string_eq, ◌==◌, ==-eq, ==-refl, ◌≡◌, refl, sym, ap, ◌∙◌, subst, Bool, true,
  false, ◌&&◌, ◌||◌, is_some, Option, none, some, List, [], ◌∷◌, length, contains, All, All-map,
  arith, if◌then◌else◌,
}
use voltaris_mobility_backen.Database.Bags.{Distinct}
use voltaris_mobility_backen.Database.Reads.{Sorting, ReadLaw, select}
use voltaris_mobility_backen.Database.Rows.{length-Shuffled}
use voltaris_mobility_backen.Database.Matching.{
  any, select-none, select-or, select-and, take-all, any-Shuffled, any-select,
}
use voltaris_mobility_backen.Vehicles.Models.{Vehicle, status_eq}
use voltaris_mobility_backen.Vehicles.Filter.{visible}
use voltaris_mobility_backen.Vehicles.Service.{by_id, is_compared}

-- The primary key of the vehicles.
abbrev pub same_vehicle : Vehicle → Vehicle → Bool
same_vehicle a b = a.id == b.id

-- A stored vehicle of the id has a public status.
abbrev pub is_shown : List Vehicle → String → Bool
is_shown vs id = any (λ v. v.id == id && contains visible v.status) vs

one_of_id :
    (id : String) (vs : List Vehicle)
    → Distinct same_vehicle vs
    → length (select (λ v. id == v.id) vs) ≤ 1
one_of_id id [] h = omega arith
one_of_id id (v ∷ vs) h = branch (id == v.id) refl (one_of_id id vs h.1)
  where
    branch :
        (b : Bool)
        → (id == v.id) ≡ b
        → length (select (λ v. id == v.id) vs) ≤ 1
        → length (if b then v ∷ select (λ v. id == v.id) vs else select (λ v. id == v.id) vs) ≤ 1
    branch true e one =
        let none_left =
          select-none (λ w. id == w.id) vs
            (subst (λ i. All (λ w. (i == w.id) ≡ false) vs) (sym (==-eq id v.id e)) h.0) in
        subst (λ ws. suc (length ws) ≤ 1) (sym none_left) (omega arith)
    branch false e one = one

-- As many vehicles as ids at most
few_of_ids :
    (ids : List String) (vs : List Vehicle)
    → Distinct same_vehicle vs
    → length (select (λ v. contains ids v.id) vs) ≤ length ids
few_of_ids [] vs h =
    subst (λ ws. length ws ≤ 0) (sym (select-none (λ v. false) vs (all_false vs))) (omega arith)
  where
    all_false : (vs : List Vehicle) → All (λ v. false ≡ false) vs
    all_false [] = tt
    all_false (v ∷ vs) = (refl, all_false vs)
few_of_ids (id ∷ ids) vs h =
    let parts = select-or (λ v. id == v.id) (λ v. contains ids v.id) vs in
    let one = one_of_id id vs h in let more = few_of_ids ids vs h in omega (arith, parts, one, more)

found-any :
    (id : String) (rows : List Vehicle) → is_some (by_id id rows) ≡ any (λ v. v.id == id) rows
found-any id [] = refl
found-any id (row ∷ rows) = branch (by_id id rows) (row.id == id) (found-any id rows)
  where
    branch :
        (o : Option Vehicle) (b : Bool)
        → is_some o ≡ any (λ v. v.id == id) rows
        → is_some (elim o [ some later ↦ some later | none ↦ if b then some row else none ])
          ≡ (b || any (λ v. v.id == id) rows)
    branch none true h = refl
    branch none false h = h
    branch (some v) true h = refl
    branch (some v) false h = h

module _ {sorting : Sorting Vehicle} (ids : List String) {vs rows : List Vehicle}
    (law : ReadLaw (is_compared ids) sorting 0 4 vs rows) (distinct : Distinct same_vehicle vs)
    (few : length ids ≤ 4) where
  rows-all : rows ≡ law.matches
  rows-all =
      law.part
      ∙ take-all 4 law.matches (
          let size = length-Shuffled law.same in
          let at_most = select-and (λ v. contains ids v.id) (λ v. contains visible v.status) vs in
          let fewer = few_of_ids ids vs distinct in omega (arith, size, at_most, fewer, few))

  -- A row is found for an id of the caller exactly when a vehicle of the id is shown.
  pub found-is_shown :
      (id : String) → contains ids id ≡ true → is_some (by_id id rows) ≡ is_shown vs id
  found-is_shown id asked =
      found-any id rows
      ∙ ap (any (λ v. v.id == id)) rows-all
      ∙ any-Shuffled (λ v. v.id == id) law.same
      ∙ any-select (is_compared ids) (λ v. v.id == id)
          (λ v. v.id == id && contains visible v.status) vs
          (λ v.
            joined (contains ids v.id) (contains visible v.status) (v.id == id)
              (λ e. subst (λ i. contains ids i ≡ true) (sym (==-eq v.id id e)) asked))
    where
      joined : (x y z : Bool) → (z ≡ true → x ≡ true) → ((x && y) && z) ≡ (z && y)
      joined true true true h = refl
      joined true true false h = refl
      joined true false true h = refl
      joined true false false h = refl
      joined false y true h = absurd (cc (h refl))
      joined false y false h = refl

contains-later :
    (id : String) (ids xs : List String)
    → All (λ i. contains ids i ≡ true) xs
    → All (λ i. contains (id ∷ ids) i ≡ true) xs
contains-later id ids xs h = All-map _ _ xs (λ i e. later (id == i) (contains ids i) e) h
  where
    later : (x y : Bool) → y ≡ true → (x || y) ≡ true
    later true y e = refl
    later false y e = e

contains_self : (ids : List String) → All (λ i. contains ids i ≡ true) ids
contains_self [] = tt
contains_self (id ∷ ids) =
    (first (id == id) (contains ids id) (==-refl id), contains-later id ids ids (contains_self ids))
  where
    first : (x y : Bool) → x ≡ true → (x || y) ≡ true
    first true y e = refl
    first false y e = absurd (cc (e))

select-same :
    (q r : String → Bool) (ids : List String)
    → All (λ i. q i ≡ r i) ids
    → select q ids ≡ select r ids
select-same q r [] h = refl
select-same q r (id ∷ ids) h =
    ap (λ b. if b then id ∷ select q ids else select q ids) h.0
    ∙ ap (λ rest. if r id then id ∷ rest else rest) (select-same q r ids h.1)

module _ {sorting : Sorting Vehicle} (ids : List String) {vs rows : List Vehicle}
    (law : ReadLaw (is_compared ids) sorting 0 4 vs rows) (distinct : Distinct same_vehicle vs)
    (few : length ids ≤ 4) where
  pub select-is_shown : select (λ i. is_some (by_id i rows)) ids ≡ select (is_shown vs) ids
  select-is_shown =
      select-same _ _ ids (
        All-map _ _ ids (λ i asked. found-is_shown ids law distinct few i asked)
          (contains_self ids))
