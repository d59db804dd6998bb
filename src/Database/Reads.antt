-- ===== src/Database/Reads.antt =====
-- What the driver documents of its calls that touch many documents: `find(query).sort(key)`, with
-- `.skip(n).limit(m)`, `count_documents` and `update_many`.
use voltaris_mobility_backen.Prelude.{
  ℕ, zero, suc, ◌≡◌, Bool, true, false, Option, none, some, List, [], ◌∷◌, map, if◌then◌else◌, ltb,
  length, take, drop,
}
use voltaris_mobility_backen.Database.With.{With}

-- The documents that match, in the order in which the collection holds them.
abbrev pub select : {D : Type 0} → (D → Bool) → List D → List D
select q [] = []
select q (d ∷ ds) = let rest = select q ds in if q d then d ∷ rest else rest

-- A sort key, as a test whether one document may stand before another.
pub record Sorting (D : Type 0) : Type 0 where
  pub may_precede : D → D → Bool
  pub total : (a b : D) → may_precede a b ≡ false → may_precede b a ≡ true

-- The same documents in another order.
pub data Shuffled {D : Type 0} : List D → List D → Type 0 where
  nothing : Shuffled [] []
  put : {d : D} {ds rest es : List D} → Shuffled ds rest → With d rest es → Shuffled (d ∷ ds) es

module _ {D : Type 0} (sorting : Sorting D) where
  abbrev pub IsHead : D → List D → Type 0
  IsHead d [] = Unit
  IsHead d (e ∷ es) = sorting.may_precede d e ≡ true

  -- Each document may stand before the next one.
  abbrev pub IsSorted : List D → Type 0
  IsSorted [] = Unit
  IsSorted (d ∷ ds) = IsHead d ds × IsSorted ds

-- `.limit(0)` is no limit.
abbrev pub limited : {D : Type 0} → ℕ → List D → List D
limited zero ds = ds
limited (suc n) ds = take (suc n) ds

-- The matches, sorted; the result is the part of them after the first `skip`, up to `limit`.
pub record ReadLaw {D : Type 0} (q : D → Bool) (sorting : Sorting D) (skip limit : ℕ)
    (ds rs : List D) : Type 0 where
  pub matches : List D
  pub same : Shuffled (select q ds) matches
  pub sorted : IsSorted sorting matches
  pub part : rs ≡ limited limit (drop skip matches)

-- `count_documents(query, limit=…)`
abbrev pub counted : Option ℕ → ℕ → ℕ
counted none n = n
counted (some limit) n = if ltb limit n then limit else n

-- `update_many`: every match is changed. The call site shows that the change leaves the unique
-- indexes alone and that a changed document no longer matches, so that each match counts as
-- modified.
abbrev pub changed_where : {D : Type 0} → (D → Bool) → (D → D) → D → D
changed_where q f d = if q d then f d else d

pub record UpdateManyLaw {D : Type 0} (q : D → Bool) (f : D → D) (ds : List D) (r : ℕ × List D)
    : Type 0 where
  pub modified : r.0 ≡ length (select q ds)
  pub same : Shuffled (map (changed_where q f) ds) r.1

abbrev pub IsUnindexed : {D : Type 0} → (D → D → Bool) → (D → D) → Type 0
IsUnindexed {D} clash f = (a b : D) → clash (f a) b ≡ clash a b
