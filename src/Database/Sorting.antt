-- ===== src/Database/Sorting.antt =====
-- The calls of the driver that touch many documents, in memory, with their laws.
use voltaris_mobility_backen.Prelude.{
  ℕ, ◌≡◌, refl, Bool, true, false, Option, List, [], ◌∷◌, map, if◌then◌else◌, length, drop,
}
use voltaris_mobility_backen.Database.With.{With, here, there}
use voltaris_mobility_backen.Database.Reads.{
  select, Sorting, Shuffled, nothing, put, IsHead, IsSorted, limited, ReadLaw, counted,
  changed_where, UpdateManyLaw,
}

module _ {D : Type 0} (sorting : Sorting D) where
  abbrev pub place : D → List D → List D
  place d [] = d ∷ []
  place d (e ∷ es) =
      let rest = place d es in if sorting.may_precede d e then d ∷ e ∷ es else e ∷ rest

  abbrev pub sort : List D → List D
  sort [] = []
  sort (d ∷ ds) = place d (sort ds)

  place-With : (d : D) (es : List D) → With d es (place d es)
  place-With d [] = here []
  place-With d (e ∷ es) = branch (place-With d es) (sorting.may_precede d e)
    where
      branch :
          With d es (place d es)
          → (b : Bool) → With d (e ∷ es) (if b then d ∷ e ∷ es else e ∷ place d es)
      branch rest true = here (e ∷ es)
      branch rest false = there e rest

  sort-Shuffled : (ds : List D) → Shuffled ds (sort ds)
  sort-Shuffled [] = nothing
  sort-Shuffled (d ∷ ds) = put (sort-Shuffled ds) (place-With d (sort ds))

  place-IsHead :
      (e d : D) (es : List D)
      → sorting.may_precede e d ≡ true
      → IsHead sorting e es
      → IsHead sorting e (place d es)
  place-IsHead e d [] m h = m
  place-IsHead e d (x ∷ es) m h = branch (sorting.may_precede d x)
    where
      branch : (b : Bool) → IsHead sorting e (if b then d ∷ x ∷ es else x ∷ place d es)
      branch true = m
      branch false = h

  place-IsSorted : (d : D) (es : List D) → IsSorted sorting es → IsSorted sorting (place d es)
  place-IsSorted d [] h = (tt, tt)
  place-IsSorted d (e ∷ es) h = branch (place-IsSorted d es h.1) (sorting.may_precede d e) refl
    where
      branch :
          IsSorted sorting (place d es)
          → (b : Bool) → sorting.may_precede d e ≡ b
          → IsSorted sorting (if b then d ∷ e ∷ es else e ∷ place d es)
      branch rest true m = (m, h)
      branch rest false m = (place-IsHead e d es (sorting.total d e m) h.0, rest)

  sort-IsSorted : (ds : List D) → IsSorted sorting (sort ds)
  sort-IsSorted [] = tt
  sort-IsSorted (d ∷ ds) = place-IsSorted d (sort ds) (sort-IsSorted ds)

module _ {D : Type 0} where
  unfoldable pub find_many : (D → Bool) → Sorting D → ℕ → ℕ → List D → List D
  find_many q sorting skip limit ds = limited limit (drop skip (sort sorting (select q ds)))

  unfoldable pub count_documents : (D → Bool) → Option ℕ → List D → ℕ
  count_documents q limit ds = counted limit (length (select q ds))

  unfoldable pub update_many : (D → Bool) → (D → D) → List D → ℕ × List D
  update_many q f ds = (length (select q ds), map (changed_where q f) ds)

  pub read_law :
      (q : D → Bool) (sorting : Sorting D) (skip limit : ℕ) (ds : List D)
      → ReadLaw q sorting skip limit ds (find_many q sorting skip limit ds)
  unfolding find_many
  read_law q sorting skip limit ds = record {
    matches = sort sorting (select q ds);
    same = sort-Shuffled sorting (select q ds);
    sorted = sort-IsSorted sorting (select q ds);
    part = refl;
  }

  pub count_law :
      (q : D → Bool) (limit : Option ℕ) (ds : List D)
      → count_documents q limit ds ≡ counted limit (length (select q ds))
  unfolding count_documents
  count_law q limit ds = refl

  Shuffled-refl : (ds : List D) → Shuffled ds ds
  Shuffled-refl [] = nothing
  Shuffled-refl (d ∷ ds) = put (Shuffled-refl ds) (here ds)

  pub update_many_law :
      (q : D → Bool) (f : D → D) (ds : List D) → UpdateManyLaw q f ds (update_many q f ds)
  unfolding update_many
  update_many_law q f ds = record { modified = refl; same = Shuffled-refl _ }
