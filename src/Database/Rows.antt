-- ===== src/Database/Rows.antt =====
-- What is known of the rows that a read returns: they match, and they are documents of the
-- collection.
use voltaris_mobility_backen.Prelude.{
  ℕ, suc, zero, ◌+◌, ◌≡◌, refl, sym, ap, ◌∙◌, subst, Bool, true, false, List, [], ◌∷◌,
  if◌then◌else◌, length, drop, All, All-map, All-take_list, All-drop, length-take, ◌≤◌, arith,
}
use voltaris_mobility_backen.Database.With.{With, here, there}
use voltaris_mobility_backen.Database.Bags.{All-put}
use voltaris_mobility_backen.Database.Reads.{
  select, Sorting, Shuffled, nothing, put, ReadLaw, limited,
}

-- The document is one of the list.
abbrev pub IsIn : {D : Type 0} → List D → D → Type 0
IsIn {D} ds d = (rest : List D) × With d rest ds

-- It is one, and it matches.
abbrev pub IsMatch : {D : Type 0} → (D → Bool) → List D → D → Type 0
IsMatch q ds d = (q d ≡ true) × IsIn ds d

module _ {D : Type 0} where
  IsMatch-later :
      (q : D → Bool) (e : D) (ds xs : List D) → All (IsMatch q ds) xs → All (IsMatch q (e ∷ ds)) xs
  IsMatch-later q e ds xs h = All-map _ _ xs (λ x m. (m.0, (e ∷ m.1.0, there e m.1.1))) h

  select-IsMatch : (q : D → Bool) (ds : List D) → All (IsMatch q ds) (select q ds)
  select-IsMatch q [] = tt
  select-IsMatch q (d ∷ ds) = branch (IsMatch-later q d ds _ (select-IsMatch q ds)) (q d) refl
    where
      branch :
          All (IsMatch q (d ∷ ds)) (select q ds)
          → (b : Bool) → q d ≡ b
          → All (IsMatch q (d ∷ ds)) (if b then d ∷ select q ds else select q ds)
      branch rest true m = ((m, (ds, here ds)), rest)
      branch rest false m = rest

  pub All-Shuffled : (P : D → Type 0) {ds es : List D} → Shuffled ds es → All P ds → All P es
  All-Shuffled P nothing h = tt
  All-Shuffled P (put s w) h = All-put P w h.0 (All-Shuffled P s h.1)

  length-With : {d : D} {rest ds : List D} → With d rest ds → length ds ≡ suc (length rest)
  length-With (here rest) = refl
  length-With (there e w) = ap suc (length-With w)

  pub length-Shuffled : {ds es : List D} → Shuffled ds es → length es ≡ length ds
  length-Shuffled nothing = refl
  length-Shuffled (put s w) = length-With w ∙ ap suc (length-Shuffled s)

  All-limited : (P : D → Type 0) (n : ℕ) (ds : List D) → All P ds → All P (limited n ds)
  All-limited P zero ds h = h
  All-limited P (suc n) ds h = All-take_list P (suc n) ds h

  pub length-limited : (n : ℕ) (ds : List D) → 1 ≤ n → length (limited n ds) ≤ n
  length-limited zero ds h = absurd (omega (arith))
  length-limited (suc n) ds h = length-take (suc n) ds

  module _ {q : D → Bool} {sorting : Sorting D} {skip limit : ℕ} {ds rows : List D}
      (law : ReadLaw q sorting skip limit ds rows) where
    -- A property of all matches holds of the rows.
    pub rows-All : (P : D → Type 0) → ((d : D) → IsMatch q ds d → P d) → All P rows
    rows-All P f = subst (All P) (sym law.part) (
        All-limited P limit _ (
          All-drop P skip law.matches
            (All-Shuffled P law.same (All-map _ _ (select q ds) f (select-IsMatch q ds)))))

    pub rows-length : 1 ≤ limit → length rows ≤ limit
    rows-length h =
        subst (λ rs. length rs ≤ limit) (sym law.part)
          (length-limited limit (drop skip law.matches) h)

module _ {D : Type 0} (q : D → Bool) where
  -- How much a document counts in a selection.
  abbrev pub weight : D → ℕ
  weight d = if q d then 1 else 0

  select-cons : (d : D) (ds : List D) → length (select q (d ∷ ds)) ≡ weight d + length (select q ds)
  select-cons d ds = branch (q d)
    where
      branch :
          (b : Bool)
          → length (if b then d ∷ select q ds else select q ds)
            ≡ (if b then 1 else 0) + length (select q ds)
      branch true = omega arith
      branch false = omega arith

  pub select-With :
      {d : D} {rest ds : List D}
      → With d rest ds
      → length (select q ds) ≡ weight d + length (select q rest)
  select-With {d} (here rest) = select-cons d rest
  select-With {d} (there e {rest = rest} {ds = ds} w) =
      let ih = select-With w in
      let a = select-cons e ds in let b = select-cons e rest in omega arith
