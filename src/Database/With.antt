-- ===== src/Database/With.antt =====
-- One document of a collection, and the others.
use voltaris_mobility_backen.Prelude.{List, ◌∷◌}

-- `ds` holds `d` and the documents of `rest`.
pub data With {D : Type 0} (d : D) : List D → List D → Type 0 where
  here : (rest : List D) → With d rest (d ∷ rest)
  there : (e : D) {rest ds : List D} → With d rest ds → With d (e ∷ rest) (e ∷ ds)
