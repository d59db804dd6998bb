-- ===== src/Core/Many.antt =====
-- Calls that read or count many documents: what they keep, and what they hand on.
use voltaris_mobility_backen.Prelude.{ℕ, suc, ◌≡◌, refl, Bool, true, false, Option, List, length}
use voltaris_mobility_backen.Core.Errors.{ErrorCode}
use voltaris_mobility_backen.Core.Platform.{Platform}
use voltaris_mobility_backen.Core.Action.{
  Action, raise_if, ◌>>=◌, find_many, count_documents, update_many,
}
use voltaris_mobility_backen.Core.Keeps.{Keeps, Stable, Ignores}
use voltaris_mobility_backen.Core.Returns.{Returns}
use voltaris_mobility_backen.Database.Reads.{Sorting, ReadLaw, select, counted}
use voltaris_mobility_backen.Database.Collections.{Db, Collection}

module _ (p : Platform) {D : Type 0} (c : Collection D) where
  module _ {P : Db → Type 0} (stable : Stable p P) where
    pub Keeps-find_many :
        (q : D → Bool) (sorting : Sorting D) (skip limit : ℕ)
        → Keeps P (find_many p c q sorting skip limit)
    unfolding find_many
    Keeps-find_many q sorting skip limit = record { at = λ s h. stable.others s.calls s.db h }

    pub Keeps-count_documents :
        (q : D → Bool) (limit : Option ℕ) → Keeps P (count_documents p c q limit)
    unfolding count_documents
    Keeps-count_documents q limit = record { at = λ s h. stable.others s.calls s.db h }

    pub Keeps-update_many : (q : D → Bool) (f : D → D) → Ignores P c → Keeps P (update_many p c q f)
    unfolding update_many
    Keeps-update_many q f ignored = record {
      at = λ s h. ignored.at _ _ (stable.others s.calls s.db h);
    }

  module _ {B : Type 0} {I : Db → Type 0} {Q : B → Type 0} (stable : Stable p I)
      (q : D → Bool) where
    pub Returns-find_many :
        (sorting : Sorting D) (skip limit : ℕ) (f : List D → Action B)
        → ((db : Db) (rows : List D)
            → I db
            → ReadLaw q sorting skip limit (c.docs db) rows
            → Returns I (f rows) Q)
        → Returns I (find_many p c q sorting skip limit >>= f) Q
    unfolding ◌>>=◌ find_many
    Returns-find_many sorting skip limit f read = record {
      at = λ s h b x.
          let db = p.others s.calls s.db in
          let kept = stable.others s.calls s.db h in
          (read db _ kept (p.mongo.read_law q sorting skip limit (c.docs db))).at
            (record { db = db; calls = suc s.calls }) kept b x;
    }

    pub Returns-count_documents :
        (limit : Option ℕ) (f : ℕ → Action B)
        → ((db : Db) (n : ℕ)
            → I db
            → n ≡ counted limit (length (select q (c.docs db)))
            → Returns I (f n) Q)
        → Returns I (count_documents p c q limit >>= f) Q
    unfolding ◌>>=◌ count_documents
    Returns-count_documents limit f read = record {
      at = λ s h b x.
          let db = p.others s.calls s.db in
          let kept = stable.others s.calls s.db h in
          (read db _ kept (p.mongo.count_law q limit (c.docs db))).at
            (record { db = db; calls = suc s.calls }) kept b x;
    }

-- A guard that is the last step.
pub Returns-guard :
    {I : Db → Type 0} {Q : Unit {0} → Type 0} (b : Bool) (e : ErrorCode)
    → (b ≡ false → Q tt)
    → Returns I (raise_if b e) Q
Returns-guard true e f = record { at = λ s h a x. cc }
Returns-guard false e f = record { at = λ s h a x. f refl }
