-- ===== src/Database/Mongo.antt =====
-- The document database, a service outside the repository: what the code uses of the driver's
-- operations on one collection, as a parameter, with the documented behaviour of each as a law.
-- A collection is a bag of documents; which of several matches an operation picks is left open.
use voltaris_mobility_backen.Prelude.{
  ℕ, ◌≡◌, Bool, true, false, Option, none, some, List, length, All,
}
pub use voltaris_mobility_backen.Database.With.{With, here, there}
use voltaris_mobility_backen.Database.Reads.{
  Sorting, ReadLaw, select, counted, UpdateManyLaw, IsUnindexed,
}

abbrev pub NoneMatch : {D : Type 0} → (D → Bool) → List D → Type 0
NoneMatch q = All (λ d. q d ≡ false)

-- `find_one(query)`: a document that matches, or None when there is none.
pub data FindLaw {D : Type 0} (q : D → Bool) (ds : List D) : Option D → Type 0 where
  found : {d : D} (rest : List D) → With d rest ds → q d ≡ true → FindLaw q ds (some d)
  missing : NoneMatch q ds → FindLaw q ds none

-- `insert_one(document)`, which raises `DuplicateKeyError` where a unique index is violated.
pub data InsertLaw {D : Type 0} (clash : D → D → Bool) (d : D) (ds : List D)
    : Option (List D) → Type 0 where
  inserted :
      {ds' : List D} → NoneMatch (clash d) ds → With d ds ds' → InsertLaw clash d ds (some ds')
  duplicate :
      (e : D) (rest : List D) → With e rest ds → clash d e ≡ true → InsertLaw clash d ds none

-- The end of `update_one` or `find_one_and_update(return_document=True)`: no document matched, the
-- change was refused by a unique index, or one document was replaced.
pub data Update (D : Type 0) : Type 0 where
  unmatched rejected : Update D
  updated : D → List D → Update D

pub data UpdateLaw {D : Type 0} (clash : D → D → Bool) (q : D → Bool) (f : D → D) (ds : List D)
    : Update D → Type 0 where
  nothing_matched : NoneMatch q ds → UpdateLaw clash q f ds unmatched
  change_refused :
      (d e : D) (rest others : List D)
      → With d rest ds
      → q d ≡ true
      → With e others rest
      → clash (f d) e ≡ true
      → UpdateLaw clash q f ds rejected
  changed :
      (d d' : D) {rest ds' : List D}
      → d' ≡ f d
      → With d rest ds
      → q d ≡ true
      → NoneMatch (clash d') rest
      → With d' rest ds'
      → UpdateLaw clash q f ds (updated d' ds')

-- `delete_one(query)` and `find_one_and_delete(query)`.
pub data DeleteLaw {D : Type 0} (q : D → Bool) (ds : List D) : Option (D × List D) → Type 0 where
  deleted : (d : D) {rest : List D} → With d rest ds → q d ≡ true → DeleteLaw q ds (some (d, rest))
  absent : NoneMatch q ds → DeleteLaw q ds none

-- The first argument of `insert` and `update` is the collection's unique indexes, as a test for
-- two documents that may not stand together.
pub record Mongo : Type 1 where
  pub find_one : {D : Type 0} → (D → Bool) → List D → Option D
  pub insert_one : {D : Type 0} → (D → D → Bool) → D → List D → Option (List D)
  pub update_one : {D : Type 0} → (D → D → Bool) → (D → Bool) → (D → D) → List D → Update D
  pub delete_one : {D : Type 0} → (D → Bool) → List D → Option (D × List D)
  pub find_many : {D : Type 0} → (D → Bool) → Sorting D → ℕ → ℕ → List D → List D
  pub count_documents : {D : Type 0} → (D → Bool) → Option ℕ → List D → ℕ
  pub update_many : {D : Type 0} → (D → Bool) → (D → D) → List D → ℕ × List D
  pub find_law : {D : Type 0} (q : D → Bool) (ds : List D) → FindLaw q ds (find_one q ds)
  pub insert_law :
      {D : Type 0} (clash : D → D → Bool) (d : D) (ds : List D)
      → InsertLaw clash d ds (insert_one clash d ds)
  pub update_law :
      {D : Type 0} (clash : D → D → Bool) (q : D → Bool) (f : D → D) (ds : List D)
      → UpdateLaw clash q f ds (update_one clash q f ds)
  pub delete_law : {D : Type 0} (q : D → Bool) (ds : List D) → DeleteLaw q ds (delete_one q ds)
  pub read_law :
      {D : Type 0} (q : D → Bool) (sorting : Sorting D) (skip limit : ℕ) (ds : List D)
      → ReadLaw q sorting skip limit ds (find_many q sorting skip limit ds)
  pub count_law :
      {D : Type 0} (q : D → Bool) (limit : Option ℕ) (ds : List D)
      → count_documents q limit ds ≡ counted limit (length (select q ds))
  pub update_many_law :
      {D : Type 0} (clash : D → D → Bool) (q : D → Bool) (f : D → D) (ds : List D)
      → IsUnindexed clash f
      → ((d : D) → q d ≡ true → q (f d) ≡ false)
      → UpdateManyLaw q f ds (update_many q f ds)
