-- ===== src/Core/Ends.antt =====
-- Where a call leaves the database, however it ends: from one with `I`, it is one with `J`.
use voltaris_mobility_backen.Prelude.{
  suc, ◌≡◌, refl, sym, subst, Bool, true, false, Option, none, some, List, if◌then◌else◌,
}
use voltaris_mobility_backen.Core.Errors.{ErrorCode}
use voltaris_mobility_backen.Core.Platform.{Platform}
use voltaris_mobility_backen.Core.Action.{
  Action, Result, ok, err, State, ◌>>=◌, continue, raise_if, find_one,
}
use voltaris_mobility_backen.Core.Keeps.{Keeps, Stable}
use voltaris_mobility_backen.Database.Mongo.{With, NoneMatch, FindLaw, found, missing}
use voltaris_mobility_backen.Database.Collections.{Db, Collection}

pub record Ends {A : Type 0} (I : Db → Type 0) (m : Action A) (J : Db → Type 0) : Type 0 where
  pub at : (s : State) → I s.db → J (m s).1.db

module _ {A : Type 0} {I J : Db → Type 0} where
  pub Ends-keeps : (m : Action A) → ((db : Db) → I db → J db) → Keeps I m → Ends I m J
  Ends-keeps m f km = record { at = λ s h. f _ (km.at s h) }

  pub Ends-if :
      (test : Bool) (body other : Action A)
      → (test ≡ true → Ends I body J)
      → (test ≡ false → Ends I other J)
      → Ends I (if test then body else other) J
  Ends-if true body other when_true when_false = when_true refl
  Ends-if false body other when_true when_false = when_false refl

  -- What is known to hold anyway.
  pub Ends-anyway : (m : Action A) → ((db : Db) → J db) → Ends I m J
  Ends-anyway m f = record { at = λ s h. f _ }

  pub Ends-weaken :
      {H : Db → Type 0} (m : Action A) → ((db : Db) → I db → H db) → Ends H m J → Ends I m J
  Ends-weaken m f e = record { at = λ s h. e.at s (f s.db h) }

module _ {A B : Type 0} {I J : Db → Type 0} (stop : (db : Db) → I db → J db) where
  continue-ends :
      (r : Result A) (f : A → Action B) (s : State)
      → ((a : A) → Ends I (f a) J)
      → I s.db
      → J (continue r f s).1.db
  continue-ends (ok a) f s ef h = (ef a).at s h
  continue-ends (err e) f s ef h = stop s.db h

  -- A raise stops where the first call ended.
  pub Ends-bind :
      (m : Action A) (f : A → Action B)
      → Keeps I m
      → ((a : A) → Ends I (f a) J)
      → Ends I (m >>= f) J
  unfolding ◌>>=◌
  Ends-bind m f km ef = record {
    at = λ s h. let (r, s') = m s in continue-ends r f s' ef (km.at s h);
  }

module _ {B : Type 0} {I J : Db → Type 0} where
  pub Ends-raise_if :
      (b : Bool) (e : ErrorCode) (f : Unit {0} → Action B)
      → ((db : Db) → I db → J db)
      → (b ≡ false → Ends I (f tt) J)
      → Ends I (raise_if b e >>= f) J
  unfolding ◌>>=◌
  Ends-raise_if true e f stop ef = record { at = λ s h. stop s.db h }
  Ends-raise_if false e f stop ef = record { at = λ s h. (ef refl).at s h }

  module _ {D : Type 0} (p : Platform) (stable : Stable p I) (c : Collection D) (q : D → Bool)
      (f : Option D → Action B) where
    pub Ends-find_one :
        ((db : Db) (d : D) (rest : List D)
          → I db
          → With d rest (c.docs db)
          → q d ≡ true
          → Ends I (f (some d)) J)
        → ((db : Db) → I db → NoneMatch q (c.docs db) → Ends I (f none) J)
        → Ends I (find_one p c q >>= f) J
    unfolding ◌>>=◌ find_one
    Ends-find_one hit miss = record {
      at = λ s h.
          let db = p.others s.calls s.db in
          read db (p.mongo.find_one q (c.docs db)) (p.mongo.find_law q (c.docs db))
            (stable.others s.calls s.db h) (record { db = db; calls = suc s.calls }) refl;
    }
      where
        read :
            (db : Db) (r : Option D)
            → FindLaw q (c.docs db) r
            → I db
            → (s : State) → s.db ≡ db
            → J (f r s).1.db
        read db r (found {d = d} rest w m) h s e = (hit db d rest h w m).at s (subst I (sym e) h)
        read db r (missing none_match) h s e = (miss db h none_match).at s (subst I (sym e) h)
