-- ===== src/Core/Leaves.antt =====
-- Where a call that returns leaves the database: from one with `I`, it is one with `J`.
use voltaris_mobility_backen.Prelude.{
  suc, ◌≡◌, refl, Bool, true, false, Option, none, some, List, map,
}
use voltaris_mobility_backen.Core.Errors.{ErrorCode}
use voltaris_mobility_backen.Core.Platform.{Platform}
use voltaris_mobility_backen.Core.Action.{
  Action, Result, ok, err, State, ◌>>=◌, continue, or_raise, insert_one, inserted_in, update_one,
  update_many, updated_in,
}
use voltaris_mobility_backen.Core.Keeps.{Keeps, Stable}
use voltaris_mobility_backen.Core.Ends.{Ends}
use voltaris_mobility_backen.Database.Mongo.{
  With, NoneMatch, InsertLaw, inserted, duplicate, Update, UpdateLaw, nothing_matched,
  change_refused, changed,
}
use voltaris_mobility_backen.Database.Reads.{IsUnindexed, changed_where, Shuffled}
use voltaris_mobility_backen.Database.Collections.{Db, Collection}

pub record Leaves {A : Type 0} (I : Db → Type 0) (m : Action A) (J : Db → Type 0) : Type 0 where
  pub at : (s : State) → I s.db → (a : A) → (m s).0 ≡ ok a → J (m s).1.db

module _ {A : Type 0} {I J : Db → Type 0} where
  -- However it ends, so also if it returns.
  pub Leaves-ends : (m : Action A) → Ends I m J → Leaves I m J
  Leaves-ends m ends = record { at = λ s h a e. ends.at s h }

  pub Leaves-keeps : (m : Action A) → ((db : Db) → I db → J db) → Keeps J m → Leaves I m J
  Leaves-keeps m f kept = record { at = λ s h a e. kept.at s (f s.db h) }

module _ {A B : Type 0} {K J : Db → Type 0} where
  continue-leaves :
      (r : Result A) (f : A → Action B) (s : State) (b : B)
      → ((a : A) → r ≡ ok a → K s.db)
      → ((a : A) → Leaves K (f a) J)
      → (continue r f s).0 ≡ ok b
      → J (continue r f s).1.db
  continue-leaves (ok a) f s b first next e = (next a).at s (first a refl) b e
  continue-leaves (err x) f s b first next e = absurd (cc (e))

module _ {A B : Type 0} {I K J : Db → Type 0} where
  -- The rest starts where the first call left the database.
  pub Leaves-then :
      (m : Action A) (f : A → Action B)
      → Leaves I m K
      → ((a : A) → Leaves K (f a) J)
      → Leaves I (m >>= f) J
  unfolding ◌>>=◌
  Leaves-then m f first next = record {
    at = λ s h b e. let (r, s') = m s in continue-leaves r f s' b (λ a x. first.at s h a x) next e;
  }

module _ {A B : Type 0} {I J : Db → Type 0} where
  pub Leaves-bind :
      (m : Action A) (f : A → Action B)
      → Keeps I m
      → ((a : A) → Leaves I (f a) J)
      → Leaves I (m >>= f) J
  Leaves-bind m f kept next = Leaves-then m f (Leaves-keeps m (λ db h. h) kept) next

  pub Leaves-or_raise :
      (o : Option A) (e : ErrorCode) (f : A → Action B)
      → ((a : A) → Leaves I (f a) J)
      → Leaves I (or_raise o e >>= f) J
  unfolding ◌>>=◌
  Leaves-or_raise none e f next = record { at = λ s h b x. absurd (cc (x)) }
  Leaves-or_raise (some a) e f next = record { at = λ s h b x. (next a).at s h b x }

module _ {D : Type 0} (I J : Db → Type 0) (c : Collection D) (q : D → Bool) (f : D → D) where
  -- What the caller shows of a write: it found no document, or it changed one.
  abbrev pub IsUpdate : Type 0
  IsUpdate =
      (db : Db)
      → I db
      → (NoneMatch q (c.docs db) → J db)
        × ((d d' : D) (rest ds : List D)
            → d' ≡ f d
            → With d rest (c.docs db)
            → q d ≡ true
            → With d' rest ds
            → J (c.replace ds db))

module _ (p : Platform) {D : Type 0} (c : Collection D) {I J : Db → Type 0} (q : D → Bool)
    (f : D → D) where
  update-leaves :
      (r : Update D) (s : State) (a : Option D)
      → UpdateLaw c.clash q f (c.docs s.db) r
      → IsUpdate I J c q f
      → I s.db
      → (updated_in c r s).0 ≡ ok a
      → J (updated_in c r s).1.db
  update-leaves r s a (nothing_matched none_match) put h e = (put s.db h).0 none_match
  update-leaves r s a (change_refused d x rest others w m v y) put h e = absurd (cc (e))
  update-leaves r s a (changed d d' {rest = rest} {ds' = ds} e w m none_match v) put h x =
      (put s.db h).1 d d' rest ds e w m v

  -- A change that an index refuses raises, so it does not count.
  pub Leaves-update_one : Stable p I → IsUpdate I J c q f → Leaves I (update_one p c q f) J
  unfolding update_one
  Leaves-update_one stable put = record {
    at = λ s h a e.
        let db = p.others s.calls s.db in
        update-leaves (p.mongo.update_one c.clash q f (c.docs db))
          (record { db = db; calls = suc s.calls }) a (p.mongo.update_law c.clash q f (c.docs db))
          put (stable.others s.calls s.db h) e;
  }

  pub Ends-update_many :
      Stable p I
      → IsUnindexed c.clash f
      → ((d : D) → q d ≡ true → q (f d) ≡ false)
      → ((db : Db) (ds : List D)
          → I db
          → Shuffled (map (changed_where q f) (c.docs db)) ds
          → J (c.replace ds db))
      → Ends I (update_many p c q f) J
  unfolding update_many
  Ends-update_many stable unindexed leaves put = record {
    at = λ s h.
        let db = p.others s.calls s.db in
        put db _ (stable.others s.calls s.db h)
          (p.mongo.update_many_law c.clash q f (c.docs db) unindexed leaves).same;
  }

module _ {D : Type 0} (c : Collection D) (I J : Db → Type 0) (d : D) where
  insert-leaves :
      (r : Option (List D)) (s : State) (a : Unit {0})
      → InsertLaw c.clash d (c.docs s.db) r
      → ((db : Db) (ds : List D) → I db → With d (c.docs db) ds → J (c.replace ds db))
      → I s.db
      → (inserted_in c r s).0 ≡ ok a
      → J (inserted_in c r s).1.db
  insert-leaves r s a (inserted {ds' = ds} none_match w) put h e = put s.db ds h w
  insert-leaves r s a (duplicate x rest w m) put h e = absurd (cc (e))

module _ (p : Platform) {D : Type 0} (c : Collection D) {I J : Db → Type 0} (stable : Stable p I)
    (d : D) where
  pub Leaves-insert_one :
      ((db : Db) (ds : List D) → I db → With d (c.docs db) ds → J (c.replace ds db))
      → Leaves I (insert_one p c d) J
  unfolding insert_one
  Leaves-insert_one put = record {
    at = λ s h a e.
        let db = p.others s.calls s.db in
        insert-leaves c I J d (p.mongo.insert_one c.clash d (c.docs db))
          (record { db = db; calls = suc s.calls }) a (p.mongo.insert_law c.clash d (c.docs db)) put
          (stable.others s.calls s.db h) e;
  }
