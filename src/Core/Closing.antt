-- ===== src/Core/Closing.antt =====
-- Where a call ends that counts, writes or is one of several.
use voltaris_mobility_backen.Prelude.{
  ℕ, suc, ◌≡◌, refl, subst, Bool, true, false, Option, none, some, List, length,
}
use voltaris_mobility_backen.Core.Errors.{ErrorCode}
use voltaris_mobility_backen.Core.Platform.{Platform}
use voltaris_mobility_backen.Core.Action.{
  Action, Result, ok, err, State, continue, ◌>>=◌, when, or_raise, utc_now, count_documents,
  insert_one, update_one, inserted_in, updated_in,
}
use voltaris_mobility_backen.Core.Keeps.{Keeps, Stable}
use voltaris_mobility_backen.Core.Ends.{Ends}
use voltaris_mobility_backen.Database.Mongo.{
  With, InsertLaw, inserted, duplicate, Update, UpdateLaw, nothing_matched, change_refused, changed,
}
use voltaris_mobility_backen.Database.Reads.{select, counted}
use voltaris_mobility_backen.Database.Collections.{Db, Collection}

module _ (p : Platform) {D : Type 0} (c : Collection D) {B : Type 0} {I J : Db → Type 0}
    (stable : Stable p I) where
  pub Ends-count_documents :
      (q : D → Bool) (limit : Option ℕ) (f : ℕ → Action B)
      → ((db : Db) (n : ℕ)
          → I db
          → n ≡ counted limit (length (select q (c.docs db)))
          → Ends I (f n) J)
      → Ends I (count_documents p c q limit >>= f) J
  unfolding ◌>>=◌ count_documents
  Ends-count_documents q limit f read = record {
    at = λ s h.
        let db = p.others s.calls s.db in
        let kept = stable.others s.calls s.db h in
        (read db _ kept (p.mongo.count_law q limit (c.docs db))).at
          (record { db = db; calls = suc s.calls }) kept;
  }

module _ (p : Platform) {B : Type 0} {I J : Db → Type 0} where
  -- The clock is read without a failure.
  pub Ends-utc_now :
      (f : ℕ → Action B) → ((now : ℕ) → Ends I (f now) J) → Ends I (utc_now p >>= f) J
  unfolding ◌>>=◌ utc_now
  Ends-utc_now f ends = record {
    at = λ s h. (ends (p.now s.calls)).at (record s { calls = suc s.calls }) h;
  }

module _ {A B : Type 0} {I J : Db → Type 0} where
  -- A write that ends in `J`, and a rest that keeps `J`.
  pub Ends-then_keeps :
      (m : Action A) (f : A → Action B)
      → Ends I m J
      → ((a : A) → Keeps J (f a))
      → Ends I (m >>= f) J
  unfolding ◌>>=◌
  Ends-then_keeps m f ends kept = record {
    at = λ s h. let (r, s') = m s in after-kept r f s' kept (ends.at s h);
  }
    where
      after-kept :
          (r : Result A) (f : A → Action B) (s : State)
          → ((a : A) → Keeps J (f a))
          → J s.db
          → J (continue r f s).1.db
      after-kept (ok a) f s kept h = (kept a).at s h
      after-kept (err e) f s kept h = h

module _ {A B : Type 0} {I J : Db → Type 0} where
  pub Ends-or_raise :
      (o : Option A) (e : ErrorCode) (f : A → Action B)
      → ((db : Db) → I db → J db)
      → ((a : A) → o ≡ some a → Ends I (f a) J)
      → Ends I (or_raise o e >>= f) J
  unfolding ◌>>=◌
  Ends-or_raise none e f stop ends = record { at = λ s h. stop s.db h }
  Ends-or_raise (some a) e f stop ends = record { at = λ s h. (ends a refl).at s h }

module _ {B : Type 0} {I J : Db → Type 0} where
  pub Ends-when :
      (b : Bool) (m : Action (Unit {0})) (f : Unit {0} → Action B)
      → (b ≡ true → Ends I (m >>= f) J)
      → (b ≡ false → Ends I (f tt) J)
      → Ends I (when b m >>= f) J
  unfolding ◌>>=◌
  Ends-when true m f yes_case no_case = record { at = λ s h. (yes_case refl).at s h }
  Ends-when false m f yes_case no_case = record { at = λ s h. (no_case refl).at s h }

module _ {A B C : Type 0} where
  continue-assoc :
      (J : Db → Type 0) (r : Result A) (k : A → Action B) (f : B → Action C) (s : State)
      → J (continue r (λ a. k a >>= f) s).1.db
      → J (continue (continue r k s).0 f (continue r k s).1).1.db
  unfolding ◌>>=◌
  continue-assoc J (ok a) k f s h = h
  continue-assoc J (err e) k f s h = h

  pub Ends-assoc :
      {I J : Db → Type 0} (m : Action A) (k : A → Action B) (f : B → Action C)
      → Ends I (m >>= (λ a. k a >>= f)) J
      → Ends I ((m >>= k) >>= f) J
  unfolding ◌>>=◌
  Ends-assoc {J} m k f ends = record {
    at = λ s h. continue-assoc J (m s).0 k f (m s).1 (ends.at s h);
  }

module _ (p : Platform) {D : Type 0} (c : Collection D) {I J : Db → Type 0} (stable : Stable p I)
    (stop : (db : Db) → I db → J db) where
  insert-ends :
      (d : D) (r : Option (List D)) (s : State)
      → InsertLaw c.clash d (c.docs s.db) r
      → ((db : Db) (ds : List D) → I db → With d (c.docs db) ds → J (c.replace ds db))
      → I s.db
      → J (inserted_in c r s).1.db
  insert-ends d r s (inserted {ds' = ds} none_match w) put h = put s.db ds h w
  insert-ends d r s (duplicate e rest w m) put h = stop s.db h

  pub Ends-insert_one :
      (d : D)
      → ((db : Db) (ds : List D) → I db → With d (c.docs db) ds → J (c.replace ds db))
      → Ends I (insert_one p c d) J
  unfolding insert_one
  Ends-insert_one d put = record {
    at = λ s h.
        let db = p.others s.calls s.db in
        insert-ends d (p.mongo.insert_one c.clash d (c.docs db))
          (record { db = db; calls = suc s.calls }) (p.mongo.insert_law c.clash d (c.docs db)) put
          (stable.others s.calls s.db h);
  }

  update-ends :
      (q : D → Bool) (f : D → D) (r : Update D) (s : State)
      → UpdateLaw c.clash q f (c.docs s.db) r
      → ((db : Db) (d : D) (rest ds : List D)
          → I db
          → With d rest (c.docs db)
          → q d ≡ true
          → With (f d) rest ds
          → J (c.replace ds db))
      → I s.db
      → J (updated_in c r s).1.db
  update-ends q f r s (nothing_matched none_match) put h = stop s.db h
  update-ends q f r s (change_refused d e rest others w m v x) put h = stop s.db h
  update-ends q f r s (changed d d' {rest = rest} {ds' = ds} e w m none_match v) put h =
      put s.db d rest ds h w m (subst (λ x. With x rest ds) e v)

  pub Ends-update_one :
      (q : D → Bool) (f : D → D)
      → ((db : Db) (d : D) (rest ds : List D)
          → I db
          → With d rest (c.docs db)
          → q d ≡ true
          → With (f d) rest ds
          → J (c.replace ds db))
      → Ends I (update_one p c q f) J
  unfolding update_one
  Ends-update_one q f put = record {
    at = λ s h.
        let db = p.others s.calls s.db in
        update-ends q f (p.mongo.update_one c.clash q f (c.docs db))
          (record { db = db; calls = suc s.calls }) (p.mongo.update_law c.clash q f (c.docs db)) put
          (stable.others s.calls s.db h);
  }
