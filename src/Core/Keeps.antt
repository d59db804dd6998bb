-- ===== src/Core/Keeps.antt =====
-- Invariants of actions: a predicate on the database that holds before a call, and that the other
-- requests keep, holds after it, however the call ends.
use voltaris_mobility_backen.Prelude.{
  ℕ, suc, ◌≡◌, refl, Bool, true, false, Option, none, some, List, if◌then◌else◌,
}
use voltaris_mobility_backen.Core.Errors.{
  Failure, ErrorCode, app_error, duplicate_key, python_error,
}
use voltaris_mobility_backen.Core.Platform.{Platform, Reply}
use voltaris_mobility_backen.Core.Action.{
  Action, Result, ok, err, State, pure, fail, or_raise, ◌>>=◌, continue, raise_if, lift, when,
  handled, on_duplicate, uuid4_hex, token_hex, utc_now, call, find_one, insert_one, update_one,
  delete_one, inserted_in, updated_in, deleted_in,
}
use voltaris_mobility_backen.Database.Mongo.{
  With, NoneMatch, InsertLaw, inserted, duplicate, Update, UpdateLaw, nothing_matched,
  change_refused, changed, DeleteLaw, deleted, absent,
}
use voltaris_mobility_backen.Database.Collections.{Db, Collection}

pub record Keeps {A : Type 0} (P : Db → Type 0) (m : Action A) : Type 0 where
  pub at : (s : State) → P s.db → P (m s).1.db

-- The other requests keep `P`.
pub record Stable (p : Platform) (P : Db → Type 0) : Type 0 where
  pub others : (n : ℕ) (db : Db) → P db → P (p.others n db)

-- `P` does not look at the collection.
pub record Ignores {D : Type 0} (P : Db → Type 0) (c : Collection D) : Type 0 where
  pub at : (db : Db) (ds : List D) → P db → P (c.replace ds db)

module _ {A : Type 0} {P : Db → Type 0} where
  pub Keeps-pure : (a : A) → Keeps P (pure a)
  Keeps-pure a = record { at = λ s h. h }

  pub Keeps-fail : (e : Failure) → Keeps P (fail {A = A} e)
  Keeps-fail e = record { at = λ s h. h }

  pub Keeps-lift : (r : Result A) → Keeps P (lift r)
  Keeps-lift r = record { at = λ s h. h }

  pub Keeps-if :
      (test : Bool) (body other : Action A)
      → (test ≡ true → Keeps P body)
      → (test ≡ false → Keeps P other)
      → Keeps P (if test then body else other)
  Keeps-if true body other when_true when_false = when_true refl
  Keeps-if false body other when_true when_false = when_false refl

  handled-keeps :
      (r : Result A) (k : Action A) (s : State) → Keeps P k → P s.db → P (handled r k s).1.db
  handled-keeps (ok a) k s kk h = h
  handled-keeps (err duplicate_key) k s kk h = kk.at s h
  handled-keeps (err (app_error e)) k s kk h = h
  handled-keeps (err python_error) k s kk h = h

  pub Keeps-on_duplicate : (m k : Action A) → Keeps P m → Keeps P k → Keeps P (on_duplicate m k)
  unfolding on_duplicate
  Keeps-on_duplicate m k km kk = record {
    at = λ s h. let (r, s') = m s in handled-keeps r k s' kk (km.at s h);
  }

module _ {A B : Type 0} {P : Db → Type 0} where
  continue-keeps :
      (r : Result A) (f : A → Action B) (s : State)
      → ((a : A) → r ≡ ok a → Keeps P (f a))
      → P s.db
      → P (continue r f s).1.db
  continue-keeps (ok a) f s kf h = (kf a refl).at s h
  continue-keeps (err e) f s kf h = h

  pub Keeps-bind :
      (first : Action A) (next : A → Action B)
      → Keeps P first
      → ((a : A) → Keeps P (next a))
      → Keeps P (first >>= next)
  unfolding ◌>>=◌
  Keeps-bind first next kept keep = record {
    at = λ s h. continue-keeps (first s).0 next (first s).1 (λ a _. keep a) (kept.at s h);
  }

  -- What a pure step returned is known in the rest.
  pub Keeps-bind-lift :
      (r : Result A) (f : A → Action B)
      → ((a : A) → r ≡ ok a → Keeps P (f a))
      → Keeps P (lift r >>= f)
  unfolding ◌>>=◌
  Keeps-bind-lift r f kf = record { at = λ s h. continue-keeps r f s kf h }

module _ {B : Type 0} {P : Db → Type 0} where
  -- Past a guard its test is known to be false.
  pub Keeps-raise_if :
      (b : Bool) (e : ErrorCode) (f : Unit {0} → Action B)
      → (b ≡ false → Keeps P (f tt))
      → Keeps P (raise_if b e >>= f)
  unfolding ◌>>=◌
  Keeps-raise_if true e f kf = record { at = λ s h. h }
  Keeps-raise_if false e f kf = record { at = λ s h. (kf refl).at s h }

  pub Keeps-or_raise :
      {A : Type 0} (o : Option A) (e : ErrorCode) (f : A → Action B)
      → ((a : A) → o ≡ some a → Keeps P (f a))
      → Keeps P (or_raise o e >>= f)
  unfolding ◌>>=◌
  Keeps-or_raise none e f kf = record { at = λ s h. h }
  Keeps-or_raise (some a) e f kf = record { at = λ s h. (kf a refl).at s h }

module _ {P : Db → Type 0} where
  pub Keeps-when : (b : Bool) (m : Action (Unit {0})) → (b ≡ true → Keeps P m) → Keeps P (when b m)
  Keeps-when true m km = km refl
  Keeps-when false m km = record { at = λ s h. h }

module _ (p : Platform) {P : Db → Type 0} where
  pub Keeps-uuid4_hex : Keeps P (uuid4_hex p)
  unfolding uuid4_hex
  Keeps-uuid4_hex = record { at = λ s h. h }

  pub Keeps-token_hex : (n : ℕ) → Keeps P (token_hex p n)
  unfolding token_hex
  Keeps-token_hex n = record { at = λ s h. h }

  pub Keeps-utc_now : Keeps P (utc_now p)
  unfolding utc_now
  Keeps-utc_now = record { at = λ s h. h }

  module _ (stable : Stable p P) where
    pub Keeps-call : {A : Type 0} (f : ℕ → Reply A) → Keeps P (call p f)
    unfolding call
    Keeps-call f = record { at = λ s h. stable.others s.calls s.db h }

    pub Keeps-find_one : {D : Type 0} (c : Collection D) (q : D → Bool) → Keeps P (find_one p c q)
    unfolding find_one
    Keeps-find_one c q = record { at = λ s h. stable.others s.calls s.db h }

module _ {D : Type 0} (P : Db → Type 0) (c : Collection D) where
  -- What the caller of an operation shows: the write keeps `P`, given what the driver promises.
  abbrev pub InsertKeeps : D → Type 0
  InsertKeeps d =
      (db : Db) (ds : List D)
      → P db
      → NoneMatch (c.clash d) (c.docs db)
      → With d (c.docs db) ds
      → P (c.replace ds db)

  abbrev pub UpdateKeeps : (D → Bool) → (D → D) → Type 0
  UpdateKeeps q f =
      (db : Db) (d d' : D) (rest ds : List D)
      → P db
      → d' ≡ f d
      → With d rest (c.docs db)
      → q d ≡ true
      → With d' rest ds
      → P (c.replace ds db)

  abbrev pub DeleteKeeps : (D → Bool) → Type 0
  DeleteKeeps q =
      (db : Db) (d : D) (rest : List D)
      → P db
      → With d rest (c.docs db)
      → q d ≡ true
      → P (c.replace rest db)

module _ {D : Type 0} {P : Db → Type 0} (c : Collection D) where
  inserted_in-keeps :
      (d : D) (r : Option (List D)) (s : State)
      → InsertLaw c.clash d (c.docs s.db) r
      → InsertKeeps P c d
      → P s.db
      → P (inserted_in c r s).1.db
  inserted_in-keeps d r s (inserted {ds' = ds} none_match w) keep h = keep s.db ds h none_match w
  inserted_in-keeps d r s (duplicate e rest w m) keep h = h

  updated_in-keeps :
      (q : D → Bool) (f : D → D) (r : Update D) (s : State)
      → UpdateLaw c.clash q f (c.docs s.db) r
      → UpdateKeeps P c q f
      → P s.db
      → P (updated_in c r s).1.db
  updated_in-keeps q f r s (nothing_matched none_match) keep h = h
  updated_in-keeps q f r s (change_refused d e rest others w m v x) keep h = h
  updated_in-keeps q f r s (changed d d' {rest = rest} {ds' = ds} e w m none_match v) keep h =
      keep s.db d d' rest ds h e w m v

  deleted_in-keeps :
      (q : D → Bool) (r : Option (D × List D)) (s : State)
      → DeleteLaw q (c.docs s.db) r
      → DeleteKeeps P c q
      → P s.db
      → P (deleted_in c r s).1.db
  deleted_in-keeps q r s (deleted d {rest = rest} w m) keep h = keep s.db d rest h w m
  deleted_in-keeps q r s (absent none_match) keep h = h

  module _ (p : Platform) (stable : Stable p P) where
    pub Keeps-insert_one : (d : D) → InsertKeeps P c d → Keeps P (insert_one p c d)
    unfolding insert_one
    Keeps-insert_one d keep = record {
      at = λ s h.
          let db = p.others s.calls s.db in
          inserted_in-keeps d (p.mongo.insert_one c.clash d (c.docs db))
            (record { db = db; calls = suc s.calls }) (p.mongo.insert_law c.clash d (c.docs db))
            keep (stable.others s.calls s.db h);
    }

    pub Keeps-update_one :
        (q : D → Bool) (f : D → D) → UpdateKeeps P c q f → Keeps P (update_one p c q f)
    unfolding update_one
    Keeps-update_one q f keep = record {
      at = λ s h.
          let db = p.others s.calls s.db in
          updated_in-keeps q f (p.mongo.update_one c.clash q f (c.docs db))
            (record { db = db; calls = suc s.calls }) (p.mongo.update_law c.clash q f (c.docs db))
            keep (stable.others s.calls s.db h);
    }

    pub Keeps-delete_one : (q : D → Bool) → DeleteKeeps P c q → Keeps P (delete_one p c q)
    unfolding delete_one
    Keeps-delete_one q keep = record {
      at = λ s h.
          let db = p.others s.calls s.db in
          deleted_in-keeps q (p.mongo.delete_one q (c.docs db))
            (record { db = db; calls = suc s.calls }) (p.mongo.delete_law q (c.docs db)) keep
            (stable.others s.calls s.db h);
    }

    -- A write to a collection that `P` does not look at.
    module _ (ignored : Ignores P c) where
      pub Keeps-insert_ignored : (d : D) → Keeps P (insert_one p c d)
      Keeps-insert_ignored d = Keeps-insert_one d (λ db ds h none_match w. ignored.at db ds h)

      pub Keeps-update_ignored : (q : D → Bool) (f : D → D) → Keeps P (update_one p c q f)
      Keeps-update_ignored q f =
          Keeps-update_one q f (λ db d d' rest ds h e w m v. ignored.at db ds h)

pub ruleset keeps_rules = (
  Keeps-pure, Keeps-fail, Keeps-lift, Keeps-if, Keeps-on_duplicate, Keeps-bind, Keeps-when,
  Keeps-uuid4_hex, Keeps-token_hex, Keeps-utc_now, Keeps-call, Keeps-find_one,
)
