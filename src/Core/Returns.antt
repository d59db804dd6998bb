-- ===== src/Core/Returns.antt =====
-- What a call that returns has established: from a database with `I`, every result has `Q`.
use voltaris_mobility_backen.Prelude.{
  ℕ, suc, ◌≡◌, refl, sym, subst, Bool, true, false, Option, none, some, List, if◌then◌else◌,
}
use voltaris_mobility_backen.Core.Errors.{Failure, ErrorCode}
use voltaris_mobility_backen.Core.Platform.{Platform, IsQuiet, Reply, replied, failed}
use voltaris_mobility_backen.Core.Action.{
  Action, Result, ok, err, State, pure, fail, ◌>>=◌, continue, raise_if, or_raise, lift, call,
  from_reply, deleted_in, find_one, delete_one,
}
use voltaris_mobility_backen.Core.Keeps.{Keeps, Stable}
use voltaris_mobility_backen.Database.Mongo.{
  With, NoneMatch, FindLaw, found, missing, DeleteLaw, deleted, absent,
}
use voltaris_mobility_backen.Database.Collections.{Db, Collection}

pub record Returns {A : Type 0} (I : Db → Type 0) (m : Action A) (Q : A → Type 0) : Type 0 where
  pub at : (s : State) → I s.db → (a : A) → (m s).0 ≡ ok a → Q a

-- Alone on the database, a call keeps what it does not change itself.
pub IsQuiet-Stable : {p : Platform} (P : Db → Type 0) → IsQuiet p → Stable p P
IsQuiet-Stable P quiet = record { others = λ n db h. subst P (sym (quiet n db)) h }

module _ {A : Type 0} {I : Db → Type 0} {Q : A → Type 0} where
  pub Returns-pure : (a : A) → Q a → Returns I (pure a) Q
  Returns-pure a q = record { at = λ s h b e. subst Q (ok_injective e) q }
    where
      ok_injective : {b : A} → ok a ≡ ok b → a ≡ b
      ok_injective e = cc

  pub Returns-fail : (e : Failure) → Returns I (fail e) Q
  Returns-fail e = record { at = λ s h b x. cc }

  pub Returns-if :
      (test : Bool) (body other : Action A)
      → (test ≡ true → Returns I body Q)
      → (test ≡ false → Returns I other Q)
      → Returns I (if test then body else other) Q
  Returns-if true body other when_true when_false = when_true refl
  Returns-if false body other when_true when_false = when_false refl

  pub Returns-weaken :
      {J : Db → Type 0} (m : Action A) → ((db : Db) → I db → J db) → Returns J m Q → Returns I m Q
  Returns-weaken m f r = record { at = λ s h a e. r.at s (f s.db h) a e }

  pub Returns-map :
      {R : A → Type 0} (m : Action A) → ((a : A) → R a → Q a) → Returns I m R → Returns I m Q
  Returns-map m f r = record { at = λ s h a e. f a (r.at s h a e) }

module _ {A B : Type 0} {I : Db → Type 0} {Q : B → Type 0} where
  continue-returns :
      (r : Result A) (f : A → Action B) (s : State) (b : B)
      → ((a : A) → r ≡ ok a → Returns I (f a) Q)
      → I s.db
      → (continue r f s).0 ≡ ok b
      → Q b
  continue-returns (ok a) f s b rf h e = (rf a refl).at s h b e
  continue-returns (err x) f s b rf h e = cc

  pub Returns-bind :
      (m : Action A) (f : A → Action B)
      → Keeps I m
      → ((a : A) → Returns I (f a) Q)
      → Returns I (m >>= f) Q
  unfolding ◌>>=◌
  Returns-bind m f km rf = record {
    at = λ s h b e. let (r, s') = m s in continue-returns r f s' b (λ a _. rf a) (km.at s h) e;
  }

-- Where nothing need be known of the database.
abbrev pub Anything : Db → Type 0
Anything db = Unit

module _ {A B : Type 0} {Q : B → Type 0} where
  pub Returns-after :
      (m : Action A) (f : A → Action B)
      → ((a : A) → Returns Anything (f a) Q)
      → Returns Anything (m >>= f) Q
  Returns-after m f rf = Returns-bind m f (record { at = λ s h. tt }) rf

module _ {A B : Type 0} {I : Db → Type 0} {R : A → Type 0} {Q : B → Type 0} where
  -- What the first call established is handed on to the second.
  pub Returns-then :
      (m : Action A) (f : A → Action B)
      → Returns I m R
      → ((a : A) → R a → Returns Anything (f a) Q)
      → Returns I (m >>= f) Q
  unfolding ◌>>=◌
  Returns-then m f rm rf = record {
    at = λ s h b e.
        let (r, s') = m s in continue-returns r f s' b (λ a x. rf a (rm.at s h a x)) tt e;
  }

module _ {A B : Type 0} {I : Db → Type 0} {R : A → Type 0} {Q : B → Type 0} where
  -- So is what the first call established on a database that it keeps.
  pub Returns-keep :
      (m : Action A) (f : A → Action B)
      → Keeps I m
      → Returns I m R
      → ((a : A) → R a → Returns I (f a) Q)
      → Returns I (m >>= f) Q
  unfolding ◌>>=◌
  Returns-keep m f km rm rf = record {
    at = λ s h b e.
        let (r, s') = m s in continue-returns r f s' b (λ a x. rf a (rm.at s h a x)) (km.at s h) e;
  }

module _ {A B : Type 0} {I : Db → Type 0} {Q : B → Type 0} where
  pub Returns-or_raise :
      (o : Option A) (e : ErrorCode) (f : A → Action B)
      → ((a : A) → o ≡ some a → Returns I (f a) Q)
      → Returns I (or_raise o e >>= f) Q
  unfolding ◌>>=◌
  Returns-or_raise none e f rf = record { at = λ s h b x. cc }
  Returns-or_raise (some a) e f rf = record { at = λ s h b x. (rf a refl).at s h b x }

  pub Returns-lift :
      (r : Result A) (f : A → Action B)
      → ((a : A) → r ≡ ok a → Returns I (f a) Q)
      → Returns I (lift r >>= f) Q
  unfolding ◌>>=◌
  Returns-lift (err e) f rf = record { at = λ s h b x. cc }
  Returns-lift (ok a) f rf = record { at = λ s h b x. (rf a refl).at s h b x }

module _ {B : Type 0} {I : Db → Type 0} {Q : B → Type 0} where
  pub Returns-raise_if :
      (b : Bool) (e : ErrorCode) (f : Unit {0} → Action B)
      → (b ≡ false → Returns I (f tt) Q)
      → Returns I (raise_if b e >>= f) Q
  unfolding ◌>>=◌
  Returns-raise_if true e f rf = record { at = λ s h b x. cc }
  Returns-raise_if false e f rf = record { at = λ s h b x. (rf refl).at s h b x }

  module _ {D : Type 0} (p : Platform) (stable : Stable p I) (c : Collection D) (q : D → Bool)
      (f : Option D → Action B) where
    -- A read hands on the document that it found, or that there is none.
    pub Returns-find_one :
        ((db : Db) (d : D) (rest : List D)
          → I db
          → With d rest (c.docs db)
          → q d ≡ true
          → Returns I (f (some d)) Q)
        → ((db : Db) → I db → NoneMatch q (c.docs db) → Returns I (f none) Q)
        → Returns I (find_one p c q >>= f) Q
    unfolding ◌>>=◌ find_one
    Returns-find_one hit miss = record {
      at = λ s h b x.
          let db = p.others s.calls s.db in
          read db (p.mongo.find_one q (c.docs db)) (p.mongo.find_law q (c.docs db))
            (stable.others s.calls s.db h) b (record { db = db; calls = suc s.calls }) refl x;
    }
      where
        read :
            (db : Db) (r : Option D)
            → FindLaw q (c.docs db) r
            → I db
            → (b : B) (s : State) → s.db ≡ db
            → (f r s).0 ≡ ok b
            → Q b
        read db r (found {d = d} rest w m) h b s e x =
            (hit db d rest h w m).at s (subst I (sym e) h) b x
        read db r (missing none_match) h b s e x =
            (miss db h none_match).at s (subst I (sym e) h) b x

  module _ {D : Type 0} (p : Platform) (stable : Stable p I) (c : Collection D) (q : D → Bool)
      (f : Option D → Action B) where
    -- A deletion hands on the document that it took.
    pub Returns-delete_one :
        ((db : Db) (d : D) (rest : List D)
          → I db
          → With d rest (c.docs db)
          → q d ≡ true
          → Returns Anything (f (some d)) Q)
        → Returns Anything (f none) Q
        → Returns I (delete_one p c q >>= f) Q
    unfolding ◌>>=◌ delete_one
    Returns-delete_one hit miss = record {
      at = λ s h b x.
          let db = p.others s.calls s.db in
          take db (p.mongo.delete_one q (c.docs db)) (p.mongo.delete_law q (c.docs db))
            (stable.others s.calls s.db h) (record { db = db; calls = suc s.calls }) b x;
    }
      where
        take :
            (db : Db) (r : Option (D × List D))
            → DeleteLaw q (c.docs db) r
            → I db
            → (s : State) (b : B) → (continue (deleted_in c r s).0 f (deleted_in c r s).1).0 ≡ ok b
            → Q b
        take db r (deleted d {rest = rest} w m) h s b x = (hit db d rest h w m).at _ tt b x
        take db r (absent none_match) h s b x = miss.at _ tt b x

module _ {A B : Type 0} {I : Db → Type 0} {Q : B → Type 0} (p : Platform) where
  -- What another service replied to some call is known in the rest.
  pub Returns-call :
      (ask : ℕ → Reply A) (f : A → Action B)
      → ((n : ℕ) (a : A) → ask n ≡ replied a → Returns Anything (f a) Q)
      → Returns I (call p ask >>= f) Q
  unfolding ◌>>=◌ call
  Returns-call ask f rf = record { at = λ s h b x. reply s.calls (ask s.calls) refl _ b x }
    where
      reply :
          (n : ℕ) (r : Reply A)
          → ask n ≡ r
          → (s : State) (b : B) → (continue (from_reply p r) f s).0 ≡ ok b
          → Q b
      reply n (replied a) e s b x = (rf n a e).at s tt b x
      reply n (failed e') e s b x = cc
