-- ===== src/Core/Timed.antt =====
-- What a call that returns has established, where it matters at which call the clock is read: the
-- calls before it are counted.
use voltaris_mobility_backen.Prelude.{
  ℕ, suc, ◌≡◌, refl, Bool, true, false, Option, none, some, List,
}
use voltaris_mobility_backen.Core.Errors.{ErrorCode}
use voltaris_mobility_backen.Core.Platform.{Platform}
use voltaris_mobility_backen.Core.Action.{
  Action, Result, ok, err, State, ◌>>=◌, continue, raise_if, or_raise, utc_now, delete_one,
  deleted_in,
}
use voltaris_mobility_backen.Core.Returns.{Returns, Anything}
use voltaris_mobility_backen.Database.Mongo.{With, DeleteLaw, deleted, absent}
use voltaris_mobility_backen.Database.Collections.{Db, Collection}

pub record ReturnsAt {A : Type 0} (s : State) (m : Action A) (Q : A → Type 0) : Type 0 where
  pub at : (a : A) → (m s).0 ≡ ok a → Q a

module _ {A : Type 0} {Q : A → Type 0} where
  pub At-returns :
      {I : Db → Type 0} (s : State) (m : Action A) → Returns I m Q → I s.db → ReturnsAt s m Q
  At-returns s m r h = record { at = λ a e. r.at s h a e }

module _ {A B : Type 0} {Q : B → Type 0} where
  continue-at :
      (r : Result A) (f : A → Action B) (s : State) (b : B)
      → ((a : A) → r ≡ ok a → Returns Anything (f a) Q)
      → (continue r f s).0 ≡ ok b
      → Q b
  continue-at (ok a) f s b next e = (next a refl).at s tt b e
  continue-at (err x) f s b next e = absurd (cc (e))

module _ {A B : Type 0} {R : A → Type 0} {Q : B → Type 0} where
  pub At-then :
      (s : State) (m : Action A) (f : A → Action B)
      → ReturnsAt s m R
      → ((a : A) → R a → Returns Anything (f a) Q)
      → ReturnsAt s (m >>= f) Q
  unfolding ◌>>=◌
  At-then s m f first next = record {
    at = λ b e. continue-at (m s).0 f (m s).1 b (λ a x. next a (first.at a x)) e;
  }

module _ {B : Type 0} {Q : B → Type 0} where
  -- The clock of this very call.
  pub At-utc_now :
      (p : Platform) (s : State) (f : ℕ → Action B)
      → ReturnsAt (record s { calls = suc s.calls }) (f (p.now s.calls)) Q
      → ReturnsAt s (utc_now p >>= f) Q
  unfolding ◌>>=◌ utc_now
  At-utc_now p s f r = record { at = λ b e. r.at b e }

  pub At-raise_if :
      (s : State) (b : Bool) (x : ErrorCode) (f : Unit {0} → Action B)
      → (b ≡ false → ReturnsAt s (f tt) Q)
      → ReturnsAt s (raise_if b x >>= f) Q
  unfolding ◌>>=◌
  At-raise_if s true x f next = record { at = λ a e. absurd (cc (e)) }
  At-raise_if s false x f next = record { at = λ a e. (next refl).at a e }

  pub At-or_raise :
      {A : Type 0} (s : State) (o : Option A) (x : ErrorCode) (f : A → Action B)
      → ((a : A) → o ≡ some a → ReturnsAt s (f a) Q)
      → ReturnsAt s (or_raise o x >>= f) Q
  unfolding ◌>>=◌
  At-or_raise s none x f next = record { at = λ a e. absurd (cc (e)) }
  At-or_raise s (some a) x f next = record { at = λ b e. (next a refl).at b e }

  module _ (p : Platform) {D : Type 0} (c : Collection D) (q : D → Bool)
      (f : Option D → Action B) where
    deleted-at :
        (r : Option (D × List D)) (s : State)
        → DeleteLaw q (c.docs s.db) r
        → ((s' : State) (d : D) (rest : List D)
            → s'.calls ≡ s.calls
            → With d rest (c.docs s.db)
            → q d ≡ true
            → ReturnsAt s' (f (some d)) Q)
        → ((s' : State) → ReturnsAt s' (f none) Q)
        → (b : B) → (continue (deleted_in c r s).0 f (deleted_in c r s).1).0 ≡ ok b
        → Q b
    deleted-at r s (deleted d {rest = rest} w m) hit miss b e = (hit _ d rest refl w m).at b e
    deleted-at r s (absent none_match) hit miss b e = (miss s).at b e

    -- A delete is one call.
    pub At-delete_one :
        (s : State)
        → ((s' : State) (d : D) (rest : List D)
            → s'.calls ≡ suc s.calls
            → With d rest (c.docs (p.others s.calls s.db))
            → q d ≡ true
            → ReturnsAt s' (f (some d)) Q)
        → ((s' : State) → ReturnsAt s' (f none) Q)
        → ReturnsAt s (delete_one p c q >>= f) Q
    unfolding ◌>>=◌ delete_one
    At-delete_one s hit miss = record {
      at = λ b e.
          let db = p.others s.calls s.db in
          deleted-at (p.mongo.delete_one q (c.docs db)) (record { db = db; calls = suc s.calls })
            (p.mongo.delete_law q (c.docs db)) hit miss b e;
    }
