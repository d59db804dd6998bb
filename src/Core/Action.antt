-- ===== src/Core/Action.antt =====
-- A method of a service: it reads and writes the database through the driver, may raise, and waits
-- at every `await`, where other requests run. What was written before a raise stays written.
use voltaris_mobility_backen.Prelude.{ℕ, suc, String, Bool, true, false, Option, none, some, List}
use voltaris_mobility_backen.Core.Errors.{Failure, app_error, duplicate_key, ErrorCode}
use voltaris_mobility_backen.Core.Platform.{Platform, Reply, replied, failed}
use voltaris_mobility_backen.Database.Mongo.{Update, unmatched, rejected, updated}
use voltaris_mobility_backen.Database.Reads.{Sorting}
use voltaris_mobility_backen.Database.Collections.{Db, Collection}

pub data Result (A : Type 0) : Type 0 where
  ok : A → Result A
  err : Failure → Result A

-- The database, and how many external calls were made.
pub record State : Type 0 where
  pub db : Db
  pub calls : ℕ

abbrev pub Action : Type 0 → Type 0
Action A = State → Result A × State

module _ {A : Type 0} where
  abbrev pub pure : A → Action A
  pure a s = (ok a, s)

  abbrev pub fail : Failure → Action A
  fail e s = (err e, s)

  -- `raise AppError(code)`
  abbrev pub raise : ErrorCode → Action A
  raise e = fail (app_error e)

  abbrev pub or_raise : Option A → ErrorCode → Action A
  or_raise none e = raise e
  or_raise (some a) e = pure a

module _ {A B : Type 0} where
  abbrev pub continue : Result A → (A → Action B) → Action B
  continue (ok a) f s = f a s
  continue (err e) f s = (err e, s)

  infixl 10 ◌>>=◌ ◌>>◌
  unfoldable pub ◌>>=◌ : Action A → (A → Action B) → Action B
  ◌>>=◌ m f s = let (r, s') = m s in continue r f s'

  abbrev pub ◌>>◌ : Action A → Action B → Action B
  m >> k = m >>= λ _. k

-- `if test: raise AppError(code)`
abbrev pub raise_if : Bool → ErrorCode → Action (Unit {0})
raise_if true e s = (err (app_error e), s)
raise_if false e s = (ok tt, s)

abbrev pub lift : {A : Type 0} → Result A → Action A
lift r s = (r, s)

-- `try: m except DuplicateKeyError: k`
abbrev pub handled : {A : Type 0} → Result A → Action A → Action A
handled (ok a) k s = (ok a, s)
handled (err duplicate_key) k s = k s
handled (err e) k s = (err e, s)

unfoldable pub on_duplicate : {A : Type 0} → Action A → Action A → Action A
on_duplicate m k s = let (r, s') = m s in handled r k s'

abbrev pub when : Bool → Action (Unit {0}) → Action (Unit {0})
when true m = m
when false m = pure tt

module _ {D : Type 0} (c : Collection D) where
  abbrev pub inserted_in : Option (List D) → State → Result (Unit {0}) × State
  inserted_in none s = (err duplicate_key, s)
  inserted_in (some ds) s = (ok tt, record s { db = c.replace ds s.db })

  abbrev pub updated_in : Update D → State → Result (Option D) × State
  updated_in unmatched s = (ok none, s)
  updated_in rejected s = (err duplicate_key, s)
  updated_in (updated d ds) s = (ok (some d), record s { db = c.replace ds s.db })

  abbrev pub deleted_in : Option (D × List D) → State → Result (Option D) × State
  deleted_in none s = (ok none, s)
  deleted_in (some (d, ds)) s = (ok (some d), record s { db = c.replace ds s.db })

module _ (p : Platform) where
  -- One external call: the other requests that ran meanwhile, then the call itself.
  abbrev awaited : State → State
  awaited s = record { db = p.others s.calls s.db; calls = suc s.calls }

  unfoldable pub uuid4_hex : Action String
  uuid4_hex s = (ok (p.uuid4_hex s.calls), record s { calls = suc s.calls })

  unfoldable pub token_hex : ℕ → Action String
  token_hex n s = (ok (p.token_hex s.calls n), record s { calls = suc s.calls })

  -- `datetime.now(UTC)`
  unfoldable pub utc_now : Action ℕ
  utc_now s = (ok (p.now s.calls), record s { calls = suc s.calls })

  abbrev pub from_reply : {A : Type 0} → Reply A → Result A
  from_reply (replied a) = ok a
  from_reply (failed e) = err e

  -- An awaited call of a service that is not the database.
  unfoldable pub call : {A : Type 0} → (ℕ → Reply A) → Action A
  call f s = (from_reply (f s.calls), awaited s)

  module _ {D : Type 0} (c : Collection D) where
    unfoldable pub find_one : (D → Bool) → Action (Option D)
    find_one q s = let s' = awaited s in (ok (p.mongo.find_one q (c.docs s'.db)), s')

    unfoldable pub insert_one : D → Action (Unit {0})
    insert_one d s =
        let s' = awaited s in inserted_in c (p.mongo.insert_one c.clash d (c.docs s'.db)) s'

    -- `update_one` and `find_one_and_update`: the document as it is after the change, if one matched.
    unfoldable pub update_one : (D → Bool) → (D → D) → Action (Option D)
    update_one q f s =
        let s' = awaited s in updated_in c (p.mongo.update_one c.clash q f (c.docs s'.db)) s'

    -- `update_one(…, upsert=True)`: where nothing matched, the document is inserted instead.
    abbrev upserted : Update D → D → State → Result (Unit {0}) × State
    upserted unmatched d s = inserted_in c (p.mongo.insert_one c.clash d (c.docs s.db)) s
    upserted rejected d s = (err duplicate_key, s)
    upserted (updated _ ds) d s = (ok tt, record s { db = c.replace ds s.db })

    unfoldable pub upsert_one : (D → Bool) → (D → D) → D → Action (Unit {0})
    upsert_one q f d s =
        let s' = awaited s in upserted (p.mongo.update_one c.clash q f (c.docs s'.db)) d s'

    unfoldable pub delete_one : (D → Bool) → Action (Option D)
    delete_one q s = let s' = awaited s in deleted_in c (p.mongo.delete_one q (c.docs s'.db)) s'

    -- `find(query).sort(key).skip(n).limit(m).to_list(…)`
    unfoldable pub find_many : (D → Bool) → Sorting D → ℕ → ℕ → Action (List D)
    find_many q sorting skip limit s =
        let s' = awaited s in (ok (p.mongo.find_many q sorting skip limit (c.docs s'.db)), s')

    unfoldable pub count_documents : (D → Bool) → Option ℕ → Action ℕ
    count_documents q limit s =
        let s' = awaited s in (ok (p.mongo.count_documents q limit (c.docs s'.db)), s')

    -- The result is `modified_count`.
    unfoldable pub update_many : (D → Bool) → (D → D) → Action ℕ
    update_many q f s =
        let s' = awaited s in
        let (n, ds) = p.mongo.update_many q f (c.docs s'.db) in
        (ok n, record s' { db = c.replace ds s'.db })
