-- ===== src/Database/Keys.antt =====
-- Sort keys of the queries: a numeric field up or down, where a missing value stands lowest, and
-- one key after another.
use voltaris_mobility_backen.Prelude.{
  ℕ, ◌≡◌, refl, Bool, true, false, ◌&&◌, Option, none, some, if◌then◌else◌, arith,
}
use voltaris_mobility_backen.Prelude.Int.{ℤ, pos, leb_ℤ}
use voltaris_mobility_backen.Database.Reads.{Sorting}

abbrev pub leb_key : Option ℤ → Option ℤ → Bool
leb_key none b = true
leb_key (some a) none = false
leb_key (some a) (some b) = leb_ℤ a b

pub leb_key-total : (a b : Option ℤ) → leb_key a b ≡ false → leb_key b a ≡ true
leb_key-total a b h = ground arith

pub after-total :
    (x y u v : Bool)
    → (x ≡ false → y ≡ true)
    → (u ≡ false → v ≡ true)
    → (if x && y then u else x) ≡ false
    → (if y && x then v else y) ≡ true
after-total true true u v f g h = g h
after-total true false u v f g h = absurd (cc (h))
after-total false true u v f g h = refl
after-total false false u v f g h = absurd (cc (f refl))

module _ {D : Type 0} where
  -- `(field, 1)` and `(field, -1)`
  abbrev pub ascending : (D → Option ℤ) → Sorting D
  ascending key = record {
    may_precede = λ a b. leb_key (key a) (key b);
    total = λ a b. leb_key-total (key a) (key b);
  }

  abbrev pub descending : (D → Option ℤ) → Sorting D
  descending key = record {
    may_precede = λ a b. leb_key (key b) (key a);
    total = λ a b. leb_key-total (key b) (key a);
  }

  -- No sort: the order is the server's.
  abbrev pub unsorted : Sorting D
  unsorted = record { may_precede = λ a b. true; total = λ a b h. refl }

  -- Two keys: the second counts where the first does not tell the documents apart.
  abbrev pub and_then : Sorting D → Sorting D → Sorting D
  and_then first second = record {
    may_precede = λ a b.
        if first.may_precede a b && first.may_precede b a
        then second.may_precede a b
        else first.may_precede a b;
    total = λ a b. after-total _ _ _ _ (first.total a b) (second.total a b);
  }

abbrev pub time_key : Option ℕ → Option ℤ
time_key none = none
time_key (some t) = some (pos t)

abbrev pub flag_key : Bool → Option ℤ
flag_key true = some (pos 1)
flag_key false = some (pos 0)
