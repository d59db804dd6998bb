-- ===== src/Database/Matching.antt =====
-- How many documents match, and whether any does, when tests are joined and documents shuffled.
use voltaris_mobility_backen.Prelude.{
  ℕ, zero, suc, ◌+◌, ◌≤◌, ◌≡◌, refl, sym, ap, ◌∙◌, Bool, true, false, ◌&&◌, ◌||◌, List, [], ◌∷◌,
  length, take, arith, if◌then◌else◌,
}
use voltaris_mobility_backen.Database.With.{With, here, there}
use voltaris_mobility_backen.Database.Mongo.{NoneMatch}
use voltaris_mobility_backen.Database.Reads.{Shuffled, nothing, put, select}

abbrev pub any : {D : Type 0} → (D → Bool) → List D → Bool
any q [] = false
any q (d ∷ ds) = q d || any q ds

module _ {D : Type 0} where
  pub select-none : (q : D → Bool) (ds : List D) → NoneMatch q ds → select q ds ≡ []
  select-none q [] h = refl
  select-none q (d ∷ ds) h = rw (h.0) (select-none q ds h.1)

  pub select-or :
      (a b : D → Bool) (ds : List D)
      → length (select (λ d. a d || b d) ds) ≤ length (select a ds) + length (select b ds)
  select-or a b [] = omega arith
  select-or a b (d ∷ ds) = branch (a d) (b d) (select-or a b ds)
    where
      branch :
          (x y : Bool)
          → length (select (λ d. a d || b d) ds) ≤ length (select a ds) + length (select b ds)
          → length (if x || y then d ∷ select (λ d. a d || b d) ds else select (λ d. a d || b d) ds)
            ≤ length (if x then d ∷ select a ds else select a ds)
              + length (if y then d ∷ select b ds else select b ds)
      branch true true h = omega (arith, h)
      branch true false h = omega (arith, h)
      branch false true h = omega (arith, h)
      branch false false h = h

  pub select-and :
      (a b : D → Bool) (ds : List D) → length (select (λ d. a d && b d) ds) ≤ length (select a ds)
  select-and a b [] = omega arith
  select-and a b (d ∷ ds) = branch (a d) (b d) (select-and a b ds)
    where
      branch :
          (x y : Bool)
          → length (select (λ d. a d && b d) ds) ≤ length (select a ds)
          → length (if x && y then d ∷ select (λ d. a d && b d) ds else select (λ d. a d && b d) ds)
            ≤ length (if x then d ∷ select a ds else select a ds)
      branch true true h = omega (arith, h)
      branch true false h = omega (arith, h)
      branch false y h = h

  pub take-all : (n : ℕ) (ds : List D) → length ds ≤ n → take n ds ≡ ds
  take-all zero [] h = refl
  take-all zero (d ∷ ds) h = absurd (omega (arith, h))
  take-all (suc n) [] h = refl
  take-all (suc n) (d ∷ ds) h = ap (λ es. d ∷ es) (take-all n ds (omega (arith, h)))

  any-With :
      (q : D → Bool) {d : D} {rest ds : List D} → With d rest ds → any q ds ≡ (q d || any q rest)
  any-With q (here rest) = refl
  any-With q {d} (there e {rest = rest} w) =
      ap (λ b. q e || b) (any-With q w) ∙ swap (q e) (q d) (any q rest)
    where
      swap : (x y z : Bool) → (x || (y || z)) ≡ (y || (x || z))
      swap true true z = refl
      swap true false z = refl
      swap false y z = refl

  pub any-Shuffled : (q : D → Bool) {ds es : List D} → Shuffled ds es → any q es ≡ any q ds
  any-Shuffled q nothing = refl
  any-Shuffled q (put {d = d} s w) = any-With q w ∙ ap (λ b. q d || b) (any-Shuffled q s)

  pub any-select :
      (q r t : D → Bool) (ds : List D)
      → ((d : D) → (q d && r d) ≡ t d)
      → any r (select q ds) ≡ any t ds
  any-select q r t [] h = refl
  any-select q r t (d ∷ ds) h = branch (q d) refl (any-select q r t ds h)
    where
      branch :
          (b : Bool)
          → q d ≡ b
          → any r (select q ds) ≡ any t ds
          → any r (if b then d ∷ select q ds else select q ds) ≡ (t d || any t ds)
      branch true e ih = rw (ih, sym (h d), e) refl
      branch false e ih = rw (ih, sym (h d), e) refl
