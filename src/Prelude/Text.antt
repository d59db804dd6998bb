-- ===== src/Prelude/Text.antt =====
-- `str` of an integer, for the texts that the services build.
use Prim.Native.Nat.{ℕ, zero, suc, ◌/◌, ◌%◌}
use Prim.Native.Char.{Char, code}
use Prim.Native.String.{String, ◌++◌}
use Prim.Native.String.append
use mathlib.Core.Path.{◌≡◌, refl, ap, ◌∙◌}
use mathlib.Core.Bool.{Bool, true, false, not, ◌&&◌}
use voltaris_mobility_backen.Prelude.Tests.{eqb, ltb, string_eq, ◌==◌, ==-eq, Bool-cases, and-true}
use mathlib.Core.Logic.{inl, inr}
use voltaris_mobility_backen.Prelude.Int.{ℤ, pos, negsuc}

digit : ℕ → String
digit zero = "0"
digit (suc zero) = "1"
digit (suc (suc zero)) = "2"
digit (suc (suc (suc zero))) = "3"
digit (suc (suc (suc (suc zero)))) = "4"
digit (suc (suc (suc (suc (suc zero))))) = "5"
digit (suc (suc (suc (suc (suc (suc zero)))))) = "6"
digit (suc (suc (suc (suc (suc (suc (suc zero))))))) = "7"
digit (suc (suc (suc (suc (suc (suc (suc (suc zero)))))))) = "8"
digit _ = "9"

-- A number has at most as many digits as its value plus one, which is the fuel of `str_ℕ`.
digits : ℕ → ℕ → String
digits zero n = digit (n % 10)
digits (suc fuel) n = elim (ltb n 10) [
  | true ↦ digit n
  | false ↦ digits fuel (n / 10) ++ digit (n % 10)
]

unfoldable pub str_ℕ : ℕ → String
unfolding digit digits
str_ℕ n = digits n n

unfoldable pub str : ℤ → String
unfolding str_ℕ
str (pos n) = str_ℕ n
str (negsuc n) = "-" ++ str_ℕ (suc n)

-- `len(text)`
unfoldable pub str_length : String → ℕ
str_length String.[] = 0
str_length (String.◌∷◌ c s) = suc (str_length s)

-- `text.startswith(prefix)`
unfoldable pub starts_with : String → String → Bool
starts_with String.[] text = true
starts_with (String.◌∷◌ c prefix) String.[] = false
starts_with (String.◌∷◌ c prefix) (String.◌∷◌ d text) =
    eqb (code c) (code d) && starts_with prefix text

-- `text[:n]`
unfoldable pub prefix : ℕ → String → String
prefix zero text = ""
prefix (suc n) String.[] = ""
prefix (suc n) (String.◌∷◌ c s) = String.◌∷◌ c (prefix n s)

-- `text.isascii()`
unfoldable pub is_ascii : String → Bool
is_ascii String.[] = true
is_ascii (String.◌∷◌ c s) = ltb (code c) 128 && is_ascii s

-- No character of the text is the separator.
abbrev pub lacks : ℕ → String → Bool
lacks sep String.[] = true
lacks sep (String.◌∷◌ c s) = not (eqb (code c) sep) && lacks sep s

pub cons_append : (c : Char) (s t : String) → String.◌∷◌ c s ++ t ≡ String.◌∷◌ c (s ++ t)
cons_append c s t = λ i. append.cons c s t i

pub nil_append : (t : String) → "" ++ t ≡ t
nil_append t = λ i. append.nil t i

-- A printed number has a digit and no comma.
abbrev pub IsPrinted : String → Type 0
IsPrinted s = (lacks b',' s ≡ true) × ((s == "") ≡ false)

and-intro : {a b : Bool} → a ≡ true → b ≡ true → (a && b) ≡ true
and-intro f g = rw (f, g)

-- Whether the text is empty.
is_blank : String → Bool
is_blank String.[] = true
is_blank (String.◌∷◌ c s) = false

cons-blank : (c : Char) (s : String) → (String.◌∷◌ c s == "") ≡ false
unfolding is_blank
cons-blank c s = elim (Bool-cases (String.◌∷◌ c s == "")) [
  | inl same ↦ absurd (cc (ap is_blank (==-eq (String.◌∷◌ c s) "" same)))
  | inr differs ↦ differs
]

lacks-append :
    (a b : String) → lacks b',' a ≡ true → lacks b',' b ≡ true → lacks b',' (a ++ b) ≡ true
lacks-append String.[] b f g = ap (lacks b',') (nil_append b) ∙ g
lacks-append (String.◌∷◌ c a) b f g =
    let (other, rest) = and-true (not (eqb (code c) b',')) (lacks b',' a) f in
    let e = ap (lacks b',') (cons_append c a b) in
    let ih = lacks-append a b rest g in e ∙ and-intro other ih

append-IsPrinted : (a b : String) → IsPrinted a → IsPrinted b → IsPrinted (a ++ b)
append-IsPrinted String.[] b f g = absurd (cc (f.1))
append-IsPrinted (String.◌∷◌ c a) b f g = (
  lacks-append (String.◌∷◌ c a) b f.0 g.0,
  ap (λ s. s == "") (cons_append c a b) ∙ cons-blank c (a ++ b),
)

digit-IsPrinted : (n : ℕ) → IsPrinted (digit n)
unfolding digit
digit-IsPrinted zero = (refl, refl)
digit-IsPrinted (suc zero) = (refl, refl)
digit-IsPrinted (suc (suc zero)) = (refl, refl)
digit-IsPrinted (suc (suc (suc zero))) = (refl, refl)
digit-IsPrinted (suc (suc (suc (suc zero)))) = (refl, refl)
digit-IsPrinted (suc (suc (suc (suc (suc zero))))) = (refl, refl)
digit-IsPrinted (suc (suc (suc (suc (suc (suc zero)))))) = (refl, refl)
digit-IsPrinted (suc (suc (suc (suc (suc (suc (suc zero))))))) = (refl, refl)
digit-IsPrinted (suc (suc (suc (suc (suc (suc (suc (suc zero)))))))) = (refl, refl)
digit-IsPrinted (suc (suc (suc (suc (suc (suc (suc (suc (suc _))))))))) = (refl, refl)

digits-IsPrinted : (fuel n : ℕ) → IsPrinted (digits fuel n)
unfolding digits
digits-IsPrinted zero n = digit-IsPrinted (n % 10)
digits-IsPrinted (suc fuel) n =
    branch (ltb n 10)
      (append-IsPrinted _ _ (digits-IsPrinted fuel (n / 10)) (digit-IsPrinted (n % 10)))
  where
    branch :
        (b : Bool)
        → IsPrinted (digits fuel (n / 10) ++ digit (n % 10))
        → IsPrinted (elim b [ true ↦ digit n | false ↦ digits fuel (n / 10) ++ digit (n % 10) ])
    branch true h = digit-IsPrinted n
    branch false h = h

pub str_ℕ-IsPrinted : (n : ℕ) → IsPrinted (str_ℕ n)
unfolding str_ℕ
str_ℕ-IsPrinted n = digits-IsPrinted n n
