-- ===== src/Core/Signing.antt =====
-- What `sign_webhook` signs, `verify_webhook_signature` accepts: app/core/security.py.
use Prim.Native.Char.{Char, code}
use Prim.Native.String.{◌++◌}
use voltaris_mobility_backen.Prelude.{
  ℕ, String, string_eq, ◌==◌, ==-refl, ◌≡◌, refl, sym, ap, ◌∙◌, eqb, Bool, true, false, not,
  and-true, some, List, [], ◌∷◌,
}
use voltaris_mobility_backen.Prelude.Int.{pos}
use voltaris_mobility_backen.Prelude.Text.{
  str_ℕ, is_ascii, lacks, cons_append, nil_append, str_ℕ-IsPrinted,
}
use voltaris_mobility_backen.Core.Platform.{Platform}
use voltaris_mobility_backen.Core.Action.{ok}
use voltaris_mobility_backen.Core.Security.{
  split, split_once, get_part, is_outside, expected_digest, compare_digest,
  verify_webhook_signature, sign_webhook,
}

not-true : (b : Bool) → not b ≡ true → b ≡ false
not-true false h = refl
not-true true h = absurd (cc (h))

module _ (sep : ℕ) where
  split-cons :
      (c : Char) (s piece : String) (pieces : List String)
      → eqb (code c) sep ≡ false
      → split sep s ≡ piece ∷ pieces
      → split sep (String.◌∷◌ c s) ≡ String.◌∷◌ c piece ∷ pieces
  unfolding split
  split-cons c s piece pieces h e =
      let joined = cons_append c "" piece ∙ ap (String.◌∷◌ c) (nil_append piece) in
      rw (h, e, joined)

  split-lacks : (s : String) → lacks sep s ≡ true → split sep s ≡ s ∷ []
  unfolding split
  split-lacks String.[] h = refl
  split-lacks (String.◌∷◌ c s) h =
      let (other, rest) = and-true (not (eqb (code c) sep)) (lacks sep s) h in
      split-cons c s s [] (not-true _ other) (split-lacks s rest)

split-comma : (a b : String) → lacks b',' a ≡ true → split b',' (a ++ "," ++ b) ≡ a ∷ split b',' b
unfolding split
split-comma String.[] b h =
    ap (split b',')
      (nil_append ("," ++ b) ∙ cons_append "," "" b ∙ ap (String.◌∷◌ ",") (nil_append b))
split-comma (String.◌∷◌ c a) b h =
    let (other, rest) = and-true (not (eqb (code c) b',')) (lacks b',' a) h in
    ap (split b',') (cons_append c a ("," ++ b))
    ∙ split-cons b',' c (a ++ "," ++ b) a (split b',' b) (not-true _ other) (split-comma a b rest)

-- The parts of a header with a timestamp and a digest.
abbrev parts_of : (ts mac : String) → List String
parts_of ts mac =
    String.◌∷◌ "t" (String.◌∷◌ "=" ts) ∷ String.◌∷◌ "v" (String.◌∷◌ "1" (String.◌∷◌ "=" mac)) ∷ []

get_part-t : (ts mac : String) → get_part "t" (parts_of ts mac) ≡ some ts
unfolding get_part split_once
get_part-t ts mac = refl

get_part-v1 : (ts mac : String) → get_part "v1" (parts_of ts mac) ≡ some mac
unfolding get_part split_once
get_part-v1 ts mac = refl

-- The second part of the header.
abbrev v1 : String → String
v1 mac = String.◌∷◌ "v" (String.◌∷◌ "1" (String.◌∷◌ "=" mac))

sign_webhook-split :
    (p : Platform) (payload secret : String) (ts : ℕ)
    → lacks b',' (expected_digest p secret (str_ℕ ts) payload) ≡ true
    → split b',' (sign_webhook p payload secret ts)
      ≡ parts_of (str_ℕ ts) (expected_digest p secret (str_ℕ ts) payload)
unfolding sign_webhook
sign_webhook-split p payload secret ts plain =
    let mac = expected_digest p secret (str_ℕ ts) payload in
    ap (split b',') (shape (str_ℕ ts) mac)
    ∙ split-comma (String.◌∷◌ "t" (String.◌∷◌ "=" (str_ℕ ts)))
        (String.◌∷◌ "v" (String.◌∷◌ "1" (String.◌∷◌ "=" mac))) ((str_ℕ-IsPrinted ts).0)
    ∙ ap (λ pieces. String.◌∷◌ "t" (String.◌∷◌ "=" (str_ℕ ts)) ∷ pieces)
        (split-lacks b',' (String.◌∷◌ "v" (String.◌∷◌ "1" (String.◌∷◌ "=" mac))) plain)
  where
    t_equals : (s : String) → "t=" ++ s ≡ String.◌∷◌ "t" (String.◌∷◌ "=" s)
    t_equals s =
        cons_append "t" "=" s
        ∙ ap (String.◌∷◌ "t") (cons_append "=" "" s ∙ ap (String.◌∷◌ "=") (nil_append s))

    v_equals :
        (mac : String) → ",v1=" ++ mac ≡ "," ++ String.◌∷◌ "v" (String.◌∷◌ "1" (String.◌∷◌ "=" mac))
    v_equals mac =
        cons_append "," "v1=" mac
        ∙ ap (String.◌∷◌ ",") (
            cons_append "v" "1=" mac
            ∙ ap (String.◌∷◌ "v") (
                cons_append "1" "=" mac
                ∙ ap (String.◌∷◌ "1")
                    (cons_append "=" "" mac ∙ ap (String.◌∷◌ "=") (nil_append mac))))
        ∙ sym (cons_append "," "" (v1 mac) ∙ ap (String.◌∷◌ ",") (nil_append (v1 mac)))

    shape :
        (s mac : String)
        → "t=" ++ s ++ ",v1=" ++ mac
          ≡ String.◌∷◌ "t" (String.◌∷◌ "=" s)
            ++ ","
            ++ String.◌∷◌ "v" (String.◌∷◌ "1" (String.◌∷◌ "=" mac))
    shape s mac =
        t_equals (s ++ ",v1=" ++ mac)
        ∙ ap (λ x. String.◌∷◌ "t" (String.◌∷◌ "=" (s ++ x))) (v_equals mac)
        ∙ sym (
            cons_append "t" (String.◌∷◌ "=" s) ("," ++ v1 mac)
            ∙ ap (String.◌∷◌ "t") (cons_append "=" s ("," ++ v1 mac)))

accepted :
    (p : Platform) (payload secret : String) (tolerance current ts : ℕ)
    → is_ascii (expected_digest p secret (str_ℕ ts) payload) ≡ true
    → is_outside tolerance current (pos ts) ≡ false
    → p.parse_int (str_ℕ ts) ≡ some (pos ts)
    → (expected_digest p secret (str_ℕ ts) payload == "") ≡ false
    → split b',' (sign_webhook p payload secret ts)
      ≡ parts_of (str_ℕ ts) (expected_digest p secret (str_ℕ ts) payload)
    → verify_webhook_signature p payload (sign_webhook p payload secret ts) secret tolerance current
      ≡ ok tt
unfolding verify_webhook_signature compare_digest
accepted p payload secret tolerance current ts ascii within parsed there parts = rw (
  parts,
  get_part-t (str_ℕ ts) (expected_digest p secret (str_ℕ ts) payload),
  get_part-v1 (str_ℕ ts) (expected_digest p secret (str_ℕ ts) payload),
  (str_ℕ-IsPrinted ts).1,
  there,
  parsed,
  within,
  ascii,
  ==-refl (expected_digest p secret (str_ℕ ts) payload),
)

-- Whatever `sign_webhook` signs, `verify_webhook_signature` accepts with the same secret, as long as
-- the signed time is within the tolerance. It relies on three facts of the platform: `int` reads back
-- the printed timestamp, and the digest is a non-empty ASCII text with no comma.
pub sign_webhook-verify_webhook_signature :
    (p : Platform) (payload secret : String) (tolerance current ts : ℕ)
    → (lacks b',' (expected_digest p secret (str_ℕ ts) payload) ≡ true)
    → is_ascii (expected_digest p secret (str_ℕ ts) payload) ≡ true
    → (expected_digest p secret (str_ℕ ts) payload == "") ≡ false
    → p.parse_int (str_ℕ ts) ≡ some (pos ts)
    → is_outside tolerance current (pos ts) ≡ false
    → verify_webhook_signature p payload (sign_webhook p payload secret ts) secret tolerance current
      ≡ ok tt
sign_webhook-verify_webhook_signature p payload secret tolerance current ts plain ascii there parsed
      within =
    accepted p payload secret tolerance current ts ascii within parsed there
      (sign_webhook-split p payload secret ts plain)
