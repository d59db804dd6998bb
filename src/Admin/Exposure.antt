-- ===== src/Admin/Exposure.antt =====
-- What an inspection shows: `inspect` of app/modules/admin/console.py.
use voltaris_mobility_backen.Prelude.{
  ℕ, zero, suc, ◌≤◌, String, string_eq, not-eq-false, ◌≡◌, refl, sym, subst, Bool, true, false,
  get_or, Option, List, [], ◌∷◌, map, length, contains, All, arith, if◌then◌else◌,
}
use voltaris_mobility_backen.Prelude.Int.{ℤ, pos, negsuc}
use voltaris_mobility_backen.Core.Platform.{Platform}
use voltaris_mobility_backen.Core.Action.{Action, ok, State, ◌>>=◌}
use voltaris_mobility_backen.Core.Returns.{
  Returns, Anything, Returns-pure, Returns-raise_if, Returns-lift, Returns-after,
}
use voltaris_mobility_backen.Vehicles.Sound.{length-map}
use voltaris_mobility_backen.Admin.Filter.{
  Node, text, dict, no_fields, Document, redact, always_redact,
}
use voltaris_mobility_backen.Admin.Accepted.{IsHarmless, entries, height, validate_lem}
use voltaris_mobility_backen.Admin.Inspection.{
  RawReads, Inspection, readable, clamp, raw_find, inspect,
}

-- A field that is not of the redacted ones, or the placeholder.
abbrev pub IsRedacted : String × Node → Type 0
IsRedacted (key, value) = contains always_redact key ≡ true → value ≡ text "[redacted]"

redact-IsRedacted : (document : Document) → All IsRedacted (redact document)
unfolding redact
redact-IsRedacted [] = tt
redact-IsRedacted ((key, value) ∷ document) =
    (hidden (contains always_redact key), redact-IsRedacted document)
  where
    hidden : (b : Bool) → b ≡ true → (if b then text "[redacted]" else value) ≡ text "[redacted]"
    hidden true h = refl
    hidden false h = absurd (cc (h))

IsRedacted-rows : (rows : List Document) → All (All IsRedacted) (map redact rows)
IsRedacted-rows [] = tt
IsRedacted-rows (row ∷ rows) = (redact-IsRedacted row, IsRedacted-rows rows)

clamp-bounds : (limit : ℤ) → (1 ≤ clamp limit) × (clamp limit ≤ 200)
clamp-bounds (pos zero) = (omega arith, omega arith)
clamp-bounds (pos (suc n)) = ground arith
clamp-bounds (negsuc n) = (omega arith, omega arith)

pub record IsExposure (raw : RawReads) (collection : String) (query : Option Node) (r : Inspection)
    : Type 0 where
  pub listed : contains readable collection ≡ true
  pub levels : height (get_or query (dict no_fields)) ≤ 6
  pub harmless : All (IsHarmless raw.compiles) (entries (get_or query (dict no_fields)))
  pub hidden : All (All IsRedacted) r.items
  pub few : length r.items ≤ r.limit
  pub limit_bounds : (1 ≤ r.limit) × (r.limit ≤ 200)

module _ (p : Platform) (raw : RawReads) where
  raw_find-Returns :
      {B : Type 0} {Q : B → Type 0} (name : String) (filter : Node) (sort_field : String)
      (descending : Bool) (limit : ℕ) (f : List Document → Action B)
      → ((rows : List Document) → length rows ≤ limit → Returns Anything (f rows) Q)
      → Returns Anything (raw_find p raw name filter sort_field descending limit >>= f) Q
  unfolding ◌>>=◌ raw_find
  raw_find-Returns name filter sort_field descending limit f read = record {
    at = λ s h b x.
        (read _ (raw.within_limit s.calls _ name filter sort_field descending limit)).at _ tt b x;
  }

  inspect-Returns :
      (collection : String) (query : Option Node) (sort_field : String) (descending : Bool)
      (limit : ℤ) (actor_id : String)
      → Returns Anything
          (inspect p raw collection query sort_field descending limit actor_id)
          (IsExposure raw collection query)
  unfolding inspect
  inspect-Returns collection query sort_field descending limit actor_id =
      Returns-raise_if _ _ _ (λ listed. Returns-lift _ _ (λ _ accepted.
        raw_find-Returns collection _ sort_field descending (clamp limit) _ (λ rows few.
          Returns-after _ _ (λ _. Returns-pure _ (
            let (levels, harmless) = validate_lem raw.compiles _ accepted in
            record {
              listed = not-eq-false _ listed;
              levels = levels;
              harmless = harmless;
              hidden = IsRedacted-rows rows;
              few = subst (λ n. n ≤ clamp limit) (sym (length-map redact rows)) few;
              limit_bounds = clamp-bounds limit;
            })))))

-- An inspection is answered only for a readable collection and a filter of at most six levels whose
-- operators and patterns are harmless at every depth; it shows at most as many documents as its
-- limit of one to 200, none of which shows a redacted field.
pub inspect_lem :
    (p : Platform) (raw : RawReads) (collection : String) (query : Option Node)
    (sort_field : String) (descending : Bool) (limit : ℤ) (actor_id : String) (s : State)
    (r : Inspection)
    → (inspect p raw collection query sort_field descending limit actor_id s).0 ≡ ok r
    → IsExposure raw collection query r
inspect_lem p raw collection query sort_field descending limit actor_id s r e =
    (inspect-Returns p raw collection query sort_field descending limit actor_id).at s tt r e
