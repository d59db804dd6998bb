-- ===== src/Database/Bags.antt =====
-- Predicates on all documents of a collection, and on all pairs of them, under the changes that
-- the driver makes.
use voltaris_mobility_backen.Prelude.{
  ◌≡◌, refl, ◌∙◌, ◌⊎◌, inl, inr, Bool, false, List, [], ◌∷◌, All, All-map,
}
use voltaris_mobility_backen.Database.Mongo.{With, here, there, NoneMatch}

module _ {D : Type 0} where
  module _ (P : D → Type 0) where
    pub All-take : {d : D} {rest ds : List D} → With d rest ds → All P ds → P d × All P rest
    All-take (here rest) h = h
    All-take (there e w) h = let (pd, pr) = All-take w h.1 in (pd, (h.0, pr))

    pub All-put : {d : D} {rest ds : List D} → With d rest ds → P d → All P rest → All P ds
    All-put (here rest) pd h = (pd, h)
    All-put (there e w) pd h = (h.0, All-put w pd h.1)

    -- One document is replaced by another that satisfies the predicate.
    pub All-replace :
        {d d' : D} {rest ds ds' : List D}
        → With d rest ds
        → With d' rest ds'
        → All P ds
        → (P d → P d')
        → All P ds'
    All-replace w v h f = let (pd, pr) = All-take w h in All-put v (f pd) pr

  -- No two documents clash.
  abbrev pub Distinct : (D → D → Bool) → List D → Type 0
  Distinct clash [] = Unit
  Distinct clash (d ∷ ds) = NoneMatch (clash d) ds × Distinct clash ds

  module _ (clash : D → D → Bool) (symmetric : (a b : D) → clash a b ≡ clash b a) where
    pub Distinct-take :
        {d : D} {rest ds : List D}
        → With d rest ds
        → Distinct clash ds
        → NoneMatch (clash d) rest × Distinct clash rest
    Distinct-take (here rest) h = h
    Distinct-take {d} (there e w) h =
        let (nd, dr) = Distinct-take w h.1 in
        let (ed, er) = All-take (λ x. clash e x ≡ false) w h.0 in
        ((symmetric d e ∙ ed, nd), (er, dr))

    pub Distinct-put :
        {d : D} {rest ds : List D}
        → With d rest ds
        → NoneMatch (clash d) rest
        → Distinct clash rest
        → Distinct clash ds
    Distinct-put (here rest) n h = (n, h)
    Distinct-put {d} (there e w) n h =
        (All-put (λ x. clash e x ≡ false) w (symmetric e d ∙ n.0) h.0, Distinct-put w n.1 h.1)

    -- A replacement that clashes with nothing with which the old document did not clash.
    pub Distinct-replace :
        {d d' : D} {rest ds ds' : List D}
        → With d rest ds
        → With d' rest ds'
        → ((e : D) → clash d e ≡ false → clash d' e ≡ false)
        → Distinct clash ds
        → Distinct clash ds'
    Distinct-replace {rest = rest} w v f h =
        let (nd, dr) = Distinct-take w h in Distinct-put v (All-map _ _ rest f nd) dr

-- Two documents of a list are the same one, or each is among the others of the other.
pub With-cases :
    {D : Type 0} {u d : D} {r rest ds : List D}
    → With u r ds
    → With d rest ds
    → (u ≡ d) ⊎ ((r' : List D) × With d r' r)
With-cases (here r) (here _) = inl refl
With-cases (here r) (there e v) = inr (_, v)
With-cases (there e w) (here _) = inr (_, here _)
With-cases (there e w) (there _ v) = elim (With-cases w v) [
  | inl same ↦ inl same
  | inr other ↦ inr (e ∷ other.0, there e other.1)
]

-- A document stays one of the list when another is put among them.
pub With-put :
    {D : Type 0} {x d : D} {r rest ds : List D}
    → With x r rest
    → With d rest ds
    → (r' : List D) × With x r' ds
With-put {d} v (here _) = (_, there d v)
With-put (here _) (there e w) = (_, here _)
With-put (there _ v) (there e w) = let (r', v') = With-put v w in (e ∷ r', there e v')
