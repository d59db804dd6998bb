-- ===== src/Vehicles/Details.antt =====
-- What the page of one vehicle shows, and a comparison: app/modules/vehicles/service.py.
use voltaris_mobility_backen.Prelude.{
  String, string_eq, ◌==◌, ==-eq, ◌≡◌, refl, sym, ap, ◌∙◌, subst, false, ◌⊎◌, inl, inr, and-true,
  Option, none, some, arith,
}
use voltaris_mobility_backen.Core.Platform.{Platform, IsQuiet}
use voltaris_mobility_backen.Core.Errors.{vehicle_not_found}
use voltaris_mobility_backen.Core.Action.{ok, State, pure, ◌>>=◌}
use voltaris_mobility_backen.Core.Keeps.{Keeps, Stable, keeps_rules, Keeps-pure}
use voltaris_mobility_backen.Core.Returns.{
  Returns, IsQuiet-Stable, Returns-pure, Returns-map, Returns-keep, Returns-or_raise,
  Returns-find_one,
}
use voltaris_mobility_backen.Core.Security.{non_empty}
use voltaris_mobility_backen.Database.Rows.{IsIn}
use voltaris_mobility_backen.Database.Collections
use voltaris_mobility_backen.Database.Collections.{Db}
use voltaris_mobility_backen.Dealers.Models.{Dealer}
use voltaris_mobility_backen.Vehicles.Models.{Vehicle, status_eq}
use voltaris_mobility_backen.Vehicles.Filter.{is_public}
use voltaris_mobility_backen.Vehicles.Views.{
  Seller, dealer, dealer_seller, contact, private_view, Detail, detail_of,
}
use voltaris_mobility_backen.Vehicles.Service.{seller, seller_of, dealer_row, detail, get_by_slug}
use voltaris_mobility_backen.Vehicles.Sound.{SameShop, IsPublic, is_public_lem}

-- The seller of a page: the stored dealer of the vehicle, whose numbers are shown only where the
-- dealer has opted in, or a private seller, of whom there is no number at all.
abbrev pub IsSeller : Db → Vehicle → Seller → Type 0
IsSeller db v s =
    (s ≡ private_view v)
    ⊎ ((d : Dealer) × IsIn db.dealers d
        × (v.dealer_id ≡ some d.id)
        × (s ≡ dealer_seller d)
        × (d.public_contact ≡ false → s ≡ dealer d.name d.slug d.verified none none))

hidden : (d : Dealer) (value : Option String) → d.public_contact ≡ false → contact d value ≡ none
hidden d value h = ground arith

dealer-IsSeller :
    (db : Db) (v : Vehicle) (d : Dealer)
    → IsIn db.dealers d
    → v.dealer_id ≡ some d.id
    → IsSeller db v (dealer_seller d)
dealer-IsSeller db v d stored meant = inr (
  d,
  stored,
  meant,
  refl,
  λ h.
      ap (λ x. dealer d.name d.slug d.verified x (contact d d.whatsapp)) (hidden d d.phone h)
      ∙ ap (λ x. dealer d.name d.slug d.verified none x) (hidden d d.whatsapp h),
)

non_empty-some : (o : Option String) (s : String) → non_empty o ≡ some s → o ≡ some s
non_empty-some o s h = ground arith

module _ (p : Platform) (quiet : IsQuiet p) (before : Db) where
  stable : Stable p (SameShop before)
  stable = IsQuiet-Stable (SameShop before) quiet

  dealer_row-Returns :
      (v : Vehicle) (o : Option String)
      → non_empty v.dealer_id ≡ o
      → Returns
          (SameShop before)
          (dealer_row p o >>= (λ row. pure (seller_of v row)))
          (IsSeller before v)
  dealer_row-Returns v none e =
      Returns-keep _ _ (Keeps-pure none) (Returns-pure {Q = λ r. r ≡ none} none refl)
        (λ row absent. Returns-pure _ (inl (ap (seller_of v) absent)))
  dealer_row-Returns v (some id) e =
      Returns-find_one p stable Collections.dealers _ _
        (λ db d rest same w m. Returns-pure _ (
          dealer-IsSeller before v d (subst (λ ds. IsIn ds d) same.1 (rest, w))
            (non_empty-some v.dealer_id id e ∙ ap some (sym (==-eq _ _ m)))))
        (λ db same none_match. Returns-pure _ (inl refl))

  seller-Returns : (v : Vehicle) → Returns (SameShop before) (seller p v) (IsSeller before v)
  unfolding seller
  seller-Returns v = dealer_row-Returns v (non_empty v.dealer_id) refl

  dealer_row-Keeps : (o : Option String) → Keeps (SameShop before) (dealer_row p o)
  dealer_row-Keeps none = search keeps_rules
  dealer_row-Keeps (some id) = search (keeps_rules, stable)

  seller-Keeps : (v : Vehicle) → Keeps (SameShop before) (seller p v)
  unfolding seller
  seller-Keeps v = search (keeps_rules, dealer_row-Keeps)

  pub detail-Returns :
      (v : Vehicle)
      → Returns
          (SameShop before)
          (detail p v)
          (λ d. (s : Seller) × IsSeller before v s × (d ≡ detail_of v s))
  unfolding detail
  detail-Returns v =
      Returns-keep _ _ (seller-Keeps v) (seller-Returns v)
        (λ s is_seller. Returns-pure _ (s, is_seller, refl))

  pub detail-Keeps : (v : Vehicle) → Keeps (SameShop before) (detail p v)
  unfolding detail
  detail-Keeps v = search (keeps_rules, seller-Keeps)

  get_by_slug-Returns :
      (slug : String)
      → Returns (SameShop before) (get_by_slug p slug) (λ d.
        (v : Vehicle) × IsIn before.vehicles v
        × (v.slug ≡ slug)
        × IsPublic v
        × ((s : Seller) × IsSeller before v s × (d ≡ detail_of v s)))
  unfolding get_by_slug
  get_by_slug-Returns slug =
      Returns-find_one p stable Collections.vehicles _ _
        (λ db v rest same w m. Returns-or_raise (some v) vehicle_not_found _ (λ x e.
          let (meant, shown) = and-true (v.slug == slug) (is_public v) m in
          Returns-map _
            (λ d known. (
              x,
              subst (IsIn before.vehicles) (some_eq e) (subst (λ vs. IsIn vs v) same.0 (rest, w)),
              subst (λ (y : Vehicle). y.slug ≡ slug) (some_eq e) (==-eq _ _ meant),
              subst IsPublic (some_eq e) (is_public_lem v shown),
              known,
            ))
            (detail-Returns x)))
        (λ db same none_match. Returns-or_raise none vehicle_not_found _ (λ x e. absurd (cc (e))))
    where
      some_eq : {v x : Vehicle} → some v ≡ some x → v ≡ x
      some_eq e = cc

-- Alone on the database, the page of a slug shows a stored vehicle of that slug that has a public
-- status and is not deleted, and its seller: the stored dealer, with a number only where the dealer
-- shows it, or a private seller without one.
pub get_by_slug_lem :
    (p : Platform)
    → IsQuiet p
    → (slug : String) (s : State) (d : Detail) → (get_by_slug p slug s).0 ≡ ok d
    → (v : Vehicle) × IsIn s.db.vehicles v
      × (v.slug ≡ slug)
      × IsPublic v
      × ((x : Seller) × IsSeller s.db v x × (d ≡ detail_of v x))
get_by_slug_lem p quiet slug s d e = (get_by_slug-Returns p quiet s.db slug).at s (refl, refl) d e
