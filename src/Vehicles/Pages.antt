-- ===== src/Vehicles/Pages.antt =====
-- Page numbers and sizes, and the number of pages: `VehicleService.list` of
-- app/modules/vehicles/service.py, and the other listings.
use voltaris_mobility_backen.Prelude.{
  ℕ, zero, suc, ◌-◌, ◌*◌, ◌/◌, ◌≤◌, ◌<◌, ◌≡◌, ◌⊎◌, refl, sym, ap, ◌∙◌, subst, inl, inr, ltb, Option,
  none, some, Bool, true, false, arith, if◌then◌else◌, nat_eq,
}
use voltaris_mobility_backen.Prelude.Int.{ℤ, pos, negsuc, ◌-ℤ◌, floor_div, int_eq}
use voltaris_mobility_backen.Orders.Pricing.{or_default}

-- `max(1, n)` and `min(limit, n)`
abbrev pub at_least_one : ℤ → ℕ
at_least_one (pos zero) = 1
at_least_one (pos (suc n)) = suc n
at_least_one (negsuc n) = 1

abbrev pub at_most : ℕ → ℕ → ℕ
at_most limit n = if ltb limit n then limit else n

abbrev pub max_per_page : ℕ
max_per_page = 48

unfoldable pub page_of : Option ℤ → ℕ
page_of page = at_least_one (or_default page (pos 1))

unfoldable pub per_page_of : Option ℤ → ℕ
per_page_of per_page = at_most max_per_page (at_least_one (or_default per_page (pos 24)))

-- `max(1, -(-total // per_page))`, for a positive `per_page`
unfoldable pub total_pages : ℕ → ℕ → ℕ
unfolding floor_div ◌-ℤ◌
total_pages total per_page = at_least_one (pos 0 -ℤ floor_div (pos 0 -ℤ pos total) per_page)

-- The page that is asked for: the one that is named, and the first where none, zero or a number
-- below zero is.
pub data IsPage : Option ℤ → ℕ → Type 0 where
  unnamed : IsPage none 1
  zeroth : IsPage (some (pos 0)) 1
  negative : (n : ℕ) → IsPage (some (negsuc n)) 1
  named : (n : ℕ) → IsPage (some (pos (suc n))) (suc n)

-- The size that is asked for: 24 where none or zero is, one where a number below zero is, and at
-- most 48.
pub data IsSize : Option ℤ → ℕ → Type 0 where
  unsized : IsSize none 24
  zero_size : IsSize (some (pos 0)) 24
  below_zero : (n : ℕ) → IsSize (some (negsuc n)) 1
  sized : (n : ℕ) → suc n ≤ 48 → IsSize (some (pos (suc n))) (suc n)
  capped : (n : ℕ) → 48 < suc n → IsSize (some (pos (suc n))) 48

or_default-suc : (n : ℕ) (d : ℤ) → or_default (some (pos (suc n))) d ≡ pos (suc n)
or_default-suc n d = ground arith

or_default-negsuc : (n : ℕ) (d : ℤ) → or_default (some (negsuc n)) d ≡ negsuc n
or_default-negsuc n d = ground arith

pub page_of-IsPage : (page : Option ℤ) → IsPage page (page_of page)
unfolding page_of
page_of-IsPage none = unnamed
page_of-IsPage (some (pos zero)) = zeroth
page_of-IsPage (some (pos (suc n))) =
    subst (λ z. IsPage (some (pos (suc n))) (at_least_one z)) (sym (or_default-suc n (pos 1)))
      (named n)
page_of-IsPage (some (negsuc n)) =
    subst (λ z. IsPage (some (negsuc n)) (at_least_one z)) (sym (or_default-negsuc n (pos 1)))
      (negative n)

pub per_page_of-IsSize : (per_page : Option ℤ) → IsSize per_page (per_page_of per_page)
unfolding per_page_of
per_page_of-IsSize none = unsized
per_page_of-IsSize (some (pos zero)) = zero_size
per_page_of-IsSize (some (negsuc n)) =
    subst (λ z. IsSize (some (negsuc n)) (at_most max_per_page (at_least_one z)))
      (sym (or_default-negsuc n (pos 24))) (below_zero n)
per_page_of-IsSize (some (pos (suc n))) =
    subst (λ z. IsSize (some (pos (suc n))) (at_most max_per_page (at_least_one z)))
      (sym (or_default-suc n (pos 24))) (branch (ltb 48 (suc n)) refl)
  where
    branch : (b : Bool) → ltb 48 (suc n) ≡ b → IsSize (some (pos (suc n))) (if b then 48 else suc n)
    branch true e = capped n (ground arith)
    branch false e = sized n (ground arith)

pub page_of-positive : (page : Option ℤ) → 1 ≤ page_of page
unfolding page_of
page_of-positive page = positive (or_default page (pos 1))
  where
    positive : (n : ℤ) → 1 ≤ at_least_one n
    positive (pos zero) = omega arith
    positive (pos (suc n)) = omega arith
    positive (negsuc n) = omega arith

pub per_page_of-bounds : (n : Option ℤ) → (1 ≤ per_page_of n) × (per_page_of n ≤ 48)
unfolding per_page_of
per_page_of-bounds n = bounded (or_default n (pos 24))
  where
    bounded :
        (n : ℤ)
        → (1 ≤ at_most max_per_page (at_least_one n)) × (at_most max_per_page (at_least_one n) ≤ 48)
    bounded (pos zero) = (omega arith, omega arith)
    bounded (pos (suc n)) = ground arith
    bounded (negsuc n) = (omega arith, omega arith)

neg-pos : (n : ℕ) → pos 0 -ℤ pos (suc n) ≡ negsuc n
unfolding ◌-ℤ◌
neg-pos n = ground arith

neg-negsuc : (n : ℕ) → pos 0 -ℤ negsuc n ≡ pos (suc n)
unfolding ◌-ℤ◌
neg-negsuc n = ground arith

total_pages-suc : (n per_page : ℕ) → total_pages (suc n) per_page ≡ suc (n / per_page)
unfolding total_pages floor_div
total_pages-suc n per_page =
    ap (λ z. at_least_one (pos 0 -ℤ floor_div z per_page)) (neg-pos n)
    ∙ ap at_least_one (neg-negsuc (n / per_page))

zero-div : (n : ℕ) → 1 ≤ n → 0 / n ≡ 0
zero-div n h = grind arith

total_pages-zero : (per_page : ℕ) → 1 ≤ per_page → total_pages 0 per_page ≡ 1
unfolding total_pages floor_div
total_pages-zero per_page h =
    ap (λ z. at_least_one (pos 0 -ℤ floor_div z per_page)) zero-neg
    ∙ ap (λ n. at_least_one (pos 0 -ℤ pos n)) (zero-div per_page h)
    ∙ ap at_least_one zero-neg
  where
    zero-neg : pos 0 -ℤ pos 0 ≡ pos 0
    zero-neg = refl

rounded_up :
    (n per_page : ℕ)
    → 1 ≤ per_page
    → (n / per_page * per_page ≤ n) × (suc n ≤ suc (n / per_page) * per_page)
rounded_up n per_page h = grind arith

-- The number of pages is the total divided by the size, rounded up, and at least one: the pages
-- hold all documents, and without the last one they do not.
pub total_pages_lem :
    (total per_page : ℕ)
    → 1 ≤ per_page
    → (1 ≤ total_pages total per_page)
      × (total ≤ total_pages total per_page * per_page)
      × ((total_pages total per_page ≡ 1) ⊎ ((total_pages total per_page - 1) * per_page < total))
total_pages_lem zero per_page h =
    let one = total_pages-zero per_page h in
    (subst (λ n. 1 ≤ n) (sym one) (omega arith), omega arith, inl one)
total_pages_lem (suc n) per_page h =
    let (below, above) = rounded_up n per_page h in
    subst
      (λ pages.
        (1 ≤ pages) × (suc n ≤ pages * per_page) × ((pages ≡ 1) ⊎ ((pages - 1) * per_page < suc n)))
      (sym (total_pages-suc n per_page)) (omega arith, above, inr (grind arith))
