-- ===== src/Leads/Throttle.antt =====
-- What an enquiry leaves behind: `create_inquiry` of app/modules/leads/service.py.
use voltaris_mobility_backen.Prelude.{
  ℕ, ◌-◌, ◌<◌, String, ◌≡◌, refl, ap, ◌∙◌, Bool, true, false, is_some, leb, none, length, arith,
}
use voltaris_mobility_backen.Core.Errors.{rate_limited}
use voltaris_mobility_backen.Core.Platform.{Platform, IsQuiet}
use voltaris_mobility_backen.Core.Action.{ok, State, raise_if}
use voltaris_mobility_backen.Core.Keeps.{
  Keeps, Stable, Ignores, keeps_rules, Keeps-insert_ignored, Keeps-bind, Keeps-if,
}
use voltaris_mobility_backen.Core.Returns.{IsQuiet-Stable}
use voltaris_mobility_backen.Core.Timed.{ReturnsAt, At-returns, At-then, At-utc_now}
use voltaris_mobility_backen.Core.Many.{
  Returns-count_documents, Returns-guard, Keeps-count_documents,
}
use voltaris_mobility_backen.Core.Security.{non_empty}
use voltaris_mobility_backen.Database.Reads.{select}
use voltaris_mobility_backen.Database.Collections
use voltaris_mobility_backen.Database.Collections.{Db}
use voltaris_mobility_backen.Audit.Models.{Change}
use voltaris_mobility_backen.Audit.Service.{record_change}
use voltaris_mobility_backen.Leads.Service.{
  InquiryForm, Receipt, is_recent, hour, reference, throttle, trapped, create_inquiry,
}

module _ (p : Platform) (quiet : IsQuiet p) (before : Db) where
  abbrev Same : Db → Type 0
  Same db = db.inquiries ≡ before.inquiries

  stable : Stable p Same
  stable = IsQuiet-Stable Same quiet

  ignores : Ignores Same Collections.audit_logs
  ignores = record { at = λ db ds h. h }

  record_change-Keeps : (c : Change) → Keeps Same (record_change p c)
  unfolding record_change
  record_change-Keeps c =
      search (keeps_rules, Keeps-insert_ignored Collections.audit_logs p stable ignores)

  reference-Keeps : (prefix : String) → Keeps Same (reference p prefix)
  unfolding reference
  reference-Keeps prefix = search keeps_rules

  trapped-Keeps : (form : InquiryForm) → Keeps Same (trapped p form)
  unfolding trapped
  trapped-Keeps form = search (keeps_rules, record_change-Keeps, reference-Keeps)

  -- The address opened fewer than five enquiries in the hour before `now`.
  abbrev HasRoom : String → ℕ → Type 0
  HasRoom email now = length (select (is_recent (p.lower email) (now - hour)) before.inquiries) < 5

  throttle-At :
      (email : String) (s : State)
      → Same s.db
      → ReturnsAt s (throttle p email) (λ _. HasRoom email (p.now s.calls))
  unfolding throttle
  throttle-At email s h = At-utc_now p s _ (
      At-returns _ _
        (Returns-count_documents p Collections.inquiries stable _ none _ (λ db n same counts.
          Returns-guard _ _ (λ below. few n _ below (
            counts
            ∙ ap (λ xs. length (select (is_recent (p.lower email) (p.now s.calls - hour)) xs))
                same))))
        h)
    where
      few : (n k : ℕ) → leb 5 n ≡ false → n ≡ k → k < 5
      few n k below e = ground arith

  throttle-Keeps : (email : String) → Keeps Same (throttle p email)
  unfolding throttle
  throttle-Keeps email = Keeps-bind _ _ (search keeps_rules) (λ now.
      Keeps-bind _ _ (Keeps-count_documents p Collections.inquiries stable _ none) (λ n. guard _))
    where
      guard : (b : Bool) → Keeps Same (raise_if b rate_limited)
      guard true = record { at = λ s h. h }
      guard false = record { at = λ s h. h }

  create_inquiry-At :
      (form : InquiryForm) (s : State)
      → is_some (non_empty form.honeypot) ≡ false
      → Same s.db
      → ReturnsAt s (create_inquiry p form) (λ r. HasRoom form.email (p.now s.calls))
  unfolding create_inquiry
  create_inquiry-At form s open_trap h =
      rw open_trap
        (At-then s _ _ (throttle-At form.email s h) (λ _ room. record { at = λ s h a x. room }))

  create_inquiry-Keeps :
      (form : InquiryForm)
      → is_some (non_empty form.honeypot) ≡ true
      → Keeps Same (create_inquiry p form)
  unfolding create_inquiry
  create_inquiry-Keeps form filled =
      Keeps-if (is_some (non_empty form.honeypot)) _ _ (λ _. trapped-Keeps form)
        (λ open_trap. absurd (cc (filled, open_trap)))

-- Alone on the database, an enquiry whose trap is filled stores none, however the call ends; one
-- whose trap is empty is answered only if its address opened fewer than five enquiries in the hour
-- before the clock's time at the start of the call.
pub create_inquiry_lem :
    (p : Platform)
    → IsQuiet p
    → (form : InquiryForm) (s : State)
    → (is_some (non_empty form.honeypot) ≡ true
        → (create_inquiry p form s).1.db.inquiries ≡ s.db.inquiries)
      × ((r : Receipt)
          → is_some (non_empty form.honeypot) ≡ false
          → (create_inquiry p form s).0 ≡ ok r
          → length (select (is_recent (p.lower form.email) (p.now s.calls - hour)) s.db.inquiries)
            < 5)
create_inquiry_lem p quiet form s = (
  (λ filled. (create_inquiry-Keeps p quiet s.db form filled).at s refl),
  (λ r open_trap e. (create_inquiry-At p quiet s.db form s open_trap refl).at r e),
)
