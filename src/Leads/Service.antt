-- ===== src/Leads/Service.antt =====
-- `LeadService` of app/modules/leads/service.py. The decoding of a date is the parameter `Calendar`.
use Prim.Native.String.{◌++◌}
use voltaris_mobility_backen.Prelude.{
  ℕ, ◌-◌, ◌*◌, String, string_eq, ◌==◌, Bool, not, ◌&&◌, is_some, leb, ltb, Option, none, some, [],
  ◌∷◌, if◌then◌else◌,
}
use voltaris_mobility_backen.Prelude.Text.{str}
use voltaris_mobility_backen.Core.Errors.{
  rate_limited, vehicle_not_found, invalid_request, order_not_found,
}
use voltaris_mobility_backen.Core.Platform.{Platform}
use voltaris_mobility_backen.Core.Action.{
  Action, pure, or_raise, raise_if, ◌>>=◌, ◌>>◌, uuid4_hex, token_hex, utc_now, find_one,
  insert_one, count_documents,
}
use voltaris_mobility_backen.Core.Security.{non_empty}
use voltaris_mobility_backen.Database.Collections
use voltaris_mobility_backen.Audit.Models.{text, text_or_null}
use voltaris_mobility_backen.Audit.Service.{record_change}
use voltaris_mobility_backen.Vehicles.Models.{Vehicle}
use voltaris_mobility_backen.Leads.Models.{Inquiry}

abbrev pub max_inquiries_per_hour : ℕ
max_inquiries_per_hour = 5

-- A time is in microseconds.
abbrev pub hour : ℕ
hour = 3600 * 1000000

-- `datetime.fromisoformat(text).date()`, none for a `ValueError`, and the date of a time; a date is
-- the number of its day.
pub record Calendar : Type 0 where
  pub date_from_iso : String → Option ℕ
  pub date_of : ℕ → ℕ

pub record Receipt : Type 0 where
  pub reference : String
  pub status : String

-- What a visitor sends.
pub record InquiryForm : Type 0 where
  pub full_name : String
  pub email : String
  pub phone : String
  pub message : String
  pub vehicle_id : Option String
  pub preferred_channel : Option String
  pub topic : Option String
  pub source : String
  pub customer_id : Option String
  pub honeypot : Option String
  pub ip : Option String

pub record TestDriveForm : Type 0 where
  pub vehicle_id : String
  pub full_name : String
  pub email : String
  pub phone : String
  pub preferred_date : String
  pub preferred_time_slot : String
  pub location_slug : String
  pub notes : Option String
  pub customer_id : Option String
  pub ip : Option String

abbrev pub title_of : Vehicle → String
title_of v = str v.year ++ " " ++ v.make ++ " " ++ v.model

-- The enquiries of an address since a time.
abbrev pub is_recent : String → ℕ → Inquiry → Bool
is_recent email since x = x.email == email && leb since x.created_at

module _ (p : Platform) where
  -- `_reference`
  unfoldable pub reference : String → Action String
  reference prefix = do
    now ← utc_now p
    random ← token_hex p 3
    pure (prefix ++ "-" ++ p.strftime "%y%m" now ++ "-" ++ p.upper random)

  -- `_throttle`
  unfoldable pub throttle : String → Action (Unit {0})
  throttle email = do
    now ← utc_now p
    recent ← count_documents p Collections.inquiries (is_recent (p.lower email) (now - hour)) none
    raise_if (leb max_inquiries_per_hour recent) rate_limited

  abbrev titled_vehicle : Option String → Action (Option String)
  titled_vehicle none = pure none
  titled_vehicle (some vehicle_id) = do
    row ← find_one p Collections.vehicles (λ v. v.id == vehicle_id)
    v ← or_raise row vehicle_not_found
    pure (some (title_of v))

  -- A filled trap is answered like an enquiry.
  unfoldable pub trapped : InquiryForm → Action Receipt
  trapped form = do
    record_change p (record {
      action = "inquiry.honeypot_triggered";
      entity_type = "inquiry";
      entity_id = "rejected";
      actor_id = none;
      before = none;
      after = some (("email", text "[redacted]") ∷ ("source", text form.source) ∷ []);
      ip = form.ip;
    })
    order_reference ← reference "INQ"
    pure (record { reference = order_reference; status = "received" })

  unfoldable pub store_inquiry : InquiryForm → Action Receipt
  store_inquiry form = do
    vehicle_title ← titled_vehicle (non_empty form.vehicle_id)
    inquiry_reference ← reference "INQ"
    id ← uuid4_hex p
    created ← utc_now p
    changed ← utc_now p
    insert_one p Collections.inquiries (record {
      id = id;
      reference = inquiry_reference;
      customer_id = form.customer_id;
      vehicle_id = form.vehicle_id;
      vehicle_title = vehicle_title;
      full_name = form.full_name;
      email = p.lower form.email;
      phone = form.phone;
      message = form.message;
      preferred_channel = form.preferred_channel;
      topic = form.topic;
      source = form.source;
      status = "NEW";
      assigned_to = none;
      created_at = created;
      updated_at = changed;
    })
    record_change p (record {
      action = "inquiry.created";
      entity_type = "inquiry";
      entity_id = inquiry_reference;
      actor_id = form.customer_id;
      before = none;
      after = some (
          ("vehicle_id", text_or_null form.vehicle_id)
          ∷ ("topic", text_or_null form.topic)
          ∷ ("source", text form.source)
          ∷ []);
      ip = form.ip;
    })
    pure (record { reference = inquiry_reference; status = "received" })

  -- `create_inquiry`
  unfoldable pub create_inquiry : InquiryForm → Action Receipt
  create_inquiry form =
      if is_some (non_empty form.honeypot)
      then trapped form
      else (throttle form.email >>= (λ _. store_inquiry form))

  -- `request_test_drive` from the checks of the date on
  unfoldable pub book_test_drive : Calendar → TestDriveForm → Vehicle → Action Receipt
  book_test_drive calendar form v = do
    chosen ← or_raise (calendar.date_from_iso form.preferred_date) invalid_request
    today ← utc_now p
    raise_if (ltb chosen (calendar.date_of today)) invalid_request
    drive_reference ← reference "TD"
    id ← uuid4_hex p
    created ← utc_now p
    changed ← utc_now p
    insert_one p Collections.test_drives (record {
      id = id;
      reference = drive_reference;
      customer_id = form.customer_id;
      vehicle_id = form.vehicle_id;
      vehicle_slug = v.slug;
      vehicle_title = title_of v;
      full_name = form.full_name;
      email = p.lower form.email;
      phone = form.phone;
      preferred_date = form.preferred_date;
      preferred_time_slot = form.preferred_time_slot;
      location_slug = form.location_slug;
      notes = form.notes;
      status = "requested";
      scheduled_for = none;
      assigned_to = none;
      created_at = created;
      updated_at = changed;
    })
    record_change p (record {
      action = "test_drive.created";
      entity_type = "test_drive";
      entity_id = drive_reference;
      actor_id = form.customer_id;
      before = none;
      after =
          some (
            ("vehicle_id", text form.vehicle_id) ∷ ("location_slug", text form.location_slug) ∷ []);
      ip = form.ip;
    })
    pure (record { reference = drive_reference; status = "requested" })

  -- `request_test_drive`
  unfoldable pub request_test_drive : Calendar → TestDriveForm → Action Receipt
  request_test_drive calendar form = do
    row ← find_one p Collections.vehicles (λ v. v.id == form.vehicle_id)
    v ← or_raise row vehicle_not_found
    raise_if (not v.test_drive_available) invalid_request
    book_test_drive calendar form v

  -- `get_test_drive`: the reference, the status and the time, and nothing of the customer
  unfoldable pub get_test_drive : String → Action (String × String × Option String)
  get_test_drive drive_reference = do
    row ← find_one p Collections.test_drives (λ x. x.reference == drive_reference)
    x ← or_raise row order_not_found
    pure (x.reference, x.status, x.scheduled_for)
