-- ===== src/Database/Indexes.antt =====
-- The unique indexes of app/infrastructure/database/indexes.py, with the primary key `_id` that
-- every collection has: a test for two documents that may not stand in one collection.
use voltaris_mobility_backen.Prelude.{
  string_eq, option_eq, ◌==◌, Bool, false, ◌&&◌, ◌||◌, List, [], ◌∷◌, contains,
}
use voltaris_mobility_backen.Orders.Models.{Order, IdempotencyKey, status_eq, active_order_statuses}
use voltaris_mobility_backen.Vehicles.Models.{Vehicle}
use voltaris_mobility_backen.Payments.Models.{Payment, PaymentEvent}
use voltaris_mobility_backen.Commissions.Service.{Commission}
use voltaris_mobility_backen.Audit.Models.{AuditEntry}
use voltaris_mobility_backen.Users.Models.{User, Identity}
use voltaris_mobility_backen.Auth.Models.{Session, LoginAttempt, OauthState}
use voltaris_mobility_backen.Dealers.Models.{Dealer}
use voltaris_mobility_backen.Leads.Models.{Inquiry, TestDrive}
use voltaris_mobility_backen.Profile.Models.{SavedVehicle, SavedSearch, Notification}
use voltaris_mobility_backen.Media.Models.{Media}
use voltaris_mobility_backen.Content.Models.{Article, ChargingLocation}

-- `partialFilterExpression` of uniq_active_order_per_vehicle
unfoldable pub holds_vehicle : Order → Bool
holds_vehicle o = contains active_order_statuses o.status

unfoldable pub orders_clash : Order → Order → Bool
orders_clash a b =
    a.id == b.id
    || a.reference == b.reference
    || (a.vehicle_id == b.vehicle_id && holds_vehicle a && holds_vehicle b)

unfoldable pub vehicles_clash : Vehicle → Vehicle → Bool
vehicles_clash a b = a.id == b.id || a.slug == b.slug

unfoldable pub payments_clash : Payment → Payment → Bool
payments_clash a b =
    a.id == b.id
    || (a.provider == b.provider && a.provider_transaction_id == b.provider_transaction_id)

unfoldable pub payment_events_clash : PaymentEvent → PaymentEvent → Bool
payment_events_clash a b =
    a.id == b.id || (a.provider == b.provider && a.provider_event_id == b.provider_event_id)

unfoldable pub commissions_clash : Commission → Commission → Bool
commissions_clash a b = a.id == b.id || a.order_id == b.order_id

unfoldable pub idempotency_clash : IdempotencyKey → IdempotencyKey → Bool
idempotency_clash a b =
    a.id == b.id || (a.user_id == b.user_id && a.endpoint == b.endpoint && a.key == b.key)

unfoldable pub audit_clash : AuditEntry → AuditEntry → Bool
audit_clash a b = a.id == b.id

has_identity : Identity → List Identity → Bool
has_identity i [] = false
has_identity i (j ∷ js) = (i.provider == j.provider && i.subject == j.subject) || has_identity i js

share_identity : List Identity → List Identity → Bool
share_identity [] js = false
share_identity (i ∷ is) js = has_identity i js || share_identity is js

unfoldable pub users_clash : User → User → Bool
unfolding has_identity share_identity
users_clash a b = a.id == b.id || a.email == b.email || share_identity a.identities b.identities

unfoldable pub sessions_clash : Session → Session → Bool
sessions_clash a b = a.id == b.id || a.session_id == b.session_id

unfoldable pub login_attempts_clash : LoginAttempt → LoginAttempt → Bool
login_attempts_clash a b = a.id == b.id || a.key == b.key

unfoldable pub oauth_states_clash : OauthState → OauthState → Bool
oauth_states_clash a b = a.id == b.id || a.state == b.state

unfoldable pub dealers_clash : Dealer → Dealer → Bool
dealers_clash a b = a.id == b.id || a.slug == b.slug

unfoldable pub inquiries_clash : Inquiry → Inquiry → Bool
inquiries_clash a b = a.id == b.id || a.reference == b.reference

unfoldable pub test_drives_clash : TestDrive → TestDrive → Bool
test_drives_clash a b = a.id == b.id || a.reference == b.reference

unfoldable pub saved_vehicles_clash : SavedVehicle → SavedVehicle → Bool
saved_vehicles_clash a b = a.id == b.id || (a.user_id == b.user_id && a.vehicle_id == b.vehicle_id)

unfoldable pub saved_searches_clash : SavedSearch → SavedSearch → Bool
saved_searches_clash a b = a.id == b.id

unfoldable pub notifications_clash : Notification → Notification → Bool
notifications_clash a b = a.id == b.id

unfoldable pub articles_clash : Article → Article → Bool
articles_clash a b = a.id == b.id || a.slug == b.slug

unfoldable pub charging_locations_clash : ChargingLocation → ChargingLocation → Bool
charging_locations_clash a b = a.id == b.id || a.slug == b.slug

unfoldable pub media_clash : Media → Media → Bool
media_clash a b = a.id == b.id || a.media_key == b.media_key
