-- ===== src/Database/Collections.antt =====
-- The collections of app/infrastructure/database/client.py that the modelled services use, and
-- the database as the record of their documents.
use voltaris_mobility_backen.Prelude.{Bool, List}
use voltaris_mobility_backen.Orders.Models.{Order, IdempotencyKey}
use voltaris_mobility_backen.Vehicles.Models.{Vehicle}
use voltaris_mobility_backen.Payments.Models.{Payment, PaymentEvent}
use voltaris_mobility_backen.Commissions.Service.{Commission}
use voltaris_mobility_backen.Audit.Models.{AuditEntry}
use voltaris_mobility_backen.Users.Models.{User}
use voltaris_mobility_backen.Auth.Models.{Session, LoginAttempt, OauthState}
use voltaris_mobility_backen.Dealers.Models.{Dealer}
use voltaris_mobility_backen.Leads.Models.{Inquiry, TestDrive}
use voltaris_mobility_backen.Profile.Models.{SavedVehicle, SavedSearch, Notification}
use voltaris_mobility_backen.Media.Models.{Media}
use voltaris_mobility_backen.Content.Models.{Article, ChargingLocation}
use voltaris_mobility_backen.Database.Indexes.{
  orders_clash, vehicles_clash, payments_clash, payment_events_clash, commissions_clash,
  idempotency_clash, audit_clash, users_clash, sessions_clash, login_attempts_clash,
  oauth_states_clash, dealers_clash, inquiries_clash, test_drives_clash, saved_vehicles_clash,
  saved_searches_clash, notifications_clash, articles_clash, charging_locations_clash, media_clash,
}

pub record Db : Type 0 where
  pub users : List User
  pub sessions : List Session
  pub login_attempts : List LoginAttempt
  pub oauth_states : List OauthState
  pub vehicles : List Vehicle
  pub orders : List Order
  pub payments : List Payment
  pub payment_events : List PaymentEvent
  pub commissions : List Commission
  pub idempotency_keys : List IdempotencyKey
  pub audit_logs : List AuditEntry
  pub dealers : List Dealer
  pub inquiries : List Inquiry
  pub test_drives : List TestDrive
  pub saved_vehicles : List SavedVehicle
  pub saved_searches : List SavedSearch
  pub notifications : List Notification
  pub articles : List Article
  pub charging_locations : List ChargingLocation
  pub media : List Media

-- `db[name]`: where its documents stand, and its unique indexes.
pub record Collection (D : Type 0) : Type 0 where
  pub docs : Db → List D
  pub replace : List D → Db → Db
  pub clash : D → D → Bool

abbrev pub users : Collection User
users = record {
  docs = λ db. db.users;
  replace = λ ds db. record db { users = ds };
  clash = users_clash;
}

abbrev pub sessions : Collection Session
sessions = record {
  docs = λ db. db.sessions;
  replace = λ ds db. record db { sessions = ds };
  clash = sessions_clash;
}

abbrev pub login_attempts : Collection LoginAttempt
login_attempts = record {
  docs = λ db. db.login_attempts;
  replace = λ ds db. record db { login_attempts = ds };
  clash = login_attempts_clash;
}

abbrev pub oauth_states : Collection OauthState
oauth_states = record {
  docs = λ db. db.oauth_states;
  replace = λ ds db. record db { oauth_states = ds };
  clash = oauth_states_clash;
}

abbrev pub vehicles : Collection Vehicle
vehicles = record {
  docs = λ db. db.vehicles;
  replace = λ ds db. record db { vehicles = ds };
  clash = vehicles_clash;
}

abbrev pub orders : Collection Order
orders = record {
  docs = λ db. db.orders;
  replace = λ ds db. record db { orders = ds };
  clash = orders_clash;
}

abbrev pub payments : Collection Payment
payments = record {
  docs = λ db. db.payments;
  replace = λ ds db. record db { payments = ds };
  clash = payments_clash;
}

abbrev pub payment_events : Collection PaymentEvent
payment_events = record {
  docs = λ db. db.payment_events;
  replace = λ ds db. record db { payment_events = ds };
  clash = payment_events_clash;
}

abbrev pub commissions : Collection Commission
commissions = record {
  docs = λ db. db.commissions;
  replace = λ ds db. record db { commissions = ds };
  clash = commissions_clash;
}

abbrev pub idempotency_keys : Collection IdempotencyKey
idempotency_keys = record {
  docs = λ db. db.idempotency_keys;
  replace = λ ds db. record db { idempotency_keys = ds };
  clash = idempotency_clash;
}

abbrev pub audit_logs : Collection AuditEntry
audit_logs = record {
  docs = λ db. db.audit_logs;
  replace = λ ds db. record db { audit_logs = ds };
  clash = audit_clash;
}

abbrev pub dealers : Collection Dealer
dealers = record {
  docs = λ db. db.dealers;
  replace = λ ds db. record db { dealers = ds };
  clash = dealers_clash;
}

abbrev pub inquiries : Collection Inquiry
inquiries = record {
  docs = λ db. db.inquiries;
  replace = λ ds db. record db { inquiries = ds };
  clash = inquiries_clash;
}

abbrev pub test_drives : Collection TestDrive
test_drives = record {
  docs = λ db. db.test_drives;
  replace = λ ds db. record db { test_drives = ds };
  clash = test_drives_clash;
}

abbrev pub saved_vehicles : Collection SavedVehicle
saved_vehicles = record {
  docs = λ db. db.saved_vehicles;
  replace = λ ds db. record db { saved_vehicles = ds };
  clash = saved_vehicles_clash;
}

abbrev pub saved_searches : Collection SavedSearch
saved_searches = record {
  docs = λ db. db.saved_searches;
  replace = λ ds db. record db { saved_searches = ds };
  clash = saved_searches_clash;
}

abbrev pub notifications : Collection Notification
notifications = record {
  docs = λ db. db.notifications;
  replace = λ ds db. record db { notifications = ds };
  clash = notifications_clash;
}

abbrev pub articles : Collection Article
articles = record {
  docs = λ db. db.articles;
  replace = λ ds db. record db { articles = ds };
  clash = articles_clash;
}

abbrev pub charging_locations : Collection ChargingLocation
charging_locations = record {
  docs = λ db. db.charging_locations;
  replace = λ ds db. record db { charging_locations = ds };
  clash = charging_locations_clash;
}

abbrev pub media : Collection Media
media = record {
  docs = λ db. db.media;
  replace = λ ds db. record db { media = ds };
  clash = media_clash;
}
