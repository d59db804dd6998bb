-- ===== src/Tests/Samples.antt =====
-- A platform and a small shop on which the definitions run.
use Prim.Native.String.{◌++◌}
use voltaris_mobility_backen.Prelude.{
  ◌+◌, ◌*◌, String, string_eq, ◌==◌, true, false, none, some, [], ◌∷◌, if◌then◌else◌,
}
use voltaris_mobility_backen.Prelude.Int.{pos}
use voltaris_mobility_backen.Prelude.Text.{str_ℕ}
use voltaris_mobility_backen.Core.Config.{Settings, Environment, SameSite}
use voltaris_mobility_backen.Core.Platform.{Platform, replied}
use voltaris_mobility_backen.Core.Action.{State}
use voltaris_mobility_backen.Database.Memory.{memory}
use voltaris_mobility_backen.Database.Collections.{Db}
use voltaris_mobility_backen.Vehicles.Models.{Vehicle, VehicleStatus}
use voltaris_mobility_backen.Payments.Models.{Payload, Amount}

abbrev pub settings : Settings
settings = record {
  service_name = "voltaris-api";
  environment = Environment.development;
  session_cookie_samesite = SameSite.none;
  jwt_secret = "dev-placeholder";
  mongodb_uri = "mongodb://localhost:27017";
  cors_origins = "http://localhost:3000" ∷ [];
  access_token_ttl_seconds = 900;
  refresh_token_ttl_seconds = 2592000;
  password_min_length = 12;
  login_max_attempts = 5;
  login_lockout_seconds = 900;
  payment_provider = "stub";
  payment_webhook_secret = "key";
  payment_webhook_tolerance_seconds = 300;
  default_currency = "RWF";
  default_commission_bps = pos 800;
  payment_fee_bps = pos 290;
  payment_fee_fixed_minor = pos 0;
}

-- The clock stands at second 1700000000, and no other request runs.
abbrev pub shop : Platform
shop = record {
  mongo = memory;
  settings = settings;
  provider = record {
    name = "stub";
    create_checkout_session = λ n order_id amount currency email. replied (record {
      provider_transaction_id = "txn" ++ str_ℕ n;
      redirect_url = "https://payments.invalid/checkout";
      expires_at = "soon";
    });
  };
  uuid4_hex = λ n. "u" ++ str_ℕ n;
  token_hex = λ n bytes. "t" ++ str_ℕ n;
  now = λ n. 1700000000 * 1000000 + n;
  strftime = λ format at. "202311";
  upper = λ s. s;
  lower = λ s. s;
  strip = λ s. s;
  parse_int = λ s. if s == "1700000000" then some (pos 1700000000) else none;
  json_dumps = λ body. body.vehicle_id;
  sha256_hex = λ s. s;
  hmac_sha256_hex = λ key message. key ++ "|" ++ message;
  others = λ n db. db;
}

abbrev pub leaf : Vehicle
leaf = record {
  id = "v1";
  slug = "nissan-leaf";
  dealer_id = none;
  owner_id = none;
  make = "Nissan";
  make_slug = "nissan";
  model = "Leaf";
  variant = none;
  year = pos 2022;
  body_type = "hatchback";
  condition = "used";
  mileage_km = pos 12000;
  agency_price = some (pos 27000000);
  currency = some "RWF";
  rental_price_per_day = some (pos 60000);
  battery_kwh = pos 40000;
  range_km = pos 270;
  power_kw = pos 110;
  seats = pos 5;
  doors = pos 5;
  drivetrain = "fwd";
  description = "";
  features = [];
  images = [];
  seller_display_name = none;
  financing_available = false;
  location_city = "Kigali";
  location_slug = "kigali";
  status = VehicleStatus.available;
  verified = true;
  purchase_enabled = true;
  rental_enabled = true;
  test_drive_available = true;
  internal = some (record {
    seller_expected_price = pos 24000000;
    commission_bps = none;
    internal_notes = none;
    acquisition_cost = none;
  });
  version = 0;
  published_at = none;
  created_at = 0;
  updated_at = 0;
  deleted_at = none;
}

abbrev pub stock : Db
stock = record {
  users = [];
  sessions = [];
  login_attempts = [];
  oauth_states = [];
  vehicles = leaf ∷ [];
  orders = [];
  payments = [];
  payment_events = [];
  commissions = [];
  idempotency_keys = [];
  audit_logs = [];
  dealers = [];
  inquiries = [];
  test_drives = [];
  saved_vehicles = [];
  saved_searches = [];
  media = [];
  notifications = [];
  articles = [];
  charging_locations = [];
}

abbrev pub opening : State
opening = record { db = stock; calls = 0 }

-- A provider's event about a payment.
abbrev pub event : String → String → String → Amount → Payload
event event_id event_type payment_id amount = record {
  id = some event_id;
  event_type = some event_type;
  event_data = some (record {
    payment_id = some payment_id;
    amount = amount;
    currency = some "RWF";
    provider_transaction_id = none;
  });
}
