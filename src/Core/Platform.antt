-- ===== src/Core/Platform.antt =====
-- What the services call and the repository does not implement, as one parameter: the database,
-- the clock, the random identifiers, the text functions of the standard library, the payment
-- provider, and the other requests that run while a call waits.
use voltaris_mobility_backen.Prelude.{ℕ, String, ◌≡◌, Option}
use voltaris_mobility_backen.Prelude.Int.{ℤ}
use voltaris_mobility_backen.Core.Config.{Settings}
use voltaris_mobility_backen.Core.Errors.{Failure}
use voltaris_mobility_backen.Database.Mongo.{Mongo}
use voltaris_mobility_backen.Database.Collections.{Db}
use voltaris_mobility_backen.Orders.Models.{RequestPayload}

-- The checkout session that a provider returns.
pub record CheckoutSession : Type 0 where
  pub provider_transaction_id : String
  pub redirect_url : String
  pub expires_at : String

-- The end of a call of the provider.
pub data Reply (A : Type 0) : Type 0 where
  replied : A → Reply A
  failed : Failure → Reply A

-- `PaymentProvider` of app/modules/payments/service.py. The number is that of the call.
pub record PaymentProvider : Type 0 where
  pub name : String
  pub create_checkout_session : ℕ → String → ℤ → String → String → Reply CheckoutSession

-- The `ℕ` of a field is the number of the external call, so that two calls need not agree.
pub record Platform : Type 1 where
  pub mongo : Mongo
  pub settings : Settings
  pub provider : PaymentProvider
  pub uuid4_hex : ℕ → String
  pub token_hex : ℕ → ℕ → String
  pub now : ℕ → ℕ
  pub strftime : String → ℕ → String
  pub upper : String → String
  pub lower : String → String
  pub strip : String → String
  pub parse_int : String → Option ℤ
  pub json_dumps : RequestPayload → String
  pub sha256_hex : String → String
  pub hmac_sha256_hex : String → String → String
  -- What other requests did to the database while this call waited.
  pub others : ℕ → Db → Db

-- No other request runs in between.
abbrev pub IsQuiet : Platform → Type 0
IsQuiet p = (n : ℕ) (db : Db) → p.others n db ≡ db
