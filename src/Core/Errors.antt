-- ===== src/Core/Errors.antt =====
-- app/core/errors.py: the taxonomy of the failures that a client can see.
use voltaris_mobility_backen.Prelude.{ℕ}

pub data ErrorCode : Type 0 where
  authentication_required invalid_credentials token_expired token_invalid : ErrorCode
  token_revoked mfa_required account_locked email_not_verified forbidden : ErrorCode
  user_not_found vehicle_not_found order_not_found payment_not_found : ErrorCode
  invalid_request vehicle_unavailable vehicle_not_purchasable : ErrorCode
  invalid_state_transition email_already_registered : ErrorCode
  payment_failed payment_already_processed payment_amount_mismatch : ErrorCode
  payment_currency_mismatch webhook_signature_invalid webhook_replay_detected : ErrorCode
  duplicate_request idempotency_key_reused concurrent_modification rate_limited : ErrorCode
  provider_unavailable not_configured internal_error : ErrorCode

unfoldable pub status_by_code : ErrorCode → ℕ
status_by_code authentication_required = 401
status_by_code invalid_credentials = 401
status_by_code token_expired = 401
status_by_code token_invalid = 401
status_by_code token_revoked = 401
status_by_code mfa_required = 401
status_by_code account_locked = 423
status_by_code email_not_verified = 403
status_by_code forbidden = 403
status_by_code user_not_found = 404
status_by_code vehicle_not_found = 404
status_by_code order_not_found = 404
status_by_code payment_not_found = 404
status_by_code invalid_request = 422
status_by_code vehicle_unavailable = 409
status_by_code vehicle_not_purchasable = 409
status_by_code invalid_state_transition = 409
status_by_code email_already_registered = 409
status_by_code payment_failed = 402
status_by_code payment_already_processed = 409
status_by_code payment_amount_mismatch = 409
status_by_code payment_currency_mismatch = 409
status_by_code webhook_signature_invalid = 401
status_by_code webhook_replay_detected = 409
status_by_code duplicate_request = 409
status_by_code idempotency_key_reused = 422
status_by_code concurrent_modification = 409
status_by_code rate_limited = 429
status_by_code provider_unavailable = 503
status_by_code not_configured = 503
status_by_code internal_error = 500

-- What a service call can end with besides a value: an `AppError` with its code (the detail is
-- for the logs), the driver's `DuplicateKeyError`, or another Python exception.
pub data Failure : Type 0 where
  app_error : ErrorCode → Failure
  duplicate_key : Failure
  python_error : Failure
