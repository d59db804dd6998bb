-- ===== src/Tests/Machine.antt =====
-- The definitions that a run computes with, under one name for the `unfolding` lines of the tests.
use voltaris_mobility_backen.Prelude.Int.{◌+ℤ◌, ◌-ℤ◌, ◌*ℤ◌, floor_div}
use voltaris_mobility_backen.Prelude.Text.{str_ℕ, str, str_length, starts_with, prefix, is_ascii}
use voltaris_mobility_backen.Core.Action.{
  ◌>>=◌, on_duplicate, uuid4_hex, token_hex, utc_now, call, find_one, insert_one, update_one,
  upsert_one, delete_one, find_many, count_documents, update_many,
}
use voltaris_mobility_backen.Core.Security.{
  split, split_once, get_part, compare_digest, expected_digest, verify_webhook_signature,
  sign_webhook,
}
use voltaris_mobility_backen.Database.Memory.{
  find_one as database_memory_find_one, insert_one as database_memory_insert_one,
  update_one as database_memory_update_one, delete_one as database_memory_delete_one,
}
use voltaris_mobility_backen.Database.Indexes.{
  holds_vehicle, orders_clash, vehicles_clash, payments_clash, payment_events_clash,
  commissions_clash, idempotency_clash, audit_clash, users_clash, sessions_clash,
  login_attempts_clash, oauth_states_clash, dealers_clash, inquiries_clash, test_drives_clash,
  saved_vehicles_clash, saved_searches_clash, notifications_clash, articles_clash,
  charging_locations_clash, media_clash,
}
use voltaris_mobility_backen.Audit.Models.{scrub_fields, scrub}
use voltaris_mobility_backen.Users.Models.{parse_role, role_permissions, permissions_for}
use voltaris_mobility_backen.Audit.Service.{record_change}
use voltaris_mobility_backen.Auth.Tokens.{
  verify_password, hash_password, new_session_id, create_token, decode_token,
}
use voltaris_mobility_backen.Auth.Sessions.{
  issue_session, kill_session, rotate, refresh_user, refresh, logout, session_is_active,
}
use voltaris_mobility_backen.Auth.Service.{
  attempt_key, check_lockout, register_failure, clear_failures, register, refuse, upgrade_hash,
  admit, login,
}
use voltaris_mobility_backen.Auth.Google.{
  token_urlsafe, begin_google, link, found_meanwhile, create_account, link_or_create,
  complete_google,
}
use voltaris_mobility_backen.Commissions.Service.{error_text, calculate}
use voltaris_mobility_backen.Orders.Models.{allowed_transitions, can_transition}
use voltaris_mobility_backen.Orders.Pricing.{price}
use voltaris_mobility_backen.Orders.Documents.{serialise}
use voltaris_mobility_backen.Orders.Idempotency.{
  fingerprint, reserve, replay_or_reserve, store_idempotent_response,
}
use voltaris_mobility_backen.Orders.Creation.{
  reference, orderable_vehicle, reserve_vehicle, place_order, create_new, create_order,
}
use voltaris_mobility_backen.Orders.Transitions.{release_or_sell, transition, get_for_customer}
use voltaris_mobility_backen.Payments.Models.{
  allowed_transitions as payments_models_allowed_transitions,
  can_transition as payments_models_can_transition,
}
use voltaris_mobility_backen.Payments.Events.{record_event, finish_event}
use voltaris_mobility_backen.Payments.Settlement.{
  split_order, commission_document, audit_review, audit_recorded, book_commission, settle,
}
use voltaris_mobility_backen.Payments.Webhook.{
  target_of, reject, apply_transition, process_payment, process_recorded, process_signed,
  unsigned_id, handle_webhook,
}
use voltaris_mobility_backen.Payments.Checkout.{open_payment, create_checkout_session}
use voltaris_mobility_backen.Database.Sorting.{
  find_many as database_sorting_find_many, count_documents as database_sorting_count_documents,
  update_many as database_sorting_update_many,
}
use voltaris_mobility_backen.Vehicles.Filter.{csv, asked_for, filter, sort_named, sorting_of}
use voltaris_mobility_backen.Vehicles.Pages.{page_of, per_page_of, total_pages}
use voltaris_mobility_backen.Vehicles.Views.{summary, detail_of}
use voltaris_mobility_backen.Vehicles.Service.{
  list, seller, detail, get_by_slug, similar_to, similar, details, compare, sitemap,
}
use voltaris_mobility_backen.Dealers.Service.{
  summary as dealers_service_summary, summaries, list as dealers_service_list, get, vehicles,
}
use voltaris_mobility_backen.Leads.Service.{
  reference as leads_service_reference, throttle, trapped, store_inquiry, create_inquiry,
  book_test_drive, request_test_drive, get_test_drive,
}
use voltaris_mobility_backen.Profile.Account.{
  allowed_changes, set_fields, get as profile_account_get, update,
}
use voltaris_mobility_backen.Profile.Service.{
  saved_vehicles, save_vehicle, unsave_vehicle, saved_searches, create_saved_search,
  delete_saved_search, inquiry_items, inquiries, notifications,
}
use voltaris_mobility_backen.Content.Service.{
  summary as content_service_summary, charger, list as content_service_list,
  get as content_service_get, sitemap as content_service_sitemap, chargers,
}
use voltaris_mobility_backen.Admin.Filter.{redact, validate}
use voltaris_mobility_backen.Admin.Console.{
  set_user_status, keep_a_super, write_roles, set_user_roles, revoke_all_sessions, entity_history,
}
use voltaris_mobility_backen.Admin.Inspection.{raw_find, inspect}
use voltaris_mobility_backen.Admin.Overview.{overview, collection_stats}
use voltaris_mobility_backen.Api.Cookies.{
  new_csrf_token, set_session_cookies, clear_session_cookies, extract_token, enforce_csrf,
}
use voltaris_mobility_backen.Api.Principals.{
  principal_of, account_principal, token_principal, current_principal, require_permission,
  require_role, optional_principal,
}
use voltaris_mobility_backen.Orders.Listing.{list_for_customer}
use voltaris_mobility_backen.Core.Startup.{
  production_cookie_policy, missing, refuse_insecure_production, load_settings,
}
use voltaris_mobility_backen.Media.Processor.{
  detect_format, flatten, blur_placeholder, render, render_variants,
}
use voltaris_mobility_backen.Media.Storage.{
  blocking, token_urlsafe as media_storage_token_urlsafe, create_upload_intent, download,
  put_public, delete,
}
use voltaris_mobility_backen.Media.Service.{
  create_intent, each_intent, create_intents, reject as media_service_reject, put_variants, publish,
  check_size, process, finalize_one, finalize_from, finalize,
}
use voltaris_mobility_backen.System.{handle, serve}

unfoldable pub machine : Unit {0}
unfolding ◌+ℤ◌ ◌-ℤ◌ ◌*ℤ◌ floor_div str_ℕ str str_length starts_with prefix is_ascii ◌>>=◌
    on_duplicate uuid4_hex token_hex utc_now call find_one insert_one update_one upsert_one
    delete_one find_many count_documents update_many split split_once get_part compare_digest
    expected_digest verify_webhook_signature sign_webhook database_memory_find_one
    database_memory_insert_one database_memory_update_one database_memory_delete_one holds_vehicle
    orders_clash vehicles_clash payments_clash payment_events_clash commissions_clash
    idempotency_clash audit_clash users_clash sessions_clash login_attempts_clash oauth_states_clash
    dealers_clash inquiries_clash test_drives_clash saved_vehicles_clash saved_searches_clash
    notifications_clash articles_clash charging_locations_clash media_clash scrub_fields scrub
    parse_role role_permissions permissions_for record_change verify_password hash_password
    new_session_id create_token decode_token issue_session kill_session rotate refresh_user refresh
    logout session_is_active attempt_key check_lockout register_failure clear_failures register
    refuse upgrade_hash admit login token_urlsafe begin_google link found_meanwhile create_account
    link_or_create complete_google error_text calculate allowed_transitions can_transition price
    serialise fingerprint reserve replay_or_reserve store_idempotent_response reference
    orderable_vehicle reserve_vehicle place_order create_new create_order release_or_sell transition
    get_for_customer payments_models_allowed_transitions payments_models_can_transition record_event
    finish_event split_order commission_document audit_review audit_recorded book_commission settle
    target_of reject apply_transition process_payment process_recorded process_signed unsigned_id
    handle_webhook open_payment create_checkout_session database_sorting_find_many
    database_sorting_count_documents database_sorting_update_many csv asked_for filter sort_named
    sorting_of page_of per_page_of total_pages summary detail_of list seller detail get_by_slug
    similar_to similar details compare sitemap dealers_service_summary summaries
    dealers_service_list get vehicles leads_service_reference throttle trapped store_inquiry
    create_inquiry book_test_drive request_test_drive get_test_drive allowed_changes set_fields
    profile_account_get update saved_vehicles save_vehicle unsave_vehicle saved_searches
    create_saved_search delete_saved_search inquiry_items inquiries notifications
    content_service_summary charger content_service_list content_service_get content_service_sitemap
    chargers redact validate set_user_status keep_a_super write_roles set_user_roles
    revoke_all_sessions entity_history raw_find inspect overview collection_stats new_csrf_token
    set_session_cookies clear_session_cookies extract_token enforce_csrf principal_of
    account_principal token_principal current_principal require_permission require_role
    optional_principal list_for_customer production_cookie_policy missing refuse_insecure_production
    load_settings detect_format flatten blur_placeholder render render_variants blocking
    media_storage_token_urlsafe create_upload_intent download put_public delete create_intent
    each_intent create_intents media_service_reject put_variants publish check_size process
    finalize_one finalize_from finalize handle serve
machine = tt
