-- ===== src/Lib.antt =====
-- Voltaris Mobility, the backend of an electric-vehicle marketplace: accounts, orders, payments,
-- commissions, the public catalogue, leads, the account area, the admin console, and who may do what.
--
-- The program. An HTTP layer (app/api) calls services (app/modules), which keep their state in a
-- MongoDB database (app/infrastructure/database) and call a payment provider. A customer orders a
-- vehicle (OrderService.create_order), which reserves it; opens a checkout
-- (PaymentService.create_checkout_session), which stores a payment; and the provider reports by a
-- signed webhook (PaymentService.handle_webhook), which moves the payment, then the order
-- (OrderService.transition), the vehicle, and books the agency's commission
-- (app/modules/commissions/service.py). Every change is written to an audit trail
-- (app/modules/audit/service.py). A request's identity and its permissions are resolved anew each time
-- (app/core/sessions.py, app/api/deps.py).
--
-- The model. Each service method is a definition with the source's name that runs on the database as
-- a value, call by call in the source's order: a method is an `Action` (Core.Action), a function
-- from the state to a result and a state, where a raise keeps what was written before it. At every
-- `await` of the database or the provider the platform's `others` runs first: an arbitrary change of
-- the database by other requests. A theorem on one call alone assumes `IsQuiet`, that `others`
-- changes nothing; an invariant holds for any `others` that keeps it (`Stable`).
--
-- The files.
--   Prelude        tests, lists measured by native numbers, integers with floor division, texts.
--   Core           Errors (app/core/errors.py), Config and Startup (app/core/config.py: the
--                  settings and their validators), Security
--                  (app/core/security.py: the webhook signature), Platform (what the repository does
--                  not implement), Action (the methods' monad), and three logics of actions: Keeps
--                  (invariants), Returns (what an answer establishes), Ends and Leaves (where any end,
--                  or an answer, leaves the database); Timed counts the calls before the clock is
--                  read; Many and Closing extend them to calls on many documents and to
--                  sequences of writes.
--   Database       Mongo (the driver as a parameter: its operations with their documented laws),
--                  Indexes (app/infrastructure/database/indexes.py: the unique indexes), Collections,
--                  Memory (an implementation of the parameter, which shows that its laws can hold),
--                  Bags (documents without order), Reads (the laws of sorted reads, counts and
--                  updates of many documents), Keys (sort keys), Sorting (the memory's sort), Rows
--                  (what is known of the rows of a read), Matching (how many match), With (one document
--                  among others).
--   Users, Vehicles, Auth, Orders, Payments, Commissions, Audit
--                  the data of app/modules/*/models.py, and of the services:
--                  Users.Models permissions_for; Auth.Tokens create_token, decode_token and the
--                  password functions of app/core/security.py; Auth.Service _check_lockout,
--                  _register_failure, _clear_failures, register, login; Auth.Sessions
--                  _issue_session, refresh, logout, session_is_active; Auth.Google begin_google,
--                  complete_google, _link_or_create; Orders.Pricing _price; Orders.Idempotency
--                  _replay_or_reserve, _store_idempotent_response; Orders.Creation create_order;
--                  Orders.Transitions transition, _release_or_sell, get_for_customer;
--                  Orders.Listing list_for_customer;
--                  Payments.Events _record_event, _finish_event; Payments.Webhook handle_webhook;
--                  Payments.Settlement _settle; Payments.Checkout create_checkout_session;
--                  Commissions.Service calculate, as_document; Audit.Service record.
--                  Users.Grants, Auth.Sound, Auth.Admission, Auth.Linking, Orders.Sound,
--                  Orders.Ownership, Orders.Replay, Orders.History, Payments.Gates, Payments.Approval,
--                  Payments.Safety, Payments.Unmoved, Commissions.Split and Audit.Redaction prove
--                  what each promises.
--   Api            Cookies (app/core/sessions.py), Principals (app/api/deps.py) and what a guard
--                  establishes (Guards).
--   Vehicles       Filter, Pages, Views and Service (app/modules/vehicles/service.py), with what a
--                  listing (Sound), a page (Details) and a comparison (Found, Comparison) show.
--   Dealers, Content, Leads, Profile, Admin
--                  app/modules/dealers, app/modules/content and app/modules/charging,
--                  app/modules/leads, app/modules/users/profile_service.py, app/modules/admin, with
--                  Leads.Throttle, Profile.Protected, Profile.Limits, Admin.Accepted,
--                  Admin.Exposure, Admin.LastAdmin and Admin.Barred on what they
--                  promise.
--   Media          app/modules/media and app/infrastructure/storage/r2.py: Processor, Storage, Service
--                  and the ownership check (Ownership), over the imaging library and the client of
--                  the object store as parameters.
--   Writes         every atomic write of the order and payment services: a predicate that is closed
--                  under these writes is kept by every method.
--   System         a sequence of requests served on one database.
--   Invariants     what such a sequence keeps: legal histories, one order per vehicle, the ledger.
--   Tests          a sample shop, runs on it, and the theorems at concrete inputs.
--
-- Representation. Money and counts that may be negative are integers over the native numbers; a time
-- is a number of microseconds, and a method's datetime.isoformat() stays that number. A document is
-- a record; a key that may be missing is an Option. An outcome that the code writes as a sentence
-- is a constructor. An audit entry leaves out request_id and user_agent, which come from the HTTP
-- layer. A text is a native string, also where the source has bytes. The one recursion on fuel is
-- the printing of a number in Prelude.Text, with as much fuel as the number: every step
-- divides by ten, so that the fuel outlasts the digits.
--
-- Parameters. Core.Platform holds the database driver, the settings, the provider, the clock, the
-- random identifiers, and Python's text, JSON and hash functions; Auth.Tokens takes PyJWT and argon2
-- as one. The driver's laws say: a find returns a stored match or there is none; an insert adds the
-- document unless a unique index is violated; an update replaces one match unless the new document
-- violates one; a delete takes one match out; a sorted read returns a part of the sorted matches.
-- Api.Cookies takes the framework's look-ups of a request, Vehicles.Filter the server's text search,
-- Leads.Service the decoding of a date, Orders.Listing that of a cursor, and Admin.Inspection reads
-- with a filter of the client. Media.Processor takes the imaging library, whose calls on a decoded
-- image do not fail, and Media.Storage the client of the object store.
--
-- Not modelled. The HTTP routes and the application's wiring, logging, the connection to the
-- database, and the operations scripts, which only pass data on. The bucket behind the object
-- store's client, whose calls are parameters. The facets of the catalogue, which are an aggregation on the server, and the test drives of
-- the account area, which take a title apart again. The exchange of a code with Google, which is the
-- parameter IdentityProvider of Auth.Google.
pub mod Prelude
pub mod Core
pub mod Users
pub mod Dealers
pub mod Leads
pub mod Media
pub mod Profile
pub mod Content
pub mod Orders
pub mod Vehicles
pub mod Payments
pub mod Commissions
pub mod Database
pub mod Audit
pub mod Auth
pub mod Writes
pub mod System
pub mod Invariants
pub mod Tests
pub mod Admin
pub mod Api
