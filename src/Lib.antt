-- ===== src/Lib.antt =====
-- Verification of Fire2API, a service that turns SQL statements for Firebird into HTTP routes.
--
-- The request path. `AuthMiddleware` decides with the rate limiter and the access keys whether a
-- request reaches a dynamic route (Auth, RateLimit, AccessKey). A route validates its statement
-- (Sql), reads its parameters and options (Query), may be guarded by an Idempotency-Key
-- (Idempotency), and runs as an execution that takes a place of two semaphores and is kept in the
-- history (Execution).
--
-- Which file models what:
--   RateLimit    app/core/rate_limit.py: `retry_after`, `register_failure`, `register_success` on
--                the dictionaries of failures and lockouts. Children: Window, Lockout.
--   Auth         app/core/auth_middleware.py, app/core/auth_service.py: `handle` is `__call__`,
--                `guarded`, `authenticate`, `admit_admin`, `admit_api` and `refuse` its parts in
--                order. Children: Gate, Lockout, Paths.
--   Security     app/core/middleware.py: the identifier of a request, and how much of its body is
--                received (child Bodies).
--   AccessKey    app/core/access_key_service.py and the table access_keys. Child: Tokens.
--   Idempotency  app/core/idempotency.py and the table idempotency_records. Children: Guard (what
--                other steps keep), Lifecycle (what a key may do).
--   Sql          the scanners and `validate_query` of app/core/query_service.py: Comments, Literals,
--                Statements, Parens, Words, Validate; Scan runs a scanner state by state.
--   Query        the parameters and options of app/core/query_service.py: Detect
--                (`detect_parameters`), Convert (`convert_value`), Parameters (`bind_parameters`), Binds
--                (`_execution_bindings`), Order, Paging and Options (`apply_query_options`), Execute
--                (`execute_query`, a transaction on the database).
--   Catalog      the tables queries and parameters of app/core/query_service.py: the routes
--                (`create_query`, `update_query`, `delete_query` and the readers), Routes
--                (`_normalize_route_path`), Drafts (`validate_parameter_configuration`), Save
--                (`save_query_configuration`), Parameters (`add_parameter` to
--                `reorder_parameters`), Sync (`sync_detected_parameters`), Merge
--                (`merge_parameter_drafts`), Consistent (what all of them keep).
--   Route        the endpoint of app/core/dynamic_loader.py, which composes Query.Parameters,
--                Query.Options and Idempotency. Children: Calls (one call and the records), Once, Load
--                (`load_routes`, `apply_to_app`).
--   Execution    app/core/execution_service.py: History (`_insert_record`, `_status`,
--                `list_executions`, `request_cancel`), Slots (`_acquire`, `_release`), Lifecycle (`execute`,
--                `_worker`, `_watch_disconnect`: events on the history and the contexts).
--   Version      the release tool, version.py: `parse_version` and `bump_version` (children Digits,
--                Bumps), Lines (`replace_version_line`), Release (`main` and its steps).
--   Text, Base   texts as lists of code points, lists and dictionaries as Python's.
-- Each part has a module Tests with runs at concrete inputs; Text/Ascii is data for them.
--
-- How the code is modelled:
-- - Texts are lists of code points. What Python takes from the Unicode database (`upper`, `lower`,
--   white space, alphanumeric) is the record `Unicode` of Text, an argument; SHA-256, the generated
--   token, which patterns `re.compile` takes, the conversions of texts and objects (the record
--   `Python` of Query.Convert) and the driver (the record `Driver` of Query.Execute) are too, and so are
--   Git and the file of the release tool (the record `Directory` of Version.Release).
-- - Times are natural numbers: nanoseconds for `time.monotonic()`, microseconds for the dates of a
--   table, whose ISO texts sort as the times do.
-- - Each method of a service is a step on the table or dictionary that it changes; where the code
--   awaits or several requests interleave, a list of steps or events is the order in which they
--   happen, and theorems hold for every such list.
-- - An exception is a constructor of the result. A query's SQL is written out as the function that
--   it computes on the list of rows in the order of insertion.
-- - The scanners are loops over the text, by recursion on it with a look at the rest. The one loop
--   of a service on fuel is `fetch_rows` of Query.Execute, whose fuel is the greatest number of rows:
--   each round that goes on adds a row, so it is enough. The decimal digits of a number (Version) have
--   the number as fuel, which each digit divides by ten.
-- - A write of the catalog is the new tables and an answer; a transaction that is rolled back
--   returns the tables that it began with. The ids are those of an AUTOINCREMENT column;
--   those of the table idempotency_records, which has none, may come again once a record is deleted.
--
-- Not modelled: the user interface, the models and migrations, the driver for Firebird, the thread
-- pool and the order in which a semaphore wakes its waiters, the bodies of the responses, and, so
-- far, the settings and the admin endpoints.
pub mod Base
pub mod Text
pub mod RateLimit
pub mod Security
pub mod Sql
pub mod Execution
pub mod Idempotency
pub mod AccessKey
pub mod Auth
pub mod Query
pub mod Catalog
pub mod Route
pub mod Version
