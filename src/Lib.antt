-- ===== src/Lib.antt =====
-- CareerSpyder: scheduled scans of job boards for several users, with a web front end.
--
-- A run (app/orchestrator.py) asks the adapter of each of a user's sources for jobs, filters them
-- by keywords (app/filters.py), stores the new ones in the database (app/db.py), marks the
-- vanished ones removed, geocodes locations (app/geocoding/service.py) and checks addresses
-- (app/checker.py), while the progress is shown to the user (app/run_progress.py). The scheduler
-- (app/scheduler.py) starts the runs of all users, or of one on request, and mails each a digest
-- (app/digest.py) of the jobs not mailed before. Outbound requests pass the guard of
-- app/security/ssrf_guard.py. Users log in (app/web/auth.py, app/web/routes_auth.py) under a rate
-- limit (app/web/ratelimit.py), with passwords that app/security/password_policy.py accepts; they
-- register with the invites that an admin sends (app/web/routes_users.py). The other routes of app/web
-- list and edit the jobs, the sources and the settings of the user whose session asks.
--
-- Files:
--   Prelude, Result, Table, Text, Sort: tests on numbers, lists, results of code that raises, SQL's
--     UPDATE, DELETE and INSERT ... ON CONFLICT on lists of rows, str methods, ORDER BY and LIMIT.
--   Models, Config, Database: app/models.py, app/config.py and the tables of alembic/versions.
--   Jobs, Jobs/Edits: the jobs and job_status_history tables of app/db.py. Jobs/Rows, Save,
--     Reconcile, Outcomes, Isolation and History have their theorems.
--   Runs, Accounts, Accounts/Session, Invites, Sources: the other tables of app/db.py, and
--     app/web/auth.py.
--   Orchestrator, Checker, Geocoding, Filters, RunProgress: a run and what it uses.
--   UserRun, Scheduler: app/scheduler.py, first the run of one user with its mail. Html, Digest:
--     app/digest.py with safe_url_scheme of app/textutils.py.
--     Scheduler/Laws, Scheduler/Rescue and Digest/Laws have their theorems.
--   Ssrf, Ssrf/Browser: app/security/ssrf_guard.py. Ssrf/Addresses and Ssrf/Hops have its theorems.
--   RateLimit, Password, Pagination: the modules of those names under app/web and app/security.
--   Jobs/Listing: the listing queries of app/db.py; its Choices, what the filters offer; its
--     Mappable, the jobs of the map.
--   Web: the handlers of app/web over those tables. Web/Guard: the guards of app/web/auth.py. Web/Login,
--     Web/Reset, Web/Register: app/web/routes_auth.py. Web/Users, Web/JobRoutes and Web/JobPages,
--     Web/SourceRoutes, Web/Dashboard: routes_users, routes_jobs, routes_sources and routes_dashboard
--     of app/web. Web/Preferences, Web/Exchange, Web/Account: app/web/routes_settings.py.
--     Web/QueryParams, Web/SourceForm: the modules of those names. A module's Laws has its theorems;
--     Web/JobPages/Pins is the map, Web/Exchange/Upload the import, Web/JobRoutes/Rows says which rows the
--     routes on jobs change, and Web/Register/Race and Web/Register/Steps are about registrations that run at once.
--   Adapters: the loops over pages of four adapters of app/adapters.
--   Examples: concrete data and runs.
--
-- A function has the name that it has in the source, without a leading underscore. A function that
-- writes takes the database and returns it; one that raises returns a Result, and the database is
-- then the old one, since nothing is committed. Of what the tables themselves refuse, the model has the unique
-- columns, the reference of jobs.location to the geocoded locations and the range of the cap on a
-- company's jobs. A column of UUIDs holds the text that the database prints; Web/Users says what it reads
-- from another text in the address, elsewhere an id or a token is given as printed. A table is the list of its rows in the order of
-- insertion. A clock reading, a drawn id and a generated token are arguments.
--
-- What lies outside the sources is a parameter: a record (World, Outside, Net, Policy, Crypto) or an
-- argument of functions (the order of names, local dates, lower case). Locks make the operations
-- they guard one step each, so that interleavings of requests are sequences of operations.
--
-- A handler takes a form, the site (the database and the rate limiter's attempts) and the session, and
-- gives a Reply: the response, the new site and session, and the tasks that run after the response. Where
-- a handler opens a second connection, an argument says what other requests have committed meanwhile.
--
-- The redirect loop of a request makes max_redirects + 1 rounds and that of a browser page six, as in the
-- source. The page loop of the Workday adapter runs on fuel, the source's max_pages, and
-- Adapters/Workday/Laws shows that it is enough; all other loops are over lists, texts and numbers.
--
-- Not modelled: the cron library, sending a mail, the adapters of one document, the browser, the platform
-- detector, the templates, JSON texts and the validation by pydantic models, the mail server form, the
-- bootstrap of the first admin, other errors of the database, and pure I/O. A reading of the clock before a lock
-- is one step with what the lock guards.
mod Prelude
pub mod Result
pub mod Table
pub mod Models
pub mod Config
pub mod Database
pub mod Jobs
pub mod Text
pub mod Filters
pub mod RateLimit
pub mod Sort
pub mod Runs
pub mod RunProgress
pub mod Accounts
pub mod Invites
pub mod Sources
pub mod Checker
pub mod Geocoding
pub mod Orchestrator
pub mod Ssrf
pub mod Pagination
pub mod Password
pub mod Examples
pub mod Html
pub mod Digest
pub mod UserRun
pub mod Scheduler
pub mod Web
pub mod Adapters
