-- ===== src/Lib.antt =====
-- The core of the consignment API of Temple Heavy Equipment, in api/services: how the status of an
-- equipment record moves, who hears of it, how appraisals are scheduled, how a record is locked
-- for editing, and how notifications wait in a durable queue until a worker has sent them.
--
-- Status models equipment_status_machine.py, the registry of statuses that all the others ask.
-- Locks models record_lock_service.py: one function per call over the table record_locks; what
-- other sessions do between two statements of `acquire` is a function on the table, and
-- Locks.Steps makes an interleaving of calls a list of statements, each of a session that keeps the
-- row it has read last. Jobs models notification_service.py
-- over the table notification_jobs, with the dispatchers in Jobs.Dispatch
-- (slack_dispatch_service.py and apns_dispatch_service.py where they read replies) and one attempt
-- of the worker in Jobs.Process. Store has the tables of database/models.py that the services of
-- records share, as a state `Db` passed from call to call, with resolve_channel of
-- notification_preferences_service.py and `send`, the call of the queue. Transition models
-- record_transition of equipment_status_service.py with the private functions that notify the
-- customer, the sales rep and the watchers, and Calendar models calendar_service.py, which calls
-- it when an appraisal is booked. Watchers models watchers_service.py, and Roles models
-- user_roles_service.py over tables of its own.
--
-- Routing models lead_routing_service.py: the matchers in Routing.Conditions, the waterfall that
-- gives a record to a sales rep in Routing.Waterfall, its dry run in Routing.DryRun, and the
-- administration of the rules in Routing.Admin; Routing.Precedence has the precedence of the rules as
-- a relation. Requests models change_request_service.py and price_change_service.py, which call the
-- queue and, for a withdrawal, record_transition, and Approvals models approval_service.py over the
-- same tables, with dispatch_contract of esign_service.py. Sessions models session_service.py over the table
-- user_sessions, and Valuation the pure evaluators red_flag_service.py and scoring_service.py. Json
-- has the JSON columns. Base has numbers, texts, lists and results, Table has tables with unique
-- columns, and Tests has concrete runs.
--
-- A function of a service has its name here; an HTTPException is an error with its status code,
-- and a rendering that raises is one with 500. A
-- UUID is a number, since the code only compares it, and an instant is a number of microseconds.
-- The database's UUIDs and clock are arguments. No function needs fuel: the loops run over lists.
--
-- Not modelled: the screens and HTTP plumbing, the texts of templates (`Texts` renders them, or
-- raises), the outside world (`Transport` has the replies of mail, SMS, Slack and APNs, `Maps` the
-- drive times, `Outside` the geocoder and Python's text methods), floating-point arithmetic
-- (`Floats`, `Percent`), SHA-256, the signing service, log lines, and the services of listings,
-- passwords and accounts, and reports.
pub mod Base
pub mod Table
pub mod Status
pub mod Locks
pub mod Jobs
pub mod Store
pub mod Transition
pub mod Calendar
pub mod Roles
pub mod Watchers
pub mod Json
pub mod Routing
pub mod Sessions
pub mod Valuation
pub mod Requests
pub mod Approvals
mod Tests
