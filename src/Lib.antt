-- ===== src/Lib.antt =====
-- The MCP server for SQL agents lets a language model read SQL databases. A request of an
-- authenticated caller is a tool call; the services behind the tools decide what it may see, check
-- the SQL, ask the target database, clean what comes back, and leave a row in the audit log.
-- Administrators decide it in the GUI, whose backend writes the tables that the server reads. This
-- library models the services of mcp-server/mcp_sql_server and the handlers of
-- gui-backend/gui_backend as functions on the same state.
--
-- Parts and files:
--
-- Prelude and its children: Python's `str` as a list of code points (`Str`), lists, sorting,
--   decimal numbers, integers.
-- Regex: the fragment of `re` that the program uses. `Regex.Defs` has the backtracking matcher,
--   which finds the match that Python's finds, and the declarative relation `Matches`;
--   `Regex.Decides` and `Regex.Search` relate the two.
-- Unicode: Python's character tables as a parameter. `Unicode.Ascii` is an instance for examples.
-- Errors, Errors.Message (errors.py and the messages at the raise sites): `Result` is a value or
--   a raised exception; `cancelled` is `asyncio.CancelledError`, which `except Exception` lets pass.
-- Exec: actions that change a state and may raise; the change stays when they raise.
-- Models (models.py), World: the shared records; `World` is the tables of app_meta, the list of
--   what was asked of target databases, and the count of clock readings.
-- Validator (services/query_validator.py): `Patterns` has the keyword lists and expressions,
--   `Scan` one round of the loop of `_mask_comments_and_quotes`, `Mask` the loop, `Validate` the
--   three layers of `QueryValidator`. `Takes`, `Pieces` and `ScanLaws` are about what a round
--   takes off. `Segments` says independently what a comment and a quoted
--   section are, and `Refusals` what is wrong where the loop gives up; `Refused` and `Outcome` relate
--   the loop to that. `Sqlglot` is the interface of the parser, which is not part of the repository.
-- Values (services/serialization.py), Sanitizer (services/sanitizer.py): `to_json_safe`, and
--   `OutputSanitizer` with its four rules.
-- Store: the interfaces `MetaStore`, `DBAdapter` and `AdapterProvider` as records of operations,
--   and the laws that their users rely on. Postgres (services/meta_store.py) is the store over the
--   tables of app_meta.
-- Audit (services/audit_service.py): `audited` is the context manager `AuditService.record` round
--   a body.
-- Permissions (services/permission_service.py, services/tool_service.py): `open_tool` is
--   `ToolService._open`.
-- Query (services/query_service.py, `QueryLimits` of config.py): the three tools that reach a
--   target database. A call runs on the world and on its recorder. `Authorize`, `Reach`,
--   `Bounds` and `EndToEnd` are about when a database is asked and for how much, `Limits` has the
--   limits.
-- Schema (services/schema_service.py): the five discovery tools; `Shapes` builds their answers, and
--   `Names`, `Referrers` and `NoLeak` are about what the answers show.
-- Cache (cache/base.py, cache/helpers.py): the interface and `cached_json`; `Redis` is `RedisCache` of
--   cache/redis_cache.py with its breaker, `Stored` has `CachedMetaStore` and `CachedAdapter`, and
--   `Fingerprint` is about the key of permission answers.
-- Registry (services/connection_registry.py): the dictionary of open adapters and `adapter_for`, which
--   runs under a lock and so in one step.
-- Introspection (auth/introspection.py, `access_token_from_claims` of auth/token_verifier.py): the check
--   of a token with the provider, through the cache.
-- Callers (auth/caller.py, `split_list` of config.py): the caller that claims or the configuration name.
-- Drivers (`_first_line` of adapters/sqlalchemy_adapter.py): what is kept of a driver's message, and
--   `str.replace`. `Drivers.Masked` is about texts in which a part is replaced.
-- Backend (gui-backend/gui_backend/changes.py): transactions on app_meta, `log_change` and
--   `announce`. A transaction runs its statements one after the other on the tables; an exception
--   rolls them back. `Rows` has the statements on the rows of one owner, `Laws` what handlers share.
--   In the folder gui-backend/gui_backend:
--   `Subjects`, `Grants`, `Grids` (routers/permissions.py): the users and roles, the handlers that
--   change who sees which table and calls which tool, with the bounds of a body and the checks on its
--   rows, and the two grids.
--   `Details`, `Connections`, `Access`, `Probe` (routers/connections.py): the settings and their
--   check, the handlers of connections, who may use them, and trying a connection out.
--   `Connections.Shapes` has the statements on the table of connections.
--   `Check` (connection_check.py): `check_connection` and the sentence of `explain`.
--   `Reports` (routers/reports.py), `Descriptions` and `Overview` (routers/schema.py).
--   `Signin` (auth.py, routers/me.py): the user of a request, and endpoints for administrators.
--   `Requests`: the requests that change app_meta as one type, and `handle`, which gives each to its
--   handler. `Consistent` relates the tables that these handlers write, and its children go through
--   the handlers.
-- Tests: the program on a small installation.
--
-- Bounds: no function runs on fuel, apart from the printing of a number, which has a round for each
-- unit of the number plus one and so more than it has digits, and the matcher's repetition, which
-- has one round for each character that is left and takes only rounds that consume something. The
-- masking loop recurses on the length of the rest, which each round shortens.
--
-- Numbers: Python's integers are unbounded and so are these; a time limit is in milliseconds and a
-- time stamp or a UUID is a number. A `float` is its `repr` and whether it is finite.
--
-- Not modelled: the parser sqlglot, SQLAlchemy and its drivers, Redis and the token libraries, which
-- are not part of the repository; which database a question is put to (`DbCall` has the text and the
-- limit); the framework wiring of the server and of the GUI backend, the bounds that pydantic puts on
-- the bodies of requests other than `TableChanges`, and the headers of refusals; the CHECKs of the
-- tables other than those of grants; the local check of signed tokens; the adapter over SQLAlchemy but for `_first_line`; the views of the audit log and of
-- the services' health. Handlers run one at a time: a change by another transaction between two of their statements is not modelled.
--
-- Parameters of the backend: `Database` has, beside the outage, `lower` and the ranking of searches,
-- the time of a transaction, the identifier of a new row, the collation of texts and the equality of
-- `jsonb`. `Surroundings` collects what the handlers take from elsewhere: Python's `str` and `==` on
-- JSON values, the secret box, ILIKE, the parser, the cache, the open adapters, and the check of a
-- connection.
pub mod Prelude
pub mod Regex
pub mod Unicode
pub mod Errors
pub mod Validator
pub mod Values
pub mod Sanitizer
pub mod Exec
pub mod Models
pub mod World
pub mod Store
pub mod Audit
pub mod Permissions
pub mod Postgres
pub mod Query
pub mod Schema
pub mod Callers
pub mod Backend
pub mod Drivers
pub mod Cache
pub mod Registry
pub mod Introspection
pub mod Tests
