-- ===== src/Lib.antt =====
-- A model of the data profiler: a service that profiles database tables, labels columns that hold
-- personal data, grades the profile and compares it with the one before.
--
-- A request reaches a handler (internal/api/router.go) and from it the manager (internal/worker/manager.go),
-- which writes a job to the store (internal/store/store.go) and puts its id into a channel. A worker takes
-- the id, lets an adapter profile the source, labels the columns (internal/pii/detect.go), grades the
-- profile (internal/quality/quality.go), compares it with the previous one (internal/drift/drift.go) and saves it.
--
-- Files:
--   Domain: the structs of internal/domain/models.go; Samples: profiles for the tests.
--   Regex, Regex/Laws: Go's regular expressions as far as internal/pii/detect.go uses them, matched by
--     derivatives, and their denotation.
--   Pii: `DetectProfile` and `Detect`; Pii/Patterns: the six expressions; Pii/Checks: `matchesLabel`, `validIPv4`,
--     `digitsOnly` and `luhn`; Pii/Ipv4, Pii/Luhn, Pii/Detect, Pii/Evidence, Pii/Shadow: theorems; Pii/Tests: the
--     package's own tests and the witnesses.
--   Quality: `Evaluate`; Quality/Rules: thresholds and `percentage`; Quality/Classify: the tests on names and types;
--     Quality/Checks: one function per check; Quality/Score: the theorem on the score.
--   Drift: `Compare`; Drift/Map: a Go map as a list with unique keys; Drift/Lines: a report as a list of lines;
--     Drift/Order, Drift/Same: theorems.
--   Store: the methods of `PostgresStore`; Store/Tables: the rows and what the SQL selects and updates;
--     Store/Calls: equations for calls that do not fail; Store/Index, Store/Entries: the ids and keys of the
--     rows; Store/Keeps: what each method does to them; Store/Oldest: the order of the waiting jobs.
--   Worker: the methods of `Manager`; Worker/Reach: their calls in any order; Worker/Later: what these leave; Worker/Valid,
--     Worker/Transfers: an invariant, method by method; Worker/Idempotency, Worker/Race, Worker/Run, Worker/Failures,
--     Worker/Shutdown, Worker/Waiting, Worker/Restart: theorems on one method; Worker/Progress: rounds of the workers;
--     Worker/Samples: a manager for the tests.
--   Worker/Tasks: the same methods statement by statement, as goroutines that are interleaved in any order;
--     Worker/Tasks/Moves, Worker/Tasks/Calls: which ids a statement hands on; Worker/Tasks/Owners, Worker/Tasks/Started,
--     Worker/Tasks/Kept, Worker/Tasks/Lossless, Worker/Tasks/Keys: invariants of every schedule; Worker/Tasks/Answers: the
--     statements that are left to a request; Worker/Tasks/Solo: a goroutine that nothing interrupts.
--   Api: the handlers of `NewRouter` and `sanitizeJob`; Api/Accepted, Api/History, Api/Lookup: theorems.
--   Dialect: the dialects of internal/adapters/adapter.go: Dialect/Query: a query as words and quoted names;
--     Dialect/Postgres, Dialect/Mysql, Dialect/SqlServer: their queries; Dialect/Methods: the interface
--     `Dialect`; Dialect/Balance: a reader of literals, quoted names and parentheses; Dialect/Quoting,
--     Dialect/Queries: theorems.
--   Profile: internal/adapters/profile.go: Profile/Source: what the database answers; Profile/Classify: types of
--     columns; Profile/Queries: the query texts; Profile/Details, Profile/Column: `profileColumn` and the functions
--     that it calls; Profile/Gather: the goroutines; Profile/Correlations; Profile/Table: `ProfileTable`;
--     Profile/Orders, Profile/Cancelled, Profile/Types, Profile/Reports, Profile/Optional, Profile/Facts, Profile/Columns,
--     Profile/Syntax, Profile/Pairs, Profile/Bins: theorems.
--   Config: internal/config/config.go; Config/Limits: theorems.
--   Connect: `Open` and `DiscoverColumns` of internal/adapters/adapter.go; Connect/Handles: theorems;
--     Connect/Jobs: how a job's run calls `Open` and `ProfileTable`, with a theorem.
--   Server: `main` of cmd/server/main.go; Server/Closed, Server/Exit: the theorem on its end.
--   Prelude: lists, ASCII text, printed numbers, ℤ with 64-bit wrap-around, float64.
--
-- float64 is a record of operations, `Float64`. Theorems that need to know about numbers take `Ieee`: on
-- whole numbers up to 2^53 subtraction and comparison are exact, and quotients of them compare as the exact
-- quotients with a threshold do. Prelude/Rational gives both a model in exact fractions, and the
-- witnesses run on it. An int64 sum wraps at 2^63.
--
-- The loops of the model are structural recursion; `print_ℕ` runs on fuel, n + 1 for the number n, which
-- is never less than its digits, and `alone` of Worker/Tasks/Solo on a number of statements: six for a request or a
-- worker's job, and three for each id of the channel and three more for Stop, enough as its theorem states. A
-- map that Go visits in random order is visited in an order that is an argument. A call of the store fails when
-- the environment `Env` says so; encoding/json is a codec of `Env`, and a JSONB column is the text that it
-- gives. A time is a count of nanoseconds that the caller passes; of a time that is stored `column_time` of `Env`
-- says what is kept, since TIMESTAMPTZ drops what is finer than a microsecond.
--
-- A source is the record `Source`: for each query text, what Scan or the rows give, an error included. The text
-- of a query is concatenated words and quoted names; what SQL means by it is not modelled. The goroutines of
-- a table's columns are a list of events in the order in which they take the mutex, each handing in its
-- column's profile or giving up because the context is done; the semaphore only narrows these orders.
-- Open's calls on a handle are a list. os.Getenv, time.ParseDuration, sql.Open and PingContext are parameters.
-- The end of `main` runs Stop, with the goroutines that are left, in an environment in which every call of the
-- store fails, which is what a closed database does.
--
-- The manager's methods are modelled twice, in Worker each as one step, in Worker/Tasks statement by statement: a goroutine
-- is where it stands with the variables that are live there, and each use of the store, of the channel or of a
-- flag is one step. A schedule is a list of events: a request comes, Stop is called, a goroutine runs its next
-- statement, or an idle worker sees that the context is done. A call whose context Stop has cancelled is one that fails.
-- A request needs six statements at most, and a worker six for a job that it has taken. A job's run takes the
-- source's profile from `profile_source` of `Runtime`, for which Connect/Jobs gives the adapters'. Not modelled
-- are the meaning of the SQL, chi's routing, the HTTP server's timeouts, the health answers and metrics, the
-- log, and text that is not ASCII.
pub mod Prelude
pub mod Domain
pub mod Samples
pub mod Regex
pub mod Pii
pub mod Quality
pub mod Drift
pub mod Store
pub mod Worker
pub mod Dialect
pub mod Profile
pub mod Config
pub mod Connect
pub mod Api
pub mod Server
