-- ===== src/Lib.antt =====
-- Verification library of go-servicekit, an SDK of packages that a Go service is built from: db (SQL
-- with named parameters), confloader (remote configuration), cron (scheduled jobs), nats (JetStream
-- messages), and redis, rest, s3 and observability around them.
--
-- Parts and files. Each part has a file of definitions, with children that prove what they are named
-- for, and a module of tests.
--   Prelude: what all parts share: lists over native numbers, Go strings as lists of bytes with the
--     functions of package strings, loops over an index, integers, and `reports`, the pattern of a
--     Validate method that collects errors.
--   Errs: errs/errors.go, constructors.go and slog.go: the coded error with its metadata and its match by
--     code (Error, WithMeta, Is, LogValue). Rest takes its errors from here;
--     Cron, Nats and Db.Statement keep the causes that they tell apart.
--   Identity: identity/identity.go: the precedence of names, versions and environments (Resolve). Naming
--     is about which results name a service.
--   Db: db/bind.go, drivers.go, config.go and db.go. Scan is the scanner that finds the end of a quoted
--     text, a comment or a dollar-quoted body, and the placeholders (skipQuoted, skipBlockComment,
--     skipDollarQuoted, literalEnd, placeholderIndexes). Protect is what hides colons and casts from
--     sqlx.Named and restores them (protectCasts, protectColons, protectStrayColons). Bind expands
--     slices and rebinds placeholders (expandSlices, rebind, bindQuery), Driver is the driver table,
--     Config the configuration (SetDefaults, Validate), Connection the data source name and the identity of a
--     connection (dsn, connInfo), Connect how a database is opened (Connect, applyPool), and Statement a
--     statement with its span and its measurement (execute, instrument, operationName).
--   Confloader: confloader/tag.go, config.go and confloader.go. Tag parses a conf tag, Config defaults
--     and checks the settings, Fetch is one fetch with retries and the default folder (fetchRetried,
--     fetchWithFallback), and Cache the entries and how reads, polls and panics change them (get,
--     refreshOne, refreshAll, markAllStale).
--   Cron: cron/errors.go and cron/engine. Failure classifies errors (skipReason, errorType), Chain is
--     the middleware chain of a run (buildChain), Engine the engine's methods as steps (Register,
--     Trigger, runJob, Start, Stop), and Config its settings.
--   Nats: nats/internal/wire, nats/consumer and nats/producer. Subject compares subject patterns (covers),
--     Stream is the stream layout and its patch (StreamConfig, PatchStream), and Failure is ErrorType.
--     Consumer is the configuration with the filter subjects, the handling of one delivery (HandleMsg), and
--     the life of a consumer with its connections (Register, Start, Shutdown). Producer.Message is what is
--     published (buildSubject, buildMsg, PublishSyncWithDelay), and Producer.Lifecycle the producer with
--     its runs, as a step relation in which the parts of Register, Start, Publish and Shutdown interleave.
--     Producer.Message.Delivered takes a message through Stream and Consumer to the handler.
--   Rest: rest/client, rest/server and rest/internal/semconv. Backoff is the client's settings and the delay
--     before a retry (backoff, parseRetryAfter), Retry the retry loop and its policy (retry, retryDelay),
--     Attempt one attempt under its timeout (deadline, attemptOutcome), Redaction the recorded URL
--     (redactURL, redactQuery), and Call the whole chain of middlewares with what it tells (logging, retry,
--     tracing, measure).
--     Semconv is the names that client and server share. Server.Respond turns an
--     error into a problem, Server.Middleware the middlewares and their stack, as functions on the request
--     that run the rest of the chain, and Server.Config the settings. Server.Stack proves what a whole
--     stack does.
--   Redis and S3: redis/config.go and s3/config.go, the settings (SetDefaults, Validate).
--   Observability: observability/attributes/attributes.go and the config.go of logs, metrics and tracer. Key
--     normalises and checks the keys of attributes (NormalizeKey, IsValidKey), Convert turns maps into
--     attributes (ConvertMapsToKVs), and Logs, Metrics and Tracer are the settings (SetDefaults, Validate).
--
-- How the code is read. State is passed on explicitly: a method is a function from a state to
-- a result and a state, and a panic is an outcome that the middlewares pass on or recover.
-- Errors are trees, as errors.Is walks them. What a collaborator does (a lock, a backend,
-- sqlx.Named, the clock) is a parameter. int and time.Duration are integers without a width:
-- no function here computes with them beyond sums of durations and comparisons, except the
-- backoff of the rest client, whose shift is written with its wrap at 64 bits, and the integers
-- of attributes, whose bounds are written out. A float64 is a parameter.
--
-- Fuel. A loop of the scanner runs on fuel as long as the query, and the decimal digits of a number n
-- have fuel n + 1. The retry loop has fuel for one attempt more than MaxAttempts in Rest.Retry, and for
-- MaxAttempts in Rest.Call, where it stops at that attempt. All else is structural recursion.
--
-- Not modelled: the formats of DSNs and URLs, which the drivers and net/url render, reflection over
-- config structs, the schedules of goroutines (a method is one step, as where no other goroutine takes
-- its locks between its sections; only the producer's are in parts that interleave), delays and
-- timestamps, stack traces, panics of database drivers, the texts of log lines, and the code that mostly
-- calls a third-party client or exporter: the redis and s3 clients, the query methods and transactions of
-- db, running the rest server, the connections of nats, the task groups of errgroup, and the set-up of
-- logs, metrics and traces.
pub mod Prelude
pub mod Db
pub mod Errs
pub mod Confloader
pub mod Cron
pub mod Nats
pub mod Identity
pub mod Observability
pub mod S3
pub mod Redis
pub mod Rest
