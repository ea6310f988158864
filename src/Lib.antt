-- ===== src/Lib.antt =====
-- The core of eyrie, an uptime monitor: checkers probe monitors from several regions and submit what
-- they saw; the processor turns the submissions of the last minutes into a verdict on the monitor,
-- keeps the incident tables in step with it and queues an alert for each change.
--
-- The files, by the Go files that they model:
--   Monitor, Monitor/Names, Monitor/Checker: config_monitor.go, and RegisteredChecker with its lookup
--     of config_server.go
--   Config: DatasetConfig of config_server.go, with the floats that it holds
--   Submission, Alert: the messages of the two queues (server.go, checker_tracer.go, worker_alerter.go)
--   History: the rows of monitor_historical.go
--   Incident: incident.go, the verdict with its equality and its text forms
--   Reason: failure_reason.go
--   Processor: worker_processor.go.  Times has the loops over minutes, Buckets
--     groupSubmissionByMinute, Evaluate and Latest the verdict on the newest bucket, Analyze the older
--     analyzeSubmissions, Db the queries, Incidents and Sync the incident transactions, and Handle one
--     message of Start with all that it calls.
--   Alerter/Delivery: worker_alerter.go, from a queued alert to its targets
--   Alerter/Ntfy: alerter_ntfy_buffered.go, suppression and digests in front of ntfy
--   Ingester: worker_ingester.go.  Queue has the tasks and their keys, Tables the stored rows, Aggregate
--     the two statements of a day, Worker the messages, the rounds and the seed, Interleaving the two
--     goroutines as steps.
--   Cleanup: worker_cleanup.go.  Cleanup has the deletion of rows, Pass the stages of runCleanup.
--   Config/Server: config_server.go, the settings of the server and ServerConfig.Validate.
--   Server: server.go.  Server has registration and submission of the checkers and the served settings,
--     Uptime what is read for the uptime of a monitor, with Regions by region, and Page the status page.
--   Uptime: Cache has the cache in memory of uptime_cache.go, Summaries uptime_aggregate_summaries.go.
--   Alerter/Presentation, Alerter/Build, Alerter/Request: alerter_webhook.go and alerter_ntfy.go, the
--     texts of an alert, the alerters that the settings ask for, and the requests that they send.
--   Examples: concrete runs.
--   Base: lists, texts, maps and sorting, over the native numbers.
-- A function keeps its name in snake case.  Where the source loops inside a function, the loop and its
-- body are functions of their own, named for what they do.
--
-- State.  Db holds the four tables that the processor uses, World adds the queue of alerts.  A query or
-- a transaction that fails leaves the tables as they were; Env says which calls fail for a message, what
-- the clock shows and which ids are drawn.  The clock stands still while one message is handled.
-- The ingester's state is IngesterWorker: its tables and the map of dirty days.  Interleaving splits its
-- message loop and its aggregation loop into steps, between which the other one may run.
-- The processor meets the alerter worker only through the queue of alerts.  A target of the alerter is
-- its answer to an alert.  A call of the buffered ntfy alerter runs as a whole: what another goroutine
-- does while the client sends is not modelled.
-- A message ends as acked or nacked; where its queue cannot redeliver, the source acknowledges instead.
--
-- Representation.  Times and durations are numbers of nanoseconds, since Go's zero time.  Counters are
-- natural numbers: none comes near 2^63.  The settings that ServerConfig.Validate compares with 0,
-- among them the interval and the batch size of the cleanup, are integers; the other settings, such as
-- the retention and the thresholds, are natural numbers: negative ones are not modelled.  A nil and an
-- empty slice are the same list.  A Go map is an association list, so that a loop over it sees one
-- order, that of insertion, out of those that Go may take.  Texts are sorted by code points, which is
-- the order of their UTF-8 bytes.  strings.ToLower is modelled on ASCII letters. null.Int and the like
-- are options.
--
-- Loops.  Each loop over a list is structural.  The loops that go back in time from the latest minute
-- run over the list times_back, whose fuel is one more than the number of intervals in the range: each
-- round goes back by one interval, and no more rounds are needed.
--
-- The loop of deleteDayRange ends by what the database answers: it runs on fuel, one more than there are
-- rows.  With a batch size above 0, each round but the last one deletes a row.
--
-- Parameters.  Float64 stands for Go's floats and JsonCodec for encoding/json; a theorem that needs
-- something of the codec has it as the hypothesis JsonRoundTrip.  Sql stands for what DuckDB computes
-- (a row's date, a stored time, a rounded quotient), Calendar for the texts of dates, Texts for
-- SHA-256 and the texts of times, Http for net/http, encoding/json, HMAC and base64.  In the examples,
-- floats are exact ratios, and the codec is a table with the values that occur.
--
-- Not modelled: the checkers and probes, the other pages of the HTTP server with its routing,
-- the Redis cache and the sharing of one load among callers of the cache in memory, the ticker of the
-- cleanup worker, migrations and start-up, and everywhere logging, tracing, metrics and sleeping.
pub mod Base
pub mod Monitor
pub mod Incident
pub mod Reason
pub mod History
pub mod Config
pub mod Submission
pub mod Alert
pub mod Processor
pub mod Alerter
pub mod Examples
pub mod Ingester
pub mod Cleanup
pub mod Server
pub mod Uptime
