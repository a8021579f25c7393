-- ===== src/Lib.antt =====
-- A verification of the parts of my_go that keep state by rules of their own: the rate limiter, the
-- idempotency service, the job scheduler, the task worker, the health service, the notifier on
-- PostgreSQL, the retries, the merging of configurations, and the notification service that runs on
-- the worker.
--
-- The program. my_go is a set of Go packages for services, with a notification service on top. A
-- request handler asks the rate limiter whether a client may go on; work that must not be done
-- twice runs through the idempotency service; recurring work is registered with the scheduler, of
-- which each instance polls a backend for due jobs and runs them under a lock of that backend. Each
-- of the three packages keeps its state behind a storage interface, with an in-memory
-- implementation and one on Redis, where commands can fail with or without their effect. A worker
-- fetches tasks from a provider, runs the handler of each task's type through middlewares, and
-- acknowledges the task or gives it back. The notification service stores deliveries in a database;
-- its poller puts pending ones into a queue, from which its provider makes tasks for a worker,
-- whose handler sends them over a channel and records the result. The health service makes one
-- status of many checks. The package pgnotify calls back on PostgreSQL's notifications.
--
-- The files, and the code that they are about:
--   Common: names that all parts share. Common/Map is Go's map as an association list, Common/Int
--     is int64 with its wrap-around, Common/Clock is package time, Common/Errors a value or an
--     error.
--   Rate: internal/pkg/rate. Types (limiter.go), Config (config.go), Memory (storage_memory.go),
--     Redis (storage_redis.go), one file with children for each of the four executors
--     (executor_fixed_window.go and so on), and Limiter (limiter.go and middleware_worker.go) and
--     Middleware (middleware_http.go), over any storage. History lets any requests come at any
--     times in order; Laws has what is asked of float64; Middleware/Serving is about the requests
--     that reach a handler.
--   Idempotency: internal/pkg/idempotency. The data (types.go, errors.go), Memory
--     (storage_memory.go), Redis (storage_redis.go, keygen.go), Service (Execute and ExecuteTyped
--     of service.go), Typed (TypedService of types.go). Replay is about two calls one
--     after the other; Callers is a step relation of any number of callers, in which each access
--     to the storage is one step, and Exclusion is about all its interleavings. Marks is about the
--     Redis storage.
--   Scheduler: internal/pkg/scheduler. The data (job.go, backend.go, errors.go), Schedules
--     (schedule.go), Retry (NextRetryDelay of job.go), Config (config.go), Backend
--     (backend_memory.go), Redis (backend_redis.go), Executor (executor.go), Engine (scheduler.go,
--     and AcquireAndExecute of lock.go), LockManager (the rest of lock.go). Locks is about
--     sequences of lock calls, Attempts about the retry loop, Lifecycle about
--     Register, Remove, Pause and the worker pool, Runs about what the end of a run records;
--     RedisLocks and RedisJobs are about the Redis backend.
--   Worker: internal/pkg/worker. The data (task.go, config.go, handler.go, provider.go), Tasks
--     (task.go), Middlewares and Metrics (middleware_*.go), Processing (worker.go) over any
--     provider, Redis (provider_redis.go). RoundTrip is about messages and tasks, Draining about
--     the loop over any provider with the laws that it names, and Streams about the loop over a
--     Redis stream, of which the laws of the client's commands are parameters.
--   Notification: internal/service/notification. The data (model/model.go), Queue, Poller and
--     Delivering (worker/queue.go, poller.go, worker.go and provider.go), Repository
--     (repository/repository.go), Channels (channel/channel.go), Service (service/service.go),
--     Handlers (handler/handler.go, and the answers of internal/pkg/server/server.go). Access is
--     about the handlers, Fifo is about the queue, Polling about a poll, Rows about the database's
--     rows, and Pipeline composes provider, task worker, handler and database.
--   Pgnotify: internal/pkg/pgnotify. The data (types.go, notifier.go, subscription.go), Settings
--     (config.go), Subscribing (subscription.go, notifier.go), Dispatching (dispatcher.go), Pgx
--     (provider_pgx.go) and
--     Reconnecting (notifier.go). Channels and Silence are about subscriptions, Attempts about the
--     attempts to reconnect.
--   Health: internal/pkg/health. The data (types.go), Checking (service.go, handler.go), Providers
--     and Databases (the four provider files). Loops and Verdicts are about the aggregation,
--     Starting about the first responses.
--   Retry: internal/pkg/retry/retry.go. Ending is about how a run of retries ends.
--   Redis: the commands of a client as a record, with the lock of internal/pkg/redis/lock.go and
--     the marks and keys beside it. Entries has what Redis documents of the commands, as laws of a
--     view of each key, Keeping what follows of one command, and Server is an instance in memory.
--   Database: internal/pkg/database/repository.go. Errorsx: internal/pkg/errorsx.
--   Migration: internal/pkg/migration, over golang-migrate.
--   Config: internal/pkg/config (provider.go, manager.go, config.go). Merging is about which source
--     wins, Environment about the variables of the environment.
--
-- Correspondence. A Go struct is a record with the same fields, less mutexes, channels and loggers.
-- A method is a function of the same name from the receiver's state to the new state and the
-- results; a method that runs under a mutex is one step. A pointer that may be nil is an Option,
-- and an error is a value of a data type, with its message where the code keeps one and without the
-- texts it wraps.
--
-- Conventions. A time is a number of nanoseconds since Go's zero time, and the clock is an argument
-- of what reads it: methods that read it more than once in a row get one reading. A duration and an
-- int64 are integers, with wrap-around written where the code computes on counters. A float64 is a
-- value of a parameter type; the laws that a theorem asks of it are a record that has an instance
-- in Rate/Tests/Floats. Where two components act on the same things, such as a provider and a
-- handler on one database, they act on one state. Goroutines that are started together run in some
-- order, one after the other. Recursion is structural, on the attempts that are left or on a list,
-- with three exceptions: the worker's loop runs for a number of passes, of which MaxRetry - Retry +
-- 1 for each waiting task are enough, and the attempts to reconnect have fuel, of which
-- MaxReconnectAttempts + 1 are enough, as are MaxAttempts + 1 for retries, where
-- MaxAttempts is below the largest int.
--
-- Outside the model, as parameters: a serializer, the functions that callers hand over, a parsed
-- cron expression, float64 arithmetic, how an attempt of a job ends, what a wait or a running job
-- does to the world, the commands of a Redis client and of a script on its server, the printing and
-- reading of numbers and of payloads, the database of the notifications with its two long queries,
-- the client of the push service, the driver of PostgreSQL, what a health provider answers in
-- time, what the network, a driver or a client answers to a provider, what is read of a request and
-- done to a response, the user of a request (the package auth is not in the repository),
-- encoding/json, SHA-256, golang-migrate, and the statements of
-- gorm.
-- Not modelled: the reading and decoding of a configuration; logging and wiring; the HTTP server;
-- the ticker loops and the goroutines, which only call what is modelled; the parts of Stop and
-- Shutdown that wait; the rounding of the float64 between a duration and its whole seconds; and the
-- packages httpclient, logctx and logger.
pub mod Common
pub mod Config
pub mod Database
pub mod Errorsx
pub mod Health
pub mod Idempotency
pub mod Migration
pub mod Notification
pub mod Pgnotify
pub mod Rate
pub mod Redis
pub mod Retry
pub mod Scheduler
pub mod Worker
