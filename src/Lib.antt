-- ===== src/Lib.antt =====
-- Verification of the C++ backend of ETL Plus (directories include and src): an HTTP and WebSocket
-- server that schedules ETL jobs, runs them in a worker thread against a PostgreSQL database, and
-- tells its clients of their progress.
--
-- The parts and how they interact. ETLJobManager runs jobs: the load of a job opens a
-- TransactionScope on DatabaseManager, and the status and progress of a monitored job go to the
-- job monitor service, which passes them on to WebSocket clients and the notification service.
-- Each of these has a circuit breaker of the same body, and a recovery state with a backoff.
-- A status or log message reaches the clients through WebSocketManager, whose MessageBroadcaster
-- queues it or sends it to the connections of its ConnectionPool whose filters accept it; clients
-- change their filters through WebSocketFilterManager.
-- ConnectionPoolManager hands out the sessions that serve the HTTP clients, whose requests pass
-- RateLimiter. All report errors by the codes of error_codes.hpp.
--
-- The files:
--   Prelude            shared names, Boolean tests on numbers, lists measured by native numbers.
--   Breaker            ConnectionCircuitBreaker (include/websocket_connection_recovery.hpp),
--                      ServiceCircuitBreaker (include/job_monitor_service_recovery.hpp) and
--                      NotificationCircuitBreaker (include/notification_service_recovery.hpp),
--                      which have one body; allow_operation, on_success and on_failure are
--                      allowOperation, onSuccess and onFailure.
--   Errors             include/error_codes.hpp and src/error_codes.cpp: the codes, their table and
--                      the migration of the legacy codes (Errors/Legacy).
--   Exceptions         ExceptionHandler (include/exception_handler.hpp and
--                      src/exception_handler.cpp): its policies and its retries; a function that
--                      may throw is what it comes to, by the number of the attempt.
--   Recovery           the backoff functions (Recovery/Backoff, with calculateDelay of
--                      src/exception_handler.cpp), the bounded queues (Recovery/Queue),
--                      ConnectionRecoveryState and ServiceRecoveryState (Recovery/States) and
--                      RetryQueueManager (Recovery/Retries) of the same three headers.
--   Pool               ConnectionPoolManager (src/connection_pool_manager.cpp): Pool/State is its
--                      state and constructor, Pool/Requests what its operations are made of, Pool
--                      the operations, Pool/Sessions the part of PooledSession that it sees. A
--                      call of acquireConnection is two steps, acquire_connection up to its wait
--                      and wake_acquire after it; other calls may come between.
--   Database           TransactionScope (src/exception_handler.cpp) and the statements of
--                      DatabaseManager (src/database_manager.cpp) over a server, a parameter that
--                      stands for the pool of connections and libpqxx.
--   Limits             RateLimiter (src/rate_limiter.cpp): its rules and how one is found
--                      (Limits/Rules), and the counters of the windows (Limits/Windows).
--   Monitoring         src/job_monitoring_models.cpp: the names of types and statuses
--                      (Monitoring/Names), the messages (Monitoring/Messages) and
--                      ConnectionFilters (Monitoring/Filters).
--   Sockets            the WebSocket side: WebSocketConnection (src/websocket_connection.cpp) in
--                      Sockets/Connection, ConnectionPool (src/connection_pool.cpp) in
--                      Sockets/Table, MessageBroadcaster (src/message_broadcaster.cpp) in
--                      Sockets/Broadcasts, WebSocketManager (src/websocket_manager.cpp) in
--                      Sockets/Manager, WebSocketFilterManager
--                      (src/websocket_filter_manager.cpp) in Sockets/Preferences, its request
--                      handlers in Sockets/Preferences/Handlers.
--   Monitor            JobMonitorService (src/job_monitor_service.cpp), which observes the events of
--                      ETLJobManager, keeps the tables of active and completed jobs and calls
--                      WebSocketManager and NotificationService.
--   Notifications      NotificationServiceImpl (src/notification_service.cpp): the queue, the
--                      rounds of its thread, the deliveries and the retries, for which it uses
--                      the retry queue of Recovery/Retries; the messages in
--                      Notifications/Messages.
--   Database/Connections
--                      DatabaseConnectionPool (src/database_connection_pool.cpp), the pool of
--                      connections of libpqxx.
--   Texts              the splitting, joining and URL encoding of src/string_utils.cpp, on the
--                      bytes of a text.
--   Jobs               ETLJobManager (src/etl_job_manager.cpp): the work of a job and executeJob
--                      in Jobs, executeJobWithMonitoring in Jobs/Monitoring, the records that they
--                      change in Jobs/State; the store of jobs, its queue and the worker thread in
--                      Jobs/Store, whose worker goes through workerLoop in steps between which
--                      other calls may come.
--
-- Time is the reading of the clock that a call makes, passed as an argument. A call, a loop or a
-- round of a thread that reads the clock several times is given one reading for all of them,
-- unless the definition takes more. A method that locks a mutex is one step. Numbers are natural
-- numbers: the counts that occur stay far below the width of their C++ types, save for the time
-- points and durations of Recovery/States, where an overflow of 64 bits is written out as an
-- undefined result, and for the number of connections of Database/Connections, which wraps
-- around. Floating-point products appear where they are exact or are cut to whole numbers: the
-- multiplier of a backoff is a fraction, and the rates of success of a batch are percentages.
--
-- Fuel: extract_batches and load_batches have as many rounds as records, and each round counts at
-- least one record, so that they are enough. attempts_from counts the attempts that are left, as
-- the loop does. process_message_queue and flush_queue make a given number of rounds, since the
-- first has no end and the second need not have one, and run_rounds makes one round for each time
-- that it is given. create_connection counts down the attempts of the loop, and decimal has the
-- ten digits that an int can have. All other loops are structural.
--
-- Not modelled: logs, JSON and SQL texts, the timers and the input and output of Boost.Asio and
-- Boost.Beast, the threads of the metrics collector, and the floating-point figures of the
-- metrics. The other parts of the program are listed with the reasons in the project's manifest.
mod Prelude
pub mod Breaker
pub mod Database
pub mod Errors
pub mod Exceptions
pub mod Jobs
pub mod Limits
pub mod Monitor
pub mod Monitoring
pub mod Notifications
pub mod Pool
pub mod Recovery
pub mod Sockets
pub mod Texts
