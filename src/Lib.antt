-- ===== src/Lib.antt =====
-- A model of the latency benchmark: the task language, the load generator (latency_server), the
-- clients, the runner's suites, plans and command lines, and parts of the analysis.
--
-- - Base: shared names, Boolean tests, lists measured by native numbers, results and integers.
-- - Text: bytes as numbers, `std::string_view` and `std::from_chars` as the code uses them, with the
--   laws of searching (Text.Find), of decimals (Text.Decimal) and of `split` (Text.Split) of
--   src/runner.cpp.
-- - Duration: parseDuration, parseMonitoringPeriod and monitoringPeriodPropertyValue of src/core.cpp.
-- - Task: TaskPattern of include/latency/core.hpp and src/core.cpp; Task.Parse is parseTask and
--   Task.Symbols the synthetic symbols. toString is `task_text`.
-- - Suite: BenchmarkSuite of include/latency/runner.hpp and parseBenchmarkSuite of src/runner.cpp:
--   Settings is the loop over the lines, Assign fills the suite, Check holds the checks.
-- - SourceTime: SourceTimeMethodComparison of src/core.cpp.
-- - Server: src/server.cpp. Random, Shuffle, History, Publish, Pools, Schedule and Worker are the
--   parts of the class Generator; Config is parseArgs. The worker thread is a step on its state:
--   commands and deadlines come in, events for the publisher go out.
-- - Collector: the class Collector of src/client.cpp, which relates the events to the markers that
--   the generator publishes after each batch. Samples is finish, Batches the pending batches, and
--   Callbacks the listener, the measurement and the windows.
-- - Tracker: the class TimeSeriesTracker of src/client.cpp.
-- - Arguments: the loop over the command line that the clients and the analyzer share.
-- - Clients: parseArgs of src/client.cpp (Graal), src/graal_delivery_client.cpp (Delivery),
--   src/legacy_client.cpp (Legacy) and src/analyzer.cpp (Analyzer), roles and batch limits. Session is
--   the class Session of src/legacy_client.cpp, with the C API and its constants as a parameter.
-- - Deliveries: the counters of src/graal_delivery_client.cpp. Maximum is updateMaximum as a step
--   relation on threads that share the counter, with relaxed loads and the weak exchange that may
--   fail.
-- - Csv: csv of src/runner.cpp, writeCsvValue and parseCsvRow of src/monitoring.cpp.
-- - Plan: buildBenchmarkPlan of src/runner.cpp.
-- - Run: the command lines that runBenchmarkSuite of src/runner.cpp builds.
-- - Monitoring: parseBenchmarkProfile and readMeasurement of src/monitoring.cpp; the readers of
--   timestamps and of floating-point numbers are parameters of the latter.
--
-- The runner reads a suite, plans its runs, and starts a generator and a client for each of them.
-- The generator takes a task from a text message or its command line, waits until the
-- subscriptions hold its symbols, and then publishes a batch and a marker per period; the client
-- counts what arrives of each batch. The analysis reads the files of the runs back.
--
-- std::size_t and std::uint64_t are numbers with their wrap-around or overflow check written out
-- where the code computes beyond a counter; the event counters of a task, of the collector and of
-- the tracker are unbounded, and so is the number of sources of a task, which is at most 26 in a
-- task that was parsed; the counters of Deliveries wrap. The deadline of the generator is an
-- int64 of nanoseconds: once it overflows, which is undefined in C++, the model has no deadline and
-- publishes no more until the next task. Other durations in nanoseconds are unbounded.
-- Loops are structural recursion on the rounds or the elements left, so no fuel can run out; the
-- digits of a number n are printed with n + 1 rounds, and a text of n bytes is split in at most
-- n + 1 rounds. An access outside a vector makes the result `none`,
-- in a swap, a counter of a batch, a pool or its events; the sets of subscribed symbols are an array
-- with a set for each kind, which are always all there. A map or set is a list; the settings of a
-- suite are in the order of their keys.
--
-- Not modelled: floating-point statistics and prices, clocks, locks, input and output, the dxFeed
-- library, the regular expressions over log lines, the callbacks of the legacy client, and process
-- control. dxFeed's TextMessage::MAX_SEQUENCE, its batch limits and the clock are arguments of the
-- definitions that use them. The texts of most messages are reduced to the kind of error.
pub mod Base
pub mod Text
pub mod Duration
pub mod Task
pub mod Suite
pub mod SourceTime
pub mod Server
pub mod Collector
pub mod Csv
pub mod Plan
pub mod Arguments
pub mod Clients
pub mod Run
pub mod Deliveries
pub mod Monitoring
pub mod Tracker
