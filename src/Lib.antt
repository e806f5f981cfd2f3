-- ===== src/Lib.antt =====
-- TortureU drives load and faults against a service on one clock and writes one verdict. This
-- library models the logic behind a run, package by package.
--
-- - internal/config/config.go, Parse: Config (the types), Config/Grammar (atGrammar), Config/Checks
--   (the verb table and the checks of one inject: map), Config/Parse (Parse from the decoded YAML
--   on). Its result goes to every other part.
-- - internal/egress: Egress. Classify gives every host a class, Audit and CheckUnclassified read the
--   classes, and a run goes on only behind the check.
-- - internal/fault: Fault (tables and types), Fault/Values (number formats), Fault/Translate
--   (Translate, translateToxic, translateDocker), Fault/Manager (Manager.Apply).
--   internal/queuefault: QueueFault, QueueFault/Manager. internal/applier/errorrate.go and
--   mock_applier.go: MockRate.
-- - Undo: the list of undo functions that fault.Manager, queuefault.Manager and the scheduler's
--   expireTracker each keep, with Teardown, and the atomic steps that goroutines make on it.
-- - internal/run/scheduler.go: Scheduler (on which marker each declared fault fires),
--   Scheduler/Apply (what its goroutine then does with the managers, the tracker and the error
--   list).
-- - internal/trace/chain.go: Trace (matching spans to a target), Trace/Stats (latencies), Trace/Walk
--   (BuildChain).
-- - internal/run/findings.go and sqlassert.go: Findings (candidates and attribution),
--   Findings/Thresholds (what assertions become). internal/run/trace.go: Findings/Chain
--   (applyTraceChain).
-- - internal/run/run.go: Run (the state of a run and what its seams answer), Run/Steps (the steps of
--   Run in their order, each with its exits). It calls Egress, Findings and, through the errors it
--   reports, Scheduler. The goroutine that watches for signals is `watch`: its teardown is one step,
--   at the end of the stretch of Run in which it comes, and the flag that it sets behind the teardown
--   is what the checks of Run read.
-- - internal/verdict: Verdict (the document, AtMost, ExitCode).
-- - internal/k6/k6.go: K6 (Compile up to the JavaScript around its values, ParsePhaseMarker).
--   internal/k6/summary.go: K6/Summary (IngestSummary), whose result Findings/Thresholds evaluates.
-- - internal/run/load.go: Load (K6Runner: the markers on k6's streams, read up to the first line of 64
--   KiB, container mode). The markers are what Scheduler waits for.
-- - internal/run/drive.go: Drive (the refusals, the bound and the life of the tools that run beside
--   the load), Drive/Results (what they add to the verdict).
-- - internal/capture/scrub.go: Capture (headers and JSON values).
-- - internal/detect: Detect (types.go), Detect/Images, Detect/Sut and Detect/Whole (compose.go:
--   DetectWithSUT), Detect/Hosts (envhosts.go), Detect/Clients, Detect/Directory and
--   Detect/Manifests (lockfile.go). Compose is the part of compose-go's project that is read;
--   compose-go, url.Parse and the manifests' decoders are parameters.
-- - internal/run/topology.go: Topology (Apply's overlay over BuildTopology's networks),
--   Topology/Commands (what Apply and TeardownDisabled write and run).
-- - internal/applier/mock_applier.go, internal/run/toxiproxy_applier.go and docker_applier.go:
--   Appliers/WireMock, Appliers/Toxiproxy and Appliers/Docker, which stand behind the managers of
--   Fault.
-- - internal/smoke/smoke.go: Smoke (percentiles and the exit code).
-- - internal/trend/trend.go: Trend (Report over the records of the store, diffFindings),
--   Trend/Project (the record of a verdict), Trend/Lines (Append and Load over the text of the file,
--   with the JSON encoding of a record as a parameter). The numbers of a record come from JSON and
--   are finite.
--
-- Base holds the shared lists, maps, texts and results, Value is Go's `any` as YAML and JSON fill
-- it, Float64 is Go's float64 as an exact multiple of 2^-1074, and Duration is time.ParseDuration,
-- Float64/Parse is strconv.ParseFloat. A Go map is an association list whose order stands for the
-- iteration order; an int is an integer, since no number here reaches 2^63 except in conversions
-- from float64, which Float64.to_int cuts off as amd64 does, and in sums of durations, which wrap.
-- Texts of errors are constructors with the names they quote.
--
-- Fuel: Float64.bits has 4300 rounds, more than the digits of any quotient of doubles; the loop of
-- ParseDuration has one round per character, and every round takes at least one; the walk of
-- BuildChain has one round per span of the trace and one more; Float64/Show looks for a decimal
-- exponent in 310 or 330 rounds, beyond those of any double.
--
-- Not modelled: YAML decoding, which is the input of Parse; the HTTP and Docker clients, which are
-- parameters where a definition calls them; timers and sleeping, where a sequence of steps stands
-- for any interleaving; the recovery from a panic of Run; the text of the JavaScript that k6 runs;
-- rendering; recording and replay of traffic; emitters, the MCP server and the command line.
pub mod Base
pub mod Duration
pub mod Float64
pub mod Value
pub mod Verdict
pub mod Config
pub mod Egress
pub mod Fault
pub mod Undo
pub mod QueueFault
pub mod MockRate
pub mod Scheduler
pub mod Trace
pub mod Findings
pub mod Run
pub mod K6
pub mod Load
pub mod Capture
pub mod Drive
pub mod Compose
pub mod Topology
pub mod Appliers
pub mod Smoke
pub mod Detect
pub mod Trend
pub mod Tests
