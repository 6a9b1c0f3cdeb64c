-- ===== src/Lib.antt =====
-- Models of the proxima-scheduler, a Kubernetes scheduler for several clusters that places pods by
-- node scores and by the latency from edge proxies (proxima-scheduler/).
--
-- The parts, and the files that model them:
--   Kube       the API objects, with the fields that the code mentions
--   Effect     the calls of API servers, database, clock and random source
--   Strconv    the parsing of integers
--   Strings    the splitting and joining of texts
--   Decimal    the printing of integers
--   Clients    proxima-scheduler/util/k8s.go: API clients and kubeconfigs, and util/util.go
--   Nodes      proxima-scheduler/util/k8s.go: queries of nodes and services
--   Scheduler  proxima-scheduler/scheduler/scheduler.go and node_selector.go
--     Scheduler.Starting       NewScheduler
--     Scheduler.Capacity       hasEnoughCapacity, selectNodeBasedOnCapacity and -Latency
--     Scheduler.Selection      GetNodeIPForSchedule, pickWeightedByScore, obtainEdgeNodeLatencies
--     Scheduler.Hashing        withNewHashedName, calculateNewHash
--     Scheduler.Placing        GetNodeScores, schedulePod, bindPodToNode
--     Scheduler.Rescheduling   reschedulePod, handlePodReconciliation, ReconcilePods
--     Scheduler.Enforcing      EnforceDesired, spawnReplica
--     Scheduler.Intake         the handler of a new pod in Run
--     Scheduler.Running        Run: new pods and ticks, one after another
--   Metrics    proxima-scheduler/edgeproxy/metricsworker.go: the ring of five buckets
--     Metrics.Running          processMetrics, periodicFlush and the channel
--   EdgeProxy  proxima-scheduler/edgeproxy/edgeproxy.go: the state of an edge proxy
--     EdgeProxy.Refreshing     getPodsForService, refreshCandidates, backgroundRefresh
--     EdgeProxy.Choosing       getBestPod, weightedRandomSelect
--     EdgeProxy.Paths          the paths of requests that are forwarded
--     EdgeProxy.Requests       preprocessRequest, the director, ModifyResponse, the error handler
--     EdgeProxy.Running        Run: ticks, requests, invalidations and failures
--   Pinger     proxima-scheduler/pinger/pinger.go: the latencies and their aggregation
--     Pinger.Running           Run and Stop
--   ScoresWorker  proxima-scheduler/scheduler/scoresworker.go: weights and scores
--     ScoresWorker.Running     Run
--   Database   proxima-scheduler/util/db.go: the points that are written, the rows that are read
--     Database.Answers         what the database answers to a query, an assumption of theorems
--     Database.Queries         what the client asks for, by a record in place of a text
--   Configuration  proxima-scheduler/util/config.go
--   Admission  proxima-scheduler/admissionhandler/admissionhandler.go: the answer to a review
--   Entry      the main functions of proxima-scheduler/cmd/
-- The scores worker reads what the pingers save, the schedulers and the edge proxies read what the
-- scores worker and the pingers save, and the metrics worker takes the measurements of its edge proxy.
-- A function has the name of the Go function in snake_case. The Go loops are `loop` over a body, or
-- structural recursion. Only `decimal`, the printing of a number, has fuel: the number's successor,
-- which is enough since a number has fewer digits than that.
--
-- The world. A computation is a function of the history of calls made so far. `Env` answers each
-- call from that history, so that an arbitrary `Env` stands for clusters and a database that change
-- between any two calls in any way, and that accept or refuse each request. A `History` keeps every
-- call, newest first; `writes` keeps those that change a cluster. `Outcome` tells a return from a
-- panic, which a nil clientset, a nil entry or an index out of range causes.
--
-- Data. Go maps are association lists; their order is that of the iteration, the
-- same each time that one computation ranges over a map. The scheduler is passed
-- and returned in place of the pointer. Floating-point numbers are an interface, `Float`, with the
-- operators that occur; where a proof uses laws, they are `IsOrdered`, which hold in IEEE
-- arithmetic too. `Micro` is an instance to evaluate with. Integers of 64 bits wrap around in
-- `wrap64`. Resource quantities are whole numbers of the smallest unit.
--
-- The pinger, the scores worker, the client of the database, the configuration and the admission
-- handler are functions of the answers that they get: what they ask to be saved is part of the result.
-- `IsUnique` says of an association list that it has one entry for a key, as Go's maps do. In one
-- round of the pinger the answers belong to addresses: one that is listed twice gets the same answer
-- twice. A channel of the size 0 lets nothing through, although a receiver could wait; the program's
-- one has the size 100. The two
-- loops over a Go map that may delete its entries visit the keys that were there at the beginning.
--
-- The programs run as sequences of events: a tick, a new pod, a request, a measurement. An event is
-- handled as a whole before the next one, in any order of them, so that the theorems about a run hold of
-- each interleaving of whole handlers. The loops over events are structural recursion on the list of
-- those that come, and end where it ends, or where the program is stopped. A ticker whose interval is
-- not positive panics.
--
-- Not modelled: log messages; the locks of the goroutines, and handlers that overlap; the flight group
-- that lets concurrent refreshes share one run; HTTP, TLS and JSON, with the start of the
-- servers; the texts of InfluxDB's queries, and the reports of its writer; how InfluxDB evaluates a
-- query, an argument of which `Database.Answers` states what its documentation says of filters;
-- `time.ParseDuration`; how client-go reads a kubeconfig and makes a client, the caches of its
-- informers, and how the file system joins paths; the edge proxy's counters that nothing reads, the
-- settings of its transport and its recorder of statuses, which nothing reads either.
pub mod Prelude
pub mod Map
pub mod Float
pub mod Kube
pub mod Effect
pub mod Strconv
pub mod Decimal
pub mod Strings
pub mod EdgeProxy
pub mod Pinger
pub mod ScoresWorker
pub mod Database
pub mod Clients
pub mod Configuration
pub mod Admission
pub mod Nodes
pub mod Scheduler
pub mod Entry
pub mod Metrics
mod Tests
