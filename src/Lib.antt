-- ===== src/Lib.antt =====
-- Verification library of cisync, a control plane that admits, validates and decides on changes that
-- agents propose.
--
-- The control plane (services/control-plane) keeps the aggregates: an intent and its candidates, the
-- leases, plans, runs, failure cases, repair tasks and evidence records that belong to them. Each
-- aggregate is a state machine with a transition table. The runner fleet (services/runner-fleet) holds
-- the jobs that the control plane dispatches; workers claim them, send heartbeats and complete them
-- under a fence token. The ingest service (services/ingest) takes webhooks and marks suspected
-- replays, keeps each delivery and forwards it, again if need be.
--
-- A candidate's policy is resolved from a registry, its validation plan follows from the policy, runs
-- of the plan are admitted, dispatched with a job lease, and reported back as evidence; every event
-- goes into a ledger whose hash chain is verified from time to time. A run that fails is classified, and
-- may be repaired within an envelope. The connector (services/github-connector) writes check runs to
-- GitHub under a budget, from a queue where that is exhausted.
--
-- Domain models services/control-plane/internal/domain. Domain.Machine is the guard that every `Apply`
-- has (terminal test, table lookup, test of the `from` states); Domain.Intent, Candidate, Lease, Run,
-- FailureCase, Repair, Plan, EvidenceRecord, Cluster and Policy are intent.go, candidate.go, lease.go,
-- validation_run.go, failure_case.go, repair_task.go, validation_plan.go, evidence_record.go,
-- cluster.go and policy.go. A method on a pointer is a function from the aggregate to a pair of the
-- aggregate and an error, `none` for nil; `time.Now()` is an argument. The modules Laws below them hold
-- the theorems, over sequences of triggers where a trigger that is refused changes nothing.
--
-- Fleet models services/runner-fleet/internal. Fleet.Job has the data of domain/job.go and
-- store/store.go; Fleet.Store is store/memory.go, each method one step on the state, since it runs
-- under the store's mutex; `none` is a panic on a missing job. Fleet.Store.Evolution says how one job
-- can change, History lifts that to sequences of operations, Keyed has the keys of the jobs, and
-- Guarantees, Claims and Totality have the results. Fleet.LeaseGate is execute/lease_gate.go, the heartbeat of execute/complete.go and
-- api/lease_auth.go; the verifier of tokens is a parameter, a function from a token to its claims.
--
-- Evidence models services/control-plane/internal/evidence. Evidence.Evaluate has evaluate.go and the
-- checks of results.go, each check in its own function that answers the reason or `none`;
-- Evidence.Census is the census of results.go, Evidence.Digests the digest tests and the insertion
-- sort, Evidence.Engine the adapter of engine_evaluator.go, whose resolver is a parameter, and
-- Evidence.Sufficiency is sufficiency.go, where the quotient of two counts stands for the float. The
-- text in a rejection is a constructor of `Reason`.
--
-- Cluster models services/control-plane/internal/cluster: Cluster.Member the data of assign.go,
-- Cluster.Representative representative.go, and Cluster.Supersede supersede.go. A priority is a finite
-- float, which the model replaces by an integer of the same order.
--
-- Scheduler models services/control-plane/internal/scheduler: Scheduler.Ordering is ordering.go, with
-- priorities as in Cluster, and Scheduler.Admit is admit.go, whose loop is recursion on the sorted
-- batch with the loop's variables in a state; the returned numbers are the drawn amounts.
-- Scheduler.Cancel is cancel.go, Scheduler.Guards completion_guards.go. Go's sorts are the insertion
-- sort of Prelude.Sort.
--
-- Connector.Rerun models services/github-connector/internal/rerun/budget.go and the use of it by
-- internal/api/flow_rerun.go, for requests that are handled one after the other, each with a reading of
-- the clock for Allow and one for Record; a text `%d|%d` of a bucket and an hour is the pair.
-- Connector.Gate is internal/ratelimit/gate.go with its three attempts;
-- what the token bucket, GitHub and the context answer is an argument. Connector.Queue is
-- internal/queue/pending.go and drainer.go, where the id of a write is a function of the clock and the
-- number; a missing entry of the map counts as the zero write. Connector.Tracking is
-- internal/tracking/memory.go, where the text of a candidate and a revision is the pair.
--
-- Ingest.Seen is services/ingest/internal/seen/lru.go. The map from keys to list elements is the list
-- of the keys that have one. The eviction loop runs on fuel, the length of the list, which is enough
-- since each round removes an entry: that the loop ends within the bound is part of the invariant in
-- Ingest.Seen.Laws. Ingest.Seen.Window relates a call to a plain list, and Replay covers sequences of
-- calls.
--
-- Policy models services/control-plane/internal/policy. Policy.Document is the data of policy.go,
-- Policy.Glob is glob.go, Policy.Resolve is resolve.go with the registry's answer as an argument, and
-- Policy.DefaultPack default_pack.go, where a JSON text is the value that it stands for. A text that is
-- matched is the list of its bytes. The loop over a segment has fuel (|s| + 2) (|p| + 1), which
-- Policy.Glob.Termination shows to be enough; the recursion over the segments is structural.
--
-- Planner models services/control-plane/internal/planner: Planner.Tiers tier_defaults.go,
-- Planner.Kinds kinds.go, Planner.Paths glob.go, surfaces.go and matchAnyPath of triggers.go,
-- Planner.Inputs inputs_hash.go, Planner.Ladder the rest of triggers.go, surfaces.go and ladder.go,
-- Planner.Plan plan.go, and Planner.Engine adapter.go. Its copies of matchSegments and matchOneSegment
-- are those of Policy.Glob, and its sort is that of Evidence.Digests. The digest, the fresh id and the
-- clock of the engine and the bits of a float are parameters.
--
-- Failure models services/control-plane/internal/failure: Failure.Classify has classify.go, reproduce.go
-- and the digest of normalize.go, where the record Patterns answers what the regular expressions find,
-- and Failure.Repair is repair.go, whose last gates are functions by clauses.
--
-- JobLease models services/control-plane/internal/joblease: Mint of joblease.go and verifier.go. The
-- record Crypto holds what is taken from libraries: Ed25519, unpadded base64url and JSON, with the laws
-- that a signature verifies under the public half of its key, that encoding round trips, and that the
-- header that Mint writes names its algorithm. JobLease.Header is the authorization header, for ASCII
-- bytes.
--
-- Ledger models services/control-plane/internal/verify/verifier.go, the hash of internal/domain/event.go
-- and RunOnce of verify/scheduler.go. The rows of the two queries are arguments, SHA-256 is a parameter,
-- and a run of the scheduler answers the list of its effects.
--
-- Ingest.Deliveries is services/ingest/internal/store/memory.go and domain/delivery.go, where the order
-- of the list stands for that in which Go visits the map. Ingest.Retry is internal/retry/worker.go: a
-- World is what the redaction, the forwarder, the context and the clock answer while one delivery is
-- processed: the clock is read when a scan starts, and again for the write behind the attempts and their
-- waits. Errors of the store, which the worker only logs, change nothing.
--
-- Numbers: a Go int that is never negative is a native ℕ and any other is the ℤ of Prelude.Int, both
-- unbounded, since no operation here comes near 2^63 but for the drainer's shift, whose wrap-around is
-- written out; a float64 that is only stored is its bit pattern, and one that is compared is its integer
-- multiple of 2^-1074. A time is a number of nanoseconds. Maps are association lists (Prelude.Maps).
--
-- Not modelled: HTTP handlers, SQL stores, metrics, configuration, the providers that run containers,
-- and the web application, which are input and output around this core; what computes with floats (the
-- token bucket, the similarity of candidates and the priority formula) and what regular expressions
-- find. The parts outside the packages named here are listed with the reasons in the manifest.
pub mod Prelude
pub mod Domain
pub mod Fleet
pub mod Cluster
pub mod Scheduler
pub mod Evidence
pub mod Connector
pub mod Ingest
pub mod Policy
pub mod Planner
pub mod JobLease
pub mod Failure
pub mod Ledger
pub mod Tests
