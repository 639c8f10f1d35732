-- ===== src/Lib.antt =====
-- Verification library of the GRIEFER security platform (internal/, policies/).
--
-- GRIEFER takes in security events, keeps them with the incidents found in them, and has a Policy
-- Kernel judge every proposed response. The parts and the files that model them:
--   * Events (internal/events): event.go is Events; guard.go, which strips labels that name a
--     control-plane concept, is Events/Guard; normalize.go, with the clock window, Events/Normalize.
--   * Graph (internal/graph): entity.go is Graph and Graph/Identifier; graph.go is Graph/Store, where
--     the pointers to edges that the two indexes share are positions in one heap of edges, and
--     Graph/Reach, the walk of EstimateBlastRadius, with Reach/Ends for its end and Reach/Distance for
--     what it lists; projector.go is Graph/Project and
--     inventory.go Graph/Inventory.
--   * Incidents (internal/incidents): model.go is Incidents and Incidents/Categories, catalog.go is
--     Incidents/Catalog.
--   * Risk (internal/risk/score.go): Assess.
--   * Correlation (internal/correlation): rules.go is Correlation/Rules, with Rules/Validate and
--     Rules/Load; recommend.go is Correlation/Recommend; engine.go is Correlation/Evaluate (evaluate and
--     thresholdMet), Correlation/Merge (mergeFinding), Correlation/Derive (recompute) and
--     Correlation/Engine (Process), whose record IncidentStore is the interface to the store, which
--     Engine/Memory fills; Engine/Leaves has what Process does to that store, by which the engine can stand
--     in for the correlator of Api/Ingest.
--   * Config (internal/config/config.go): Validate, isPublicBind and Redacted over a given configuration;
--     what net and strconv parse is a parameter.
--   * Policy (internal/policy, policies/rego): kernel.go is Policy, whose record Kernel is the interface
--     that the service relies on; embedded.go and remote.go are Policy/Embedded and Policy/Remote, which
--     fill it; response.rego is Policy/Rego; Policy/Agreement puts kernels and policy together.
--   * Audit (internal/audit/audit.go): entries and Recorder.Prepare.
--   * Storage (internal/storage): store.go and memory.go are Storage, each method a step from a state to
--     a state; Storage/Step has histories of calls in the order in which they took the store's lock.
--     Storage/Events, Index, Trail, Valid and Pages have the invariants and what the methods promise.
--   * Api (internal/api/service.go): Api/Target is resolveActionTarget, Api/Evaluate is EvaluateAction
--     with its helpers; Api/Evaluate/Safety and Api/Evaluate/Recorded have its theorems. Api/Ingest is
--     Ingest, over the interfaces of the validator, the bus and the correlator.
--   * Httpx (internal/httpx): Httpx/Principal is principal.go and the request id of middleware.go,
--     Httpx/RateLimiter its rate limiter.
-- Prelude has the shared helpers, Samples the test data, and each Tests module its part's examples.
--
-- Conventions: an int that a request sets may be negative and is a ℤ; counters are naturals (the audit
-- sequence is an int64 in Go and not bounded here); a time is a number of nanoseconds; a pointer that
-- may be nil is an Option; a map is an association list; a float64 is its bit pattern. Generated
-- identifiers, clocks, the texts of package fmt, the Unicode case tables outside ASCII, the policy
-- engine's answer and the policy server's response are parameters, as are float64 arithmetic, YAML and
-- strings.EqualFold. Loops recur on their input. Only the walk of EstimateBlastRadius runs on fuel: one
-- round for each seed and each stored end of an edge, since every round takes one entry off the queue
-- and an entry is a seed or a peer that was not visited before.
--
-- Not modelled: the HTTP handlers and service authentication; PostgreSQL, NATS,
-- reading the environment, the console and the command line programs.
mod Prelude
mod Samples
pub mod Events
pub mod Graph
pub mod Incidents
pub mod Risk
pub mod Correlation
pub mod Policy
pub mod Audit
pub mod Storage
pub mod Httpx
pub mod Config
pub mod Api
