-- ===== src/Lib.antt =====
-- CachePilot keeps the prompt cache of a provider warm while a background task runs. The relay sees
-- each real request, the lease manager decides whether and when to re-send a bounded copy of the last
-- one, the TTL learner estimates how long a cache entry lives, and the economic controller says
-- whether a warm is worth its price. Modelled is packages/core/src/cachepilot_core, the core that the
-- relay and the plugin call, with the reports over its tables; of the relay its configuration, the
-- forwarding and reading of requests, the recording of responses and the sending of a warm; and of the plugin the registry of background targets,
-- the learner of command durations and the promotion of slow commands to the background.
--
-- Files. A source path without folders is below packages/core/src/cachepilot_core.
--   Leases          leases.py: the records; Settings (the environment parsers,
--                   with Environment for LeaseSettings.from_env), Runtime (access to a
--                   lease and its runtime record), Lifecycle (arm, invalidate, complete,
--                   target_started, target_finished), Registry (find_or_create_lease), Requests
--                   (before_normal_request, after_normal_request, refresh_ttl,
--                   update_cost_estimates), Scheduler (next_deadline, economic_gate,
--                   evaluate_lease, _warm_if_due up to the executor), Warm (_warm_if_due from the
--                   executor on, _apply_warm_result, tick) and Calls (the methods as steps).
--                   Proofs: Safety, Priority, Evidence, Breaker, Switch, Identity, History
--                   (over any sequence of calls) and Rounds (over rounds of the scheduler).
--   Ttl             ttl.py: TTLProfile; Store (the queries of storage.py that the learner makes),
--                   Learner (TTLLearner.learn), Resolver (TTLResolver.resolve).
--                   Proofs: Bounds, Learner.Evidence, and in Resolver.
--   Economics       economics.py: EconomicController. Proofs: Gate, Budget.
--   Pricing         pricing.py: estimate_cost, estimate_resume_costs, CostResolver. Proof: Resume.
--   Telemetry       telemetry.py: Outcome, classify_outcome, CacheHealthStats. Proofs: Health.
--   Usage           usage.py: TokenUsage; Normalizer (UsageNormalizer).
--   Identity        identity.py: CacheIdentity, CanonicalRequest.from_content, tools_set_hash;
--                   Fingerprint (fingerprint.py). Proofs: Fingerprint, ToolSet.
--   Adapters        adapters.py: OpenAICompatibleAdapter, with usage_has_cache_telemetry of
--                   telemetry.py. Proofs: Warm.
--   Relay           packages/relay/src/cachepilot_relay: Endpoint and Observation (observation.py up to
--                   extract_history_hash), Routes (its route identities), Recorder with
--                   Churn, Record and Observe (observation.py: RequestObserver), WarmExecutor
--                   (warm_executor.py), Controller with Affinity and Requests (lease_controller.py),
--                   Config (config.py), Proxy with Forward (proxy.py). Proofs: Equivalence,
--                   Recorder.Bodies, Recorder.Transition, Controller.Failure, Proxy.Transparent,
--                   Proxy.Isolation, and in Endpoint, WarmExecutor, Config and Proxy.
--   Storage         storage.py: the event tables and their writes; Queries (the reports over them).
--                   Proof: Counts. The tables of the TTL learner are in Ttl.Store.
--   Topology        topology.py: the report's records and its finish; Snapshots
--                   (topology_from_snapshots), SubLayers (_sub_layer_status), Stored
--                   (topology_from_store). Proofs: Bounds, Attribution, Ordering.
--   Survival        survival.py: estimate_survival, SurvivalCurve. Proofs: Groups, Bounds.
--   Routes          Intel (route_intel.py), Affinity (route_affinity.py). Proofs: RoundTrip, and in both.
--   Snapshots       snapshots.py: SnapshotStore, with how its operations meet.
--   Targets         packages/hermes-plugin/src/cachepilot_hermes/targets.py: the registry of background
--                   targets. Proofs: Counts.
--   Plugin          packages/hermes-plugin/src/cachepilot_hermes: Words and Signature (normalize_signature of
--                   duration_history.py), Durations (its CommandDurationHistory), Hooks (lifecycle.py: the
--                   hooks that change state), Classifier (classifier.py), Middleware (tool_middleware.py
--                   and llm_middleware.py). Proofs: Privacy, Promotion, and in Classifier.
--   Churn           churn.py: Layers (LayeredHashes, RequestContent), Text (offsets and windows), Cause
--                   (classify_hashes), Divergence (classify). Proof: Attribution.
--   Json            JSON values; Access (an object as a dict, the truth of a value).
--   Python          what is taken from the language and its libraries, as a record of functions.
--   Prelude, Dict   shared names, Boolean tests, lists, integers; Python's dict.
--   Numbers         arithmetic as an interface. Laws: what follows from it. Fixed: an instance.
--   The modules named Examples run the theorems on concrete inputs.
--
-- How the parts interact. The lease manager asks the TTL resolver for the TTL of a new lease and on a
-- refresh, the pricing for the costs of a resume, the economic controller at the gate, and the
-- snapshot store for the request to replay. The learner refines the profiles that the resolver reads.
-- The relay makes the canonical request of a body, whose fingerprint names the lease and the snapshot;
-- the executor takes the warm that the adapter builds from the snapshot, posts it, and classifies the
-- answer by the usage that the normalizer reads. The relay's controller makes the calls around a
-- request: it finds the lease, reconciles its targets, stores the snapshot, and at the end refreshes
-- the costs, the route and the TTL, drops a failed request's snapshot and sets or clears a pin.
-- The proxy composes them around the call of the upstream: it starts the lease's request, applies a
-- pin, and after the answer has the recorder observe it and ends the lease's request with the outcome
-- that was observed. The controller reads the store that the recorder writes.
-- The recorder writes what it saw of a response to the event tables, classifies the churn against the
-- session's previous body and feeds the TTL learner; the topology report reads those tables.
-- The plugin's hooks register and release targets and tell the history how long a command took; the
-- classifier reads that history, the tool middleware promotes a command that it finds long and registers
-- its target, and the LLM middleware tells the relay the number of active targets in a header.
--
-- Numbers. float and Decimal round, so the definitions take an arithmetic as an instance argument
-- (Numbers.Arith), one for float and one for Decimal, with the two conversions. Theorems that need
-- laws of an ordered arithmetic take them as a second instance (Numbers.IsOrdered): monotone
-- operations, the sign of a difference, and that a count over itself is at most one. Numbers.Fixed shows the laws for decimals in thousandths that round.
-- Token counts and generations are natural numbers: the usage's validator refuses negative counts.
--
-- State. Python mutates leases and runtime records that the manager's dicts hold; here a method takes
-- the manager and returns it with the changed record put back under its id. A method that raises
-- KeyError gives none. An await is where other calls may come in between: the evaluation stops at the
-- wait for a lock or at the executor, and the rest is a function of its own. Time, new ids, the
-- digests and the executor's answer are arguments. All loops run over lists but one: the rounds of the
-- survival estimate run on fuel, the number of observations, of which each round takes at least one.
--
-- Not modelled: the schema of the database and the table of the leases, HTTP, logs, the relay's server
-- and background task, the plugin's middlewares that pass an execution through and its registration, the
-- command line and the dashboard.
pub mod Prelude
pub mod Numbers
pub mod Dict
pub mod Usage
pub mod Telemetry
pub mod Pricing
pub mod Economics
pub mod Ttl
pub mod Identity
pub mod Json
pub mod Python
pub mod Snapshots
pub mod Leases
pub mod Adapters
pub mod Relay
pub mod Survival
pub mod Routes
pub mod Churn
pub mod Plugin
pub mod Targets
pub mod Storage
pub mod Topology
