-- ===== src/Lib.antt =====
-- LLM_CACHE: a semantic cache in front of a language model.
--
-- The orchestrator answers a query from the cache when the vector store finds a stored prompt that
-- is near enough, and asks the language model otherwise; a worker puts each new reply into the
-- vector store and the store of entries, and evicts the victims that the eviction policy names
-- while the store holds more than its capacity. The service runs on ports: embedder, vector store,
-- language model, store, queue and policy.
--
-- Common holds what the parts share: Go's maps, strings, ints and floats, sorting, results. A map is
-- an association list whose order stands for the order in which Go's range hands the entries out,
-- a string is the list of its bytes, an int is a bit pattern with its wrap-around, and a float is
-- its bits, with sums and quotients as parameters. Locks serialise the methods, so that a method is
-- a function of the state, and time is an argument.
--
--   Policy         internal/policy: Lru, Lfu and Fifo model lru.go, lfu.go and fifo.go, a function
--                  for each method (OnHit is on_hit), over GoList for container/list; Interface is
--                  EvictionPolicy as a record of functions on a state, with the contract; History
--                  says what a sequence of calls means with no regard to a policy; Manager is
--                  policy.go, whose registry is that of Plugin.
--   Plugin         internal/plugin/registry.go.
--   Persistence    internal/persistence/store.go: Entry and MemoryStore.
--   Orchestrator   internal/orchestrator/service.go: Service is the state and Ports are the
--                  Dependencies, each a function that answers and leaves a new state. Query is
--                  handleQuery, Update is updateCache and enforceCapacity, Rebuild is
--                  NewWithDependencies and rebuildFromStore, Admin is FlushCache and the handlers
--                  of /flush, /stats, /policy and /health, Distance is normalizeDistance, and Memory
--                  puts the store of Persistence behind the ports. Limiter is the rate limiter and
--                  Guard the rest of guard.go, Startup is startup.go.
--   Llm            internal/llm: fallback.go, and the tally of usage.go.
--   Manifest       internal/plugins/manifest/manifest.go: Document is a decoded value and its scan,
--                  Schema the types with applyDefaults and Minimal, Patterns the regular expressions,
--                  Paths checkRelPath, Quantities ParseCPU and ParseBytes, Settings CoerceValue,
--                  ResolveConfig and CheckSecrets; Fields, Declarations and Validation are the parts
--                  of validate, the last one with Effective, and Parsing is Parse.
--   Plugins        internal/plugins: types.go; Registry is registry/memory.go and record.go, Slots is
--                  manager/slots.go with the pointers of dynamic, Switch is execute and commit of
--                  manager/activate.go with the undoing of a switch, and SwitchSlot is switchSlot
--                  whole, with Activate, Deactivate and Rollback; Replay is planPolicy and
--                  rebuildFrom there, Migration planPersistence, and Activation is the guard of
--                  activate with setState of manager/manager.go. Dynamic is dynamic/queue.go: the
--                  queue with its workers, whose steps are a relation. Pipeline is manager/install.go
--                  from the first state of an installation to the last.
--   Examples       the theorems at concrete inputs.
--
-- The loop of enforceCapacity runs on fuel, and Update/Rounds shows how much is enough: each turn
-- that goes on takes an id from the policy. The retries of the rebuild run on the number of ticks
-- that come before the context is done, and those of RetryTransient on the number of calls, which
-- are over once the deadline has passed (Startup/Retried); the loop of Drain runs on the number of
-- its turns, and ends once the window is over (Plugins/Dynamic/Drained). The digits of a number are
-- written with fuel for 20 of them, more than an int64 has. All other loops go through a list.
--
-- Not modelled are the HTTP, Redis and Docker clients, which are ports, the JSON of requests and
-- answers beyond what a handler tells apart, the process logs, and of internal/plugins the requests
-- to install, secrets, the controller and the remote protocol. YAML, and what the standard library
-- computes with floats and durations, are parameters of Manifest; the controller, the contract tests
-- and the adapter under test are parameters of Pipeline.
pub mod Common
pub mod Policy
pub mod Plugin
pub mod Manifest
pub mod Plugins
pub mod Persistence
pub mod Orchestrator
pub mod Llm
pub mod Examples
