-- ===== src/Lib.antt =====
-- vibe-thinker: a swarm of workers that answers reasoning queries over shared coordinators, with a
-- local job queue, a signed audit log and a sandbox. This library models the parts that decide: who
-- gets which job, what survives a crash, what the log proves, what may leave the sandbox, which
-- answers are trusted, and which are remembered.
--
-- The parts and their files:
-- * Federation (federation_server.py). `Federation.State` is `InMemoryFederationState`: a
--   dictionary in the order of insertion, and one function per method under the lock, so an
--   interleaving of coroutines is a list of `Call`s that `run` folds. `Federation.Reputation` is
--   `ReputationStore` with the weights of outcomes, `Federation.Identity` is `_extract_identity`, and
--   `Federation.Server` has the handlers /submit, /claim, /complete and /heartbeat with all their
--   checks, in the order of the code, over a store and a reputation.
-- * JobQueue (rfsn_job_queue.py). `JobQueue.Queue` is the object with its containers; jobs and
--   events are shared objects, so they live on a heap and the containers hold references.
--   `JobQueue.Tasks` cuts `_dispatch_loop` and `_run_job` at their `await`s: a `Move` is what the
--   event loop may run next, and `run` folds any sequence of moves. `JobQueue.Persist` is the
--   persistence file.
-- * AuditLog (bitemporal_log.py and signers.py). `AuditLog.Entry` has entries and lines,
--   `AuditLog.Writer` is `record` and the migration, `AuditLog.Verify` is `verify_chain`, and
--   `AuditLog.Queries` has the reads along an axis of time.
-- * Egress (sandbox/sni_proxy.py). `Egress.Domain` and `Egress.Ports` decide on hosts and ports and
--   build the sets from an allow-list (sandbox/network_allowlist.py), `Egress.Dns` is the auditor
--   with `_resolve_host`, `Egress.Sni` is `extract_sni`, and `Egress.Proxy` is `_handle_connect`:
--   what comes from outside while it runs is a `World`.
-- * Security (web_security.py). `Security.RateLimit` is `_RateLimiter`, and `Security.Middleware`
--   has the key check, the body limit and their configuration.
-- * Cache (persistent_cache.py). `Cache.Entry` has an entry, as a record of optional keys, with
--   `is_cache_entry_trustworthy` and `should_cache`; `Cache.Entries` the eviction and the libraries
--   (`Backend`). `Cache.Results` and `Cache.Insert` are `CLRResultCache`, `Cache.Trajectories` and
--   `Cache.Learning` are `VerifiedTrajectoryStore`, and `Cache.Routes` is `PersistentRouteCache`.
-- * Clr (scoring.py and vibe_clr_async.py). `Clr.Claims` reads claims and boxed answers,
--   `Clr.Confidence` has the policies, `compute_confidence` and `_calculate_reliability`,
--   `Clr.Trajectory` the comparison and scoring of trajectories, `Clr.Run` the verifier and the
--   results, and `Clr.Modes` is `run` with its adaptive and its static mode. A model is the list of
--   what its attempts give, a verifier what its calls answer. A final answer is any JSON value, as
--   in the source; scoring raises on one that is no text.
-- * Client (federated_queue.py). `Client.Urls` has the coordinators of `FederatedJobQueue` and
--   their order, and `Client.Calls` its requests: publishing, a turn of the claim loop over the local
--   queue of JobQueue, and the report of a job with its heartbeats.
-- * Orchestrator (hybrid_orchestrator.py). `Orchestrator.Patterns` has regular expressions,
--   `Orchestrator.Keywords` the tables of the routing, `Orchestrator.TaskTypes` is
--   `_detect_task_type`, and `Orchestrator.Routing` has `route_structured`, `_classify_route`,
--   `_suggest_compute_limits` and `select_verifier`. `Orchestrator.Caching` is
--   `_run_clr_with_cache`, which puts the cache around a run.
-- Text has texts as code points, and Prelude has what they share (tests on numbers and texts,
-- lists, integers, ordered dictionaries), and Json the values that requests carry, with Python's
-- truth test.
--
-- Representation: a clock reading is a number of ticks that the caller passes, and a test on a
-- difference of two readings is written so that no wrap-around or sign is lost. A reputation is a
-- number of tenths, which holds every constant of the module exactly; the source uses floats, whose
-- rounding is not modelled. Texts are compared as Python compares them, by code points. Loops over
-- lists are structural recursion. Only the two loops of `extract_sni` run on fuel, the length of
-- the handshake: each turn goes on by at least 3 bytes. What Fernet, `ipaddress`, the digest of a
-- certificate, SHA-256, HMAC and Ed25519 compute is a parameter. In the caches a score is a number
-- of thousandths, which are only compared; in the CLR run floats are a parameter, `Floats`, with
-- the laws of their order (`IsOrder`) where a theorem needs them. The matches of a pattern in a
-- text are found on fuel, the length of the text, of which each turn takes at least one character.
-- Letters, digits and lower case are those of ASCII in the patterns, where Python's are Unicode's.
--
-- Not modelled: the Redis store, the gossip endpoints of the federation and the sessions of its
-- client, I/O errors of files, the proxy's plain HTTP requests and its copying of bytes, the model
-- calls of the orchestrator and its embedding router (a parameter of the routing), the solvers, the
-- vector store, the clustering of trajectories, and the command lines.
pub mod Prelude
pub mod Text
pub mod Json
pub mod Federation
pub mod JobQueue
pub mod AuditLog
pub mod Egress
pub mod Security
pub mod Client
pub mod Cache
pub mod Clr
pub mod Orchestrator
