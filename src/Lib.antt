-- ===== src/Lib.antt =====
-- Verification of abraxis: an API gateway (prism), an authentication service (aegis) and an
-- authorization library (authz), all in Go.
--
-- The parts that are modelled, and how they meet. The gateway looks a request up in its routing table
-- and calls the backend through a circuit breaker. It asks the authorization agent for a decision;
-- the agent evaluates a prepared policy, keeps its decisions in a cache, and gets new policies through
-- a webhook. Requests of services carry API keys; users have roles within tenants. The
-- authentication service tells the gateways of changes through event buses. The gateway holds each
-- request against its configured rate limits, and knows its backends from a registry of services and
-- from the instances that register with the discovery in memory. A stream brings it the roles of users
-- and the revoked tokens. The authentication service keeps permissions and grants them to roles, and
-- keeps the sessions of users, to whom it gives signed tokens.
--
--   Base      lists, texts as lists of bytes, maps as association lists, Go's words
--   Breaker   prism/internal/features/gateway/adapters/circuitbreaker, memory.go and redis.go, and
--             prism/internal/ports/circuitbreaker.go. Circuit: the state of one circuit and a whole
--             call, `Execute`, of which `enter` is what comes before the wrapped function and `finish`
--             what comes after. Memory: the map of circuits. Slots, Trip, Diagram, Isolation: single
--             calls and sequences of them. Race: the atomic operations on the slots, interleaved.
--             Shared, of redis.go: Store, the keys and the commands; Operations; Call, a whole call, whose
--             commands are those of the context they run under. Logical, what the commands do where they
--             succeed. Commands, Steps, Outcomes, Reads, Finish, Acquire, Attempt, Entry,
--             Refinement, Runs: proofs. Keeps: a Redis for the runs.
--   Routing   prism/internal/features/gateway/routing.go. Pattern: `ParsePattern` and `Match`. Table:
--             every operation of `RoutingTable`. Matching, Order, Updates, Lookup, Services: proofs.
--   Authz     authz. Cache: cache/memory.go, with its proofs in Eviction, CacheReads, Growth and
--             Cleanup. Value and Hash: helper.go, the inputs and the key of the cache. Agent: agent.go,
--             which takes the cache as the interface `DecisionCache`; InMemory is its instance for the
--             cache in memory. Decide, Consult and Answers: proofs. Webhook: webhook.go, with its
--             proofs in Authorization. Middleware: middleware.go and roles/roles.go.
--   Keys      prism/internal/domain/api_key.go. ApiKey: creation, prefix and verification. Params: the
--             parameters of requests. Lookup and Lifecycle: proofs.
--   Roles     prism/internal/domain/roles.go.
--   Events    aegis/internal/grpc/eventbus.go. Bus: the operations, on a heap of channels.
--             Subscribers and Delivery: proofs.
--   Limits    prism/internal/features/ratelimit/service_rate_limit.go. Ring: the buffer of violations.
--             Service and Update: the configurations and their changes. Check: `CheckRateLimit` and the
--             loads. Limiter: ratelimiter.go of the same directory, the limiter in Redis and the
--             middleware. Operations: all that changes the service, in any order, with the updater in the
--             background. Walk, Recent, Creation, Changes, Index, Adapting, Window, Admission, Rates: proofs.
--   Registry  prism/internal/features/discovery/service_registry.go. Service: the operations.
--             Persistence: the goroutines that save, interleaved. Loading: proofs.
--   Discovery prism/internal/features/discovery/adapters/provider/local.go. Local: the instances, on a
--             heap. Watch: the channels of the watchers. Index, Registration, Entries, Sweep, Expiry and
--             Operations: proofs.
--   Permissions aegis/internal/service/service_permission.go. Service: the operations, on a repository.
--             Defaults: `CreateDefaultPermissions`. Answers, Keys, Coherence, Freshness, Creation: proofs.
--   Sessions  aegis/internal/adapters/session/redisSessionManager.go and aegis/internal/domain/session.go.
--             Manager: the operations and the keys. Tokens: jwt.go and jwks.go of
--             aegis/internal/domain. Logins and Requests: auth_manager.go and logout.go of
--             aegis/internal/service, with the users and the providers as interfaces. Names, Lifetime, Cleanup,
--             Trust, Access, Ending: proofs. Keeps and Signing: a Redis and a form of tokens for the runs.
--   Sync      Server: aegis/internal/grpc/sync_auth.go, and the query of its pages. Client:
--             prism/internal/features/gateway/adapters/aegis, auth_sync.go and the backoff of client.go.
--             Pages, Steps, Snapshot, Marker, Revocation, Roles, Backoff: proofs.
--
-- Conventions. A Go string is its list of bytes. An int, int64 or int32 is its bit pattern, a number
-- below 2^64 or 2^32 with the wrap-around written out; where a field is the priority of a route it is
-- an integer. A time is a number of nanoseconds with the zero time at 0, and every operation takes the
-- clock readings that it makes as arguments. An error is a value of a data type of the part. A panic
-- is a value as well. All loops are structural recursion, but for three. That of GetRecentViolations
-- has fuel for one round for each slot of the buffer: in that many rounds it is back where it started.
-- That of SyncAuthData has fuel for its pages, and needs one more than the users fill. That of
-- CleanupExpiredSessions has fuel for the batches of its scan.
--
-- Parameters, for code outside the repository: the policy engine (package rego) and the server of an
-- external engine, SHA-256 and HMAC, signed tokens, hexadecimal, base64 and JSON on bytes, the addresses of package
-- net, the random source and the calendar, the limiter behind the rate limits, the arithmetic of
-- their loads in float64, the commands of Redis, the parsers of URLs and UUIDs.
--
-- Not modelled: locks, except where Race and `touch` take an operation apart at them; metrics and
-- logging; the order in which Go ranges over a map, for which the order of the association list
-- stands; audit events; what is sent to watchers by a goroutine of its own; the limiter in memory,
-- whose buckets are a library; the proxy, which puts the parts together over net/http, with the order of
-- its checks; the stream of policies, which reads files; the other providers of discovery, adapters to
-- clients that are libraries; the schema registry, which works by reflection on descriptors; the services
-- over repositories, which check parameters and pass them on, and the storage
-- adapters; generated protocol code, configuration and the start of the servers.
pub mod Base
pub mod Breaker
pub mod Routing
pub mod Authz
pub mod Keys
pub mod Roles
pub mod Events
pub mod Limits
pub mod Sessions
pub mod Sync
pub mod Permissions
pub mod Registry
pub mod Discovery
