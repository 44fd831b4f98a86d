-- ===== src/Lib.antt =====
-- Verification library of ms-gateway-llm, a gateway between clients of the OpenAI and Anthropic APIs
-- and a chain of language-model providers.
--
-- The program. A request is authenticated, its client's allowlist and monthly quota are read, the
-- requested alias is resolved to a chain of providers, and the routing service tries the chain in
-- the order of a strategy, each provider under its circuit breaker. The answer, or the stream of
-- its chunks, is passed on, for Anthropic clients through an adapter, and the tokens are accounted
-- to the alias that served.
--
-- The files:
--   Base, Base/*: shared names; Boolean tests and keys (`===`), lists over native numbers, and
--     JavaScript maps and SQL tables as association lists.
--   Providers: the data of src/providers/provider.model.ts that routing reads. Providers/Registry has
--     the tables of src/database/repositories/provider-registry.repository.ts, Providers/Paths the
--     texts "providerId/modelKey", and Providers/Resolution resolveChain of
--     src/providers/provider.service.ts with its errors. Providers/Aliases has the repository's writes
--     to aliases, weights and strategies, Providers/Writes those to providers and models; each is a
--     transaction, and `none` its exception.
--   Resilience, Resilience/Circuit: src/resilience/circuit-breaker.service.ts. `Breaker` is the
--     service with its two maps; canRequest, recordSuccess, recordFailure, getState and
--     listProviders are functions on it, and `execute` is a start and an end, between which other
--     requests may run. A history of the service is a list of timed events.
--   Routing/Strategy, Routing/Cursor, Routing/Service: src/routing/strategy.ts,
--     round-robin-cursor.ts and routing.service.ts. Each attempt of a request comes with a `Turn`:
--     the times it begins and ends, what other requests do to the breaker meanwhile, and how the
--     provider's call ends.
--   Quota/Calendar, Quota/Repository, Quota/Service: src/quota/quota.service.ts and
--     quota.errors.ts, with the tables of src/database/repositories/quota.repository.ts. The clock
--     is an argument. Quota/Aggregate and Quota/Reconcile are src/quota/quota-reconcile.service.ts
--     with the aggregation of the request log; SQLite's order of the listing is an argument.
--   RequestLog: src/observability/request-log.service.ts, over a table that may refuse a row.
--   Chat/Service: `completions` of src/chat/chat.service.ts, cut at its calls: the allowlist, then the
--     quota gate (`after_gate`), resolveChain (`after_chain`), route (`after_route`) and the accounting
--     (`on_routed`); `on_logged` are the handlers that run when a stream has ended. `Gateway` is the
--     state that they share: allowlist, quotas, breaker, cursor and logs. The start of a request and
--     its gate read the clock one after the other. Chat/Record has
--     recordSuccess, recordFailure and recordFailedAttempts, Chat/Tee teeStream, Chat/Tokens the token
--     counts, Chat/Messages and Chat/Outbound what is sent upstream. Chat/History has histories of
--     requests and of streams that end, in any order.
--   Ratelimit/Limiter: src/ratelimit/redis-rate-limiter.service.ts and rate-limit.guard.ts. Redis is
--     an interface with laws, and each of a request's commands may fail.
--   Access/Repository, Access/Service: src/database/repositories/client-alias-access.repository.ts
--     and src/access/alias-access.service.ts. The orderings by SQLite and `localeCompare` are
--     arguments.
--   Anthropic/Types, Request, Body, Response: src/anthropic/types.ts, and request-adapter.ts (its
--     messages, then the rest of the body) and response-adapter.ts of src/anthropic/adapters/. JSON is a type with
--     functions to and from texts.
--   Anthropic/Stream/Events, Blocks, Adapter: src/anthropic/adapters/stream-adapter.ts. The
--     generator is a function from the chunks to the events. Stream/Grammar is the protocol of the
--     events as an automaton, Stream/Speech a description of the content that is passed on.
--   Auth/Keys, Hashes, Repository, Cache, Service: src/auth/client.service.ts with client.repository.ts,
--     client-auth-cache.ts, api-key-hash.util.ts and seed-default-client.ts. HMAC, SHA-256, JSON and
--     Redis are interfaces; an entry is in the cache as soon as a verification writes it. Auth/Guards
--     is api-key.guard.ts and require-scopes.guard.ts. Requests come one after the other.
--   Admin/Aliases, Views: src/admin/admin-aliases.controller.ts, its handlers that write and what it
--     shows of an alias. An exception of the repository is a 500. Admin/Providers:
--     src/admin/admin-providers.controller.ts, its handlers that write.
--   Migrations/Runner, Arguments, Command: migration-runner.ts and migrate-cli.ts of
--     src/database/migrations/. The effect of a file of SQL, the directory's listing, Node's paths,
--     dotenv and Doppler are arguments; the disk is a function from paths to databases.
-- The other files below these hold the lemmas and theorems, named for what they prove; tests on
-- concrete inputs are in the files whose names end in Tests.
--
-- Numbers are natural numbers: times are milliseconds since 1970, and counters are not bounded (the
-- program's are below 2 ^ 53). A random number is a fraction. A missing key of a map is `none`, an
-- exception is a constructor of the result.
--
-- Fuel: only `find_month` of Quota/Calendar runs on fuel, one unit for each day since 1970; a month
-- takes at least one day, so the fuel suffices for every day. The search for a backup's name,
-- `reserve_from`, makes as many rounds as the program's. All other loops recurse on their list.
--
-- Not modelled: the framework (NestJS, Fastify), SQLite and Redis themselves, the upstream HTTP
-- calls, log lines and the columns that only reports read; the other controllers, search, the seed,
-- the listings of the quota and of the request log, the write of the routing policy, the request
-- parameters that a failure's row has as JSON. A database that fails behind the gates or the
-- counters is not modelled, and the names of aliases and providers are not those of members of
-- JavaScript's Object.prototype. Requests to the rate limiter come one after the other.
pub mod Base
pub mod Providers
pub mod Resilience
pub mod Routing
pub mod Quota
pub mod Access
pub mod Anthropic
pub mod Ratelimit
pub mod Auth
pub mod Migrations
pub mod Chat
pub mod Admin
pub mod RequestLog
