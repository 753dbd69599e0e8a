-- ===== src/Lib.antt =====
-- Verification library for ESI.ts, a client of EVE Online's ESI API.
--
-- The program is a pipeline around one HTTP request. A call of an endpoint is deduplicated, looked
-- up in the ETag cache, checked against the circuit breaker and held back by the rate limiter; the
-- request is then sent under a retry strategy, its response updates the limiter, the breaker and
-- the cache, and a response of several pages is walked to its end. Beside it, a manager keeps one
-- valid token for each character. The library models the parts of src/core and src/auth that keep
-- state or decide, each as a record with one function for each operation:
--
--   CircuitBreaker     circuitBreaker/CircuitBreaker.ts: the states of each endpoint
--   Cache.Etag         cache/ETagCacheManager.ts: lookup, storing, eviction, invalidation
--   Cache.Shared       cache/CacheStoreCache.ts: a cache over a store that processes share
--   Cache.WriteLog     cache/writeLog.ts: the writes that overtake a read in flight
--   CacheKey           cache/cacheKey.ts: keys that separate identities and settings
--   Errors             util/error.ts: what is thrown, and what may be retried
--   Retry              RetryStrategy.ts, util/retry.ts: the loop of calls, delays and refreshes
--   Dedup              RequestDeduplicator.ts: requests in flight that are shared
--   Pagination         pagination/pageLimit.ts, incompleteWalk.ts: the limit and the two modes
--   Pagination.Offset  pagination/PaginationHandler.ts: the walk over pages 2 to N
--   Pagination.Cursor  pagination/CursorPaginationHandler.ts: the walk along cursors
--   Pagination.Waves   pagination/AsyncPaginationIterator.ts: pages fetched in waves
--   RateLimiter        rateLimiter/RateLimiter.ts: buckets, the error limit and the waits
--   Batch              BatchRequestHandler.ts: chunks, and a pool of pending promises
--   Concurrency        util/concurrency.ts: a pool of workers with results in input order
--   Pipeline           requestPipeline, ApiRequestHandler.ts: the client, the call and the answer
--   Pipeline.Headers   util/headersUtil.ts, requestPipeline/headers.ts: headers and lifetimes
--   Pipeline.CachePolicy     requestPipeline/cachePolicy.ts: serving, storing, invalidating
--   Pipeline.Status    requestPipeline/statusHandling.ts: 201, 204, 304 and failures
--   Pipeline.Middleware      middleware/Middleware.ts: the interceptors and withheld headers
--   Pipeline.RequestHeaders  requestPipeline/headers.ts: `buildRequestHeaders`
--   Pipeline.Fetch     requestPipeline/fetchExecution.ts: one fetch under breaker and limiter
--   Pipeline.Request   `executeRequest` with paginationOrchestration.ts and middlewareBridge.ts
--   Pipeline.Handle    `handleRequest`: cache, deduplication and retries
--   Tokens             src/auth/EsiTokenManager.ts: the records of the tokens
--   Tokens.Refresh     src/auth/EsiTokenManager.ts: refreshes, and the writes that overtake them
--   Tokens.RefreshAll  src/auth/EsiTokenManager.ts: `refreshAll` over the pool of workers
--   Endpoints          endpoints/buildEndpointPath.ts, util/validation.ts: paths from arguments
--   Prelude            what they share: maps, lists, text and tests on numbers
--   Tests              the theorems at concrete inputs
--
-- A function keeps the name of its source in snake case: `check_circuit` is `checkCircuit`. An
-- operation that changes an object returns the changed record. Times are milliseconds on the
-- native natural numbers; an operation that reads the clock is given `now`, and one that waits is
-- given what the clock reads after each wait. What other requests change while one waits is a
-- function on the client (`Flight`, `Trip`) or on the token manager. What the pipeline takes from
-- elsewhere (`Given`) is the identity that a header names, its hash, the generated table of
-- lifetimes, and how the limiter reads headers. Promises that settle in any order are lists of
-- events. A `Map` is its entries in the order of insertion.
--
-- Loops run on fuel where they are not structural: `execute` on `maxRetries + 2` rounds, the cursor
-- walk on three rounds for each page up to the limit and one more, the waves of `fetchAllPages` on
-- one round for each page and one more, and the chunks of `batchPost` on one round for each id and
-- one more. Each round uses up an attempt, the refresh, a page, a failure in a row or an id. Two
-- rounds are enough for `execute_request`, since only a conditional request is repeated, and the
-- repetition is not conditional.
--
-- Not modelled: the transport and its timeouts, log lines, the parsing of JSON and the texts of
-- errors, `handleSinglePageRequest` and the preparation of a token before a request, the identity
-- that a token names and its hash, the floating-point rounding of delays, timers (only what they
-- call), base URLs, the login server and its tokens, the tables of endpoints, the clients of the
-- endpoints and the builders, which only pass options on.
mod Prelude
pub mod Endpoints
pub mod CircuitBreaker
pub mod Cache
pub mod Errors
pub mod Retry
pub mod Dedup
pub mod CacheKey
pub mod Pagination
pub mod RateLimiter
pub mod Batch
pub mod Concurrency
pub mod Pipeline
pub mod Tokens
pub mod Tests
