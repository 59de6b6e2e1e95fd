-- ===== src/Lib.antt =====
-- A model of the Checkmarx One SDK for Go, and theorems about it.
--
-- The SDK sends every HTTP request through one funnel, `Executor.Do`, which asks the token cache
-- for a token, runs the interceptors, sends, refreshes the token after a 401, and leaves the
-- repeating to `retry.Do`. DoJSON, DoText, DoStream and the GraphQL Execute wrap the funnel, and
-- the endpoints call them. The item iterator calls an endpoint for each page; the cached readers,
-- the get-or-create helpers, the report builder, and the invoker, waiter and comparison of scans
-- call endpoints, and so do the waiters for requests of audit sessions and for imports.
--
-- Which file models which part:
--   Errors       cxerrors/errors.go: the values of Go's `error`, with errors.Is and errors.As
--   Context      the interface of context.Context, and the sleep of internal/retry/retry.go
--   Retry        internal/retry/retry.go: `run` is Do, `next_delay` nextDelay, `is_transient`
--                IsTransientNetworkError; Rule is the rule by which facts about Do are proved
--   Auth         auth/token_cache.go: `token`, `refresh` and `close`; Threads has the goroutines
--                under the mutex as a step relation; auth/fetch.go, oauth.go, apikey.go, auth.go:
--                `post_form` is postForm
--   Transport    internal/transport/executor.go, interceptor.go, headers.go: `do_request` is Do,
--                `attempt_once` the closure that Do hands to retry.Do, `send_once` sendOnce;
--                Json, Stream and Graphql have jsonexec.go, streamexec.go and graphql.go beside
--                it: `do_json`, `do_stream`, `do_text`, `execute`, over any funnel that keeps the
--                contract of Do
--   Endpoints    internal/endpoints: users, groups, clients, roles, presets, projects,
--                applications, reports, scans, uploads, audit and migration, one function for each
--                of theirs but the iterators; Url has JoinURL of jsonexec.go,
--                Filters the buildQuery functions, Location the id that createAndExtractID reads
--                from a Location header
--   Pagination   pagination/iterator.go, graphql_iterator.go: `next`, `fetch_next_page`, `collect`,
--                `graphql_fetch`
--   GetOrCreate  workflows/users/helpers.go, groups/helpers.go, clients/helpers.go and
--                projects/helpers.go; AppId is ASTAppIDCache
--   Readers      workflows/users/reader.go, roles/reader.go, presets/reader.go and
--                projects/repo_config.go; `index` is the loop that fills an index
--   Reports      workflows/reports/reports.go: the builder; Wait has Wait and WaitAndDownload
--   Audit        workflows/audit/inspector.go and waiter.go: `wait_for_request`
--   Migration    workflows/migration/inspector.go and waiter.go: `wait_for_import`
--   Scans        workflows/scans/inspector.go, waiter.go, compare.go, invoker.go:
--                `partial_bucket`, `wait_until_complete`, `diff_results`, `group_not_exploitable`,
--                `start`
--   Waiting      the deadline and the sleep, which workflows/scans/waiter.go, reports/reports.go,
--                audit/waiter.go and migration/waiter.go have each in the same words
--   Region       region.go: `validate` and `with_scheme`
--   Prelude      numbers, texts, lists and maps that the others share
--   Scripted     small worlds for the examples
--
-- How the code is read. A function that has effects takes the state of the world and returns the
-- next one. What the code calls and does not implement is a field of a record over that world
-- (Context, Env, JsonService, Funnel, Codec, TokenService, Service, WaitService) or an argument:
-- the network, the clock, the random source, the authenticator of the funnel, the fetcher of
-- pages, encoding/json with one codec for each pair of types, the part of net/url that prints a
-- query, the plain PUT of an upload, io.Copy, the redaction of texts and URLs. The funnel also
-- keeps a trace of what it does that can be seen from outside; its entries have texts for fields,
-- and no log level. Go's `int` and durations are integers; where the code adds to an offset, a
-- count of attempts or a deadline, the sum wraps at 64 bits. Counters that count elements of
-- slices in memory are numbers without a bound. Maps are lists of pairs in the order of the first
-- insertion; the theorems do not rest on that order, except that the variables of a GraphQL query
-- are a map, so have no name twice. A pointer that may be nil is an option; a pointer into the
-- slice of a reader is a place in it. An error of the standard library has at most one cause.
-- `strings.ToLower` is that of ASCII.
--
-- Loops. The loops of Do and of fetchNextPage are recursion on the attempts that are left. Collect,
-- fetchAllUsers, the two WaitUntilComplete, WaitForRequest and the Wait of a report have no bound
-- of their own, so they run on fuel, one unit for each round, and the theorems about them give the fuel that is enough.
--
-- What is not modelled: the redaction, the client's builder, the endpoints and workflows that are
-- not named above (such as the reader of results), the facade in advanced/; of the parts above, the
-- locks of the readers, whose callers follow one another here, LoadAllDetails of the presets, the
-- URLs of a region, the range-over-func form of the iterator, the concurrent fetches of a
-- comparison, the tests for nil receivers, and an interceptor that replaces the header of a request
-- instead of changing it in place, or that changes it on the response side.
pub mod Prelude
pub mod Endpoints
pub mod Errors
pub mod Context
pub mod Waiting
pub mod GetOrCreate
pub mod Readers
pub mod Reports
pub mod Audit
pub mod Migration
pub mod Scripted
pub mod Retry
pub mod Auth
pub mod Transport
pub mod Pagination
pub mod Scans
pub mod Region
