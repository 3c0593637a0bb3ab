-- ===== src/Lib.antt =====
-- The pack service: an HTTP service that says which packs an order is shipped in.
--
-- The parts. A pack calculator finds, for a number of ordered items, the packs that ship enough
-- items, the fewest items first and then the fewest packs (internal/service/pack_calculator.go). It
-- keeps results in an LRU cache whose entries expire (internal/service/cache.go), behind the
-- interface of internal/service/cache/cache_interface.go. The endpoint (internal/http/handler.go)
-- chooses the sizes and asks the calculator. Requests pass the check of a token or of an API key
-- (internal/middleware/jwt.go, internal/middleware/auth.go), a rate limiter
-- (internal/middleware/rate_limit.go), the authorization (internal/middleware/authorization.go) and the
-- idempotency middleware (internal/middleware/idempotency.go), in chains that the routes put together
-- (internal/http/routes_auth.go, internal/http/routes_packs.go); calls of the database pass a circuit
-- breaker (internal/circuitbreaker/circuitbreaker.go). Users log in and out at
-- internal/http/auth_handler.go, over internal/service/auth.go and internal/service/token_service.go.
-- Log entries pass a bounded channel (internal/middleware/async_logger.go).
--
-- The files.
-- - Base and its children: numbers, integers of the machine, lists, maps, and the three ways in
--   which a loop of the source ends: it returns, it panics, or the fuel of the model is used up.
-- - Packs: internal/domain/model/pack.go and internal/service/pack_calculator.go. Table has the
--   pooled arrays (getDPState, putDPState) and the loops of calculateCore, Breakdown has
--   smallOrderWithSizes and buildResultWithSizes, and Calculator has calculateCore, the options,
--   and the methods of PackCalculatorService. Selection says what the best result is. Relax, Fill,
--   Minimum, Counting, Pool, Optimal and Sorting prove it of the loops, one after the other, and
--   Service of the methods, for any cache that obeys CacheLaws.
-- - TtlCache: ttlCache of internal/service/cache.go, with its pointers in a heap. Links, Pointers
--   and Front treat the doubly linked list, Invariant the map beside it, Lru has the specification,
--   a list of entries, and Represents, Storing, Refinement and Expiry relate the two. Runs,
--   Retrieval and Client draw the consequences for sequences of calls, for what is read back, and
--   for the calculator. Sharded is ShardedCache of the same file.
-- - Breaker: internal/circuitbreaker/circuitbreaker.go, with Execute as two critical sections.
--   Sequences runs calls one after the other, Interleaving lets them overlap.
-- - RateLimit: internal/middleware/rate_limit.go. Visits treats one check, Cleanup the removal of
--   old visitors, and Budget sequences of requests and cleanups.
-- - Handler: internal/http/handler.go, with GetActive of internal/service/pack_sizes.go and the
--   request of internal/domain/dto/request.go: the endpoint that calculates packs and its cache of
--   the sizes that the database holds. Offers says with which packs a request
--   is to be answered, and Answers what it answers.
-- - PackSizes: internal/repository/pack_sizes.go, the wrapper of
--   internal/repository/circuitbreaker_wrapper.go that is about pack sizes,
--   internal/service/pack_sizes.go and internal/http/pack_sizes_handler.go. Laws says what the
--   driver of the database promises, and Memory is a driver that obeys it. Active counts the active
--   configurations, Fresh, Guard and ReadBack are about an update that is read back, and Degraded
--   about orders while the circuit breaker is open.
-- - AsyncLogger: internal/middleware/async_logger.go, the bounded channel of log entries and its
--   workers, as steps that interleave. Totals has sums over lists, Invariant what holds of every
--   world, Workers and Steps prove it, Shutdown and Ends are about Stop.
-- - Authorization: internal/middleware/authorization.go. Grants treats its loops, and Decisions
--   what it decides.
-- - Idempotency: internal/middleware/idempotency.go and internal/middleware/idempotency_cache.go.
--   Replay is about a request that is sent again.
-- - Tokens: internal/service/token_service.go, the tokens of a user. Actions takes sequences of
--   calls of the database apart.
-- - Auth: internal/service/auth.go, login, registration, refresh and logout. Sessions says who
--   gets tokens, and how often a refresh token may be used. Memory is a database for the tests.
-- - Startup: config/config.go, and internal/app/services.go and initializeDefaultPackSizes of
--   internal/app/database.go: the configuration of the environment and the calculator that is made
--   of it. Sizes treats the list of sizes, Ready the calculator.
-- - Text: what the source uses of Go's packages strings and strconv, on texts as lists of code
--   points. Pieces is about splitting and joining, Parts and Trimming
--   about what is split and trimmed, Decimal about numbers that are printed and read.
-- - ApiKeys: internal/middleware/auth.go. Accepted says which requests pass, by the variable
--   API_KEYS.
-- - AuthHandler: internal/http/auth_handler.go, the checks of internal/domain/dto/auth.go, and
--   JWTAuth of internal/middleware/jwt.go. Logins is about the endpoint Login, and Logouts, Revoked
--   and Visits about a token that was logged out.
-- - Routes: internal/http/routes_auth.go, internal/http/routes_packs.go and
--   internal/service/permission.go: the chain of middlewares of a protected route. Protected says
--   how a request to one ends, and Permissions what a token must hold.
-- - Replies: internal/http/request_builder.go and internal/domain/dto/response.go, the bodies of
--   responses and their pools. Bodies says what is sent.
-- - I18n: internal/i18n/i18n.go and internal/i18n/keys.go. Locales treats the language of a
--   request.
-- - Orders: the calculator with the LRU cache, at concrete orders.
-- Each part has its tests, and its theorems at concrete inputs, in a module Examples or in Orders.
--
-- Numbers. An int of the source is ℤ where it can be negative, and its sums wrap around at 64 bits
-- where an index depends on them (Base.Machine); counters of calls are unbounded. Times are
-- nanoseconds on the monotonic clock, read by the caller.
--
-- Fuel. The loop of calculateCore over i and the loop over the candidates from the target on run on
-- the number of cells that are left, and the backtracking on the number of items. Each round of the
-- loops over the table takes one cell, and each round of the backtracking takes off a positive size,
-- so the fuel is enough: a run out of fuel is not a way to return. All other loops are structural.
--
-- Not modelled: log lines, metrics, tracing, the JSON that bodies are encoded as, the headers that
-- no decision depends on, and the parts around the core: the bodies of the repositories but that of
-- pack sizes, the routes that nothing protects, and the wiring of start-up. What is third-party, or
-- comes from the database, is a parameter: the driver of the collection of pack sizes, the parser of
-- object ids, the role service, the value that the JSON binding gives, time.ParseDuration,
-- unicode.ToLower above ASCII, SHA-256, the JWT library, bcrypt, and the repositories of users, roles,
-- permissions and tokens. The pool of states is a value that a call takes and gives back, with any
-- contents that the calculator itself may have left there.
pub mod Base
pub mod Packs
pub mod Breaker
pub mod RateLimit
pub mod TtlCache
pub mod I18n
pub mod Replies
pub mod Handler
pub mod Authorization
pub mod Idempotency
pub mod Tokens
pub mod Auth
pub mod ApiKeys
pub mod AuthHandler
pub mod Routes
pub mod Orders
pub mod PackSizes
pub mod Text
pub mod Startup
pub mod AsyncLogger
