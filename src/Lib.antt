-- ===== src/Lib.antt =====
-- A verification library of shortner, a URL shortener: links under short codes, kept in SQLite, with
-- an HTTP API to create, list, update, delete and resolve them and to read their click statistics.
--
-- Parts, and how they interact. A request passes the middleware chain of src/httpserver/middleware.go,
-- which redirects or refuses it or hands it to a handler; a handler of src/httpserver/links.go reads
-- the request, calls package db, and answers; package db runs SQL statements, some in a transaction,
-- and draws codes and tokens from package security; errors are values of packages db and apperr.
--
-- - Shared, with Tests, Lists, Text, Assoc, Decimal, Int and Trim: Boolean tests, lists and byte strings
--   over the native numbers, Go maps as association lists, the decimal texts of strconv, int64, and
--   what strings.TrimSpace and the like do to texts without white space.
-- - Library: what the code calls outside the repository (SHA-256, HMAC, net.ParseIP, url.Parse,
--   path.Clean, time.Parse and others), a record of functions that every definition using them takes
--   as an argument.
-- - Security: src/security. Random is RandomString (Total and Success: when it returns; Uniform:
--   how its characters are distributed), Slug short codes and the rules of custom slugs, Token owner and operator tokens,
--   Anonymize the truncation of IP addresses, SecurityId the ids and tokens of securityid.go and
--   reporttoken.go.
-- - Db: src/db. Rows are the rows of the tables and the structs scanned from them; Exec runs
--   statements, with the errors of HandleQueryError and the transactions of WithTransaction; Links,
--   Clicks, Tokens, Secrets and Scheduler are link.go, click.go, token.go, secret.go and scheduler.go,
--   each modelled function a definition; Secrets.Stable and Scheduler.Balanced are about the last two.
--   Consistent is the invariant of the tables of links, clicks and tokens, Stored is about links that
--   were created, Owner and Revoked about tokens, Deleted about deletion.
-- - AppErr: the error codes of src/apperr and their HTTP statuses; Retry is WithRetry.
-- - Config: src/config. The booleans of bool.go, with Words about their words; Limits the sizes,
--   percentages, ports and address ranges of limits.go, with Sizes about ParseSize; Settings the checked
--   settings and their defaults (config.go, security.go, notifications.go); Validate is Validate, with a
--   child for each group of blocks (Warnings, Server, Mail, Headers), and Valid what its result fulfils
--   and that it keeps what is valid; Overlay the settings of Tor and I2P (overlay.go),
--   Compliance the standards of config.go.
-- - Fqdn: src/fqdn, the host name of the server, with what it asks of the system as a record.
-- - Updater: src/updater and src/scheduler/update.go. The file itself is the releases and Select, Install
--   is DoUpdate with its checksum, Check the task update_check with its state file; Upgrade is about the
--   choice, Verified about what is installed, Announced about what the operator is told.
-- - Scheduler: src/scheduler/scheduler.go over the tables of Db.Scheduler, with the functions of the
--   tasks as values; Tasks are two tasks of tasks.go, Disabled and Idle are about disabled tasks.
-- - Cache: src/cache/cache.go; Contract is what it promises, Refine that it does.
-- - Http: src/httpserver. Request reads a request (negotiate.go, urlvars.go, middleware.go), Response
--   is what a handler answers, Links, Manage and Resolve are the handlers of links.go, Serve runs
--   sequences of requests; RateLimit is ratelimit.go, with Sweep, Step, Bound and Samples
--   under it. Invariant, Authorize, Promise, RoundTrip and Pages are about the handlers. Overlay
--   is the overlay networks of overlay.go, Proxy urlvars.go, IpBlock ipblock.go, Normalize, Csrf and Cors
--   the middlewares of middleware.go and secfetch.go that read a request's path, origin and tokens,
--   and Chain their composition setupMiddleware with the limiter, the blocked addresses and the
--   country rules of src/geoip; each has its theorems in modules under it. `request_of` of Proxy makes
--   the request that the handlers read of the one that the server receives.
-- - Backup: src/backup. Retention is retention.go, with Plan, Incremental and Samples under it.
--
-- How the state corresponds. `Db` holds the tables, the clock in nanoseconds, the random bytes
-- to come, and a schedule of failures: each call of the driver takes the schedule's next entry, so a
-- theorem about every schedule is one about every place where SQLite may fail. SQLite runs statements
-- one at a time; what the requests of concurrent clients do between the statements of one handler is
-- not modelled. A handler is a function from a state to a response and a state.
-- `Server` is what the middleware keeps: the blocked addresses with the flood counts (`Guard`) and the
-- rate limiter. `Memory` of Cache and `BlockStore` are maps, which the code guards by a lock: an
-- operation is one step, at the instant that it reads the clock.
-- `Host` of Updater is the state file, the executable and what was announced; a run of update_check is
-- given the answers of the network and which system calls succeed. `Scheduler` holds the database, the
-- registered tasks, the answers of the job engine gocron, and which functions were called.
--
-- Bounds and fuel. Ids and counters are unbounded numbers, since a table cannot reach 2^63 rows; the
-- offset of a page and the span of a rate limit's window keep int64's wrap-around. `draw` has one unit of fuel for each byte of the random
-- stream and one more, which is enough because each round consumes bytes or stops. The source of random
-- bytes is a finite stream, a prefix of what crypto/rand would deliver: where it ends the model reports
-- a read error, where the code would read on, so that an answer other than this error is the code's. The ten attempts
-- at a short code and the five of WithRetry are the code's own bounds. Settings are signed integers, and
-- sizes keep int64's wrap-around; defer_days is from 0 to 365 after Validate.
--
-- Not modelled: JSON encoding, the texts of messages, log lines and metrics, response headers other
-- than those of CORS, how http.Redirect encodes a destination, white space and letters outside ASCII in what
-- strings.TrimSpace, ToLower and EqualFold do, the form on the home page, which also creates links
-- (frontend.go), request ids, the reading and writing of server.yml, replacing the binary on
-- Windows, opening the database and its schema updates, HTML pages, the command line, and the parts
-- of the repository that are mostly file, network or process I/O.
pub mod Shared
pub mod Library
pub mod Security
pub mod Db
pub mod AppErr
pub mod Http
pub mod Backup
pub mod Cache
pub mod Config
pub mod Fqdn
pub mod Scheduler
pub mod Updater
