-- ===== src/Lib.antt =====
-- The Go back end of Seagles, a scanner and monitor for IoT networks: the parts that decide who is
-- let in, how often, for how long, and what is reported.
--
-- A request passes the CSRF check, a rate limiter, the sanitising of its body and the check of its
-- access token before a handler of package auth works on the tables of users and refresh tokens;
-- what a logout revokes is kept in a blacklist. A scan asks the safelist, hands the address to
-- nmap, probes the open ports and tries credentials; its findings become vulnerabilities, alerts
-- and a risk score, and alerts are delivered to webhooks. Firmware files are validated, stored and
-- sent to an analyzer. A circuit breaker stands before dependencies that fail, a hub serves the
-- WebSocket clients, and migrations bring the database up to date at the start.
--
-- Which file models what, with functions in the spelling of this library (`validateRefreshToken` is
-- `validate_refresh_token`):
--   Breaker     backend/breaker/breaker.go; an undisturbed call of `Execute` is `enter`, the call of
--               `fn`, `leave`; Atomic has its single operations, Alone connects the two
--   RateLimit   backend/middleware/ratelimit.go
--   Csrf        backend/middleware/csrf.go
--   Cache       backend/cache/cache.go
--   Blacklist   backend/cache/blacklist.go
--   Auth        backend/auth: Tokens (tokens.go), and of auth.go Roles, Middleware, Sessions (the
--               statements on the database) and Handlers (login, refresh, logout, password change)
--   Risk        backend/risk/scorer.go
--   Alerts      backend/alerts/engine.go and `AckAlertHandler` of backend/api/alerts.go; Overlap has
--               calls of `CreateAlert` at the same time, Webhooks is backend/alerts/webhooks.go
--   Scanner     backend/scanner: Validate (`sanitizeCIDR` and `sanitizeIP` of nmap.go), Nmap (the
--               rest of it), Protocols (protocols.go), Tls (tls.go), Credentials (credentials.go)
--   Scans       backend/api/scans.go: what a scan reports; Device is `runDeviceScan`, with
--               `UpdateDeviceRiskScore` at its end, Network the handlers that start scans
--   Safelists   backend/api/safelists.go, the entries and `IsSafelisted`
--   Sanitize    backend/middleware/sanitize.go, `SanitizeInput` over decoded JSON
--   Firmware    `ValidateFirmwareFile` of the same file; Upload and Analysis are
--               backend/api/firmware.go
--   Hub         backend/api/ws.go
--   Kev         backend/kev/updater.go, the catalog of known exploited vulnerabilities
--   Epss        backend/kev/epss.go, the scores of the open vulnerabilities
--   Router      backend/api/router.go, the middlewares up to the handler of a protected route, with
--               `RateLimitMiddleware` of backend/middleware/ratelimit.go
--   Database    backend/db/db.go: the pool, the health monitor and the directory of migrations;
--               Migrations has the migrations themselves
-- Common, Clock, Dict and Text hold what these share: Boolean tests, integers, lists, Go's times,
-- maps and strings. Tests has concrete inputs.
--
-- State is passed explicitly, and an error is a value. The clock, random identifiers, failures of
-- statements on the database and the answers of devices and of the network are arguments. Code
-- that is not in the repository is an argument with its documented laws: RSA, SHA-256, base64 and
-- JSON (`Codec`, `IsCodec`), bcrypt (`Passwords`), `net.ParseIP`, `http.NewRequest`, the process
-- nmap, crypto/tls, the object store and PostgreSQL's test whether an address lies in a network.
-- Two components have no lock around an operation, and their concurrent calls are a step relation:
-- those of the breaker over its single atomic operations, those of `CreateAlert` over its two
-- statements. The rate limiter, the CSRF store, the cache, the blacklist and the hub hold a mutex
-- through each operation, so that sequences of operations are all there is. The handlers of
-- package auth, a scan, a delivery to a webhook, an upload, the EPSS update and a run of the
-- migrations are sequences of statements that are modelled without other writers of the database
-- in between; what such a writer could do to them is left out. An `int32` counter of the breaker
-- is its bit pattern, with `% 2 ^ 32` written out; the other numbers are counts and times that
-- stay far from the bounds of an `int64`. All loops are structural, over lists or, for the three
-- attempts at a webhook, over the attempts that are left; only the batches of EPSS ids have fuel,
-- the number of the ids, and each batch takes at least one of them.
--
-- A Go map is a list of entries with distinct keys (`IsMap`), which the theorems assume of the
-- state they start from.
--
-- Not modelled: the API handlers other than those named, the audit, health and metrics
-- middlewares, the port and passive scanners, retention, logging, configuration and main, and
-- everything that is not Go. They are mostly input and output.
pub mod Common
pub mod Clock
pub mod Dict
pub mod Breaker
pub mod Text
pub mod RateLimit
pub mod Cache
pub mod Blacklist
pub mod Auth
pub mod Csrf
pub mod Risk
pub mod Database
pub mod Migrations
pub mod Hub
pub mod Kev
pub mod Safelists
pub mod Scans
pub mod Router
pub mod Sanitize
pub mod Epss
pub mod Firmware
pub mod Alerts
pub mod Scanner
pub mod Tests
