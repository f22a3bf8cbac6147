-- ===== src/Lib.antt =====
-- Obsidian Sentinel, a web application firewall: models of the parts that the program adds around
-- the Coraza engine, each with the properties that make it correct.
--
-- The proxy of cmd/obsidian/main.go passes each request through the guards of the allow list and of
-- the rate limiter, and the handlers of its management API stand behind guards for a key, a token
-- and a role. These guards (Gate) call the managers of the keys (ApiKeys) and of the allow list
-- (IpAllow), whose theorems give theirs. The rules and the log (Store), the threat feeds (Threat), the
-- inspection of responses (RespBody), the blocking of countries (GeoIp) and the webhooks (Alerts) each keep a state of their own. The
-- middleware of the firewall (Waf) leads a request through the threats, the engine and the handlers.
--
-- - RateLimit: internal/app/ratelimit/ratelimit.go. The limiter is a record with 256 shards, each a
--   map from an address to a `Visitor`. RateLimit/Endpoint has `getEndpointConfig`,
--   RateLimit/Visitors the lookup, the window and the block of `AllowEndpoint`, and `cleanup`,
--   RateLimit/Api the whole of `AllowEndpoint` and the administrative calls, and RateLimit/Http the
--   middleware. A run of the limiter is a list of `Op`, in the order in which the locks admit them.
--   `cleanup` and the reset of every address take one step here, where the source locks shard by shard.
--   RateLimit/Decided says what `AllowEndpoint` does without a backend.
-- - ApiKeys: internal/app/apikeys/apikeys.go. The manager is a record with the maps of the keys, of
--   the prefixes and of the usage. ApiKeys/Validate has `ValidateKey`, ApiKeys/Manage the
--   creation, the revocation and the deletion, ApiKeys/Header `ExtractKeyFromHeader`.
-- - GraphQl: internal/app/graphql/graphql.go. A query is scanned by pure functions; in
--   GraphQl/Analyze, `analyze_query` and `analyze_batch` compare what they count with the
--   configuration.
-- - Security: internal/app/security/security.go. The manager is the list of trusted networks and
--   the map of trusted addresses; `extract_client_ip` names the client of a request.
-- - IpAllow: internal/app/ipallow/ipallow.go. The manager has a heap of entries that the map and the
--   list of ranges refer to; IpAllow/Api has the operations, IpAllow/Admit what `IsAllowed` admits,
--   IpAllow/Change the additions.
-- - AuthService: internal/app/authservice/service.go. The service is the map of the attempts and that
--   of the locks; AuthService/Lockout has what one call does to a lock, AuthService/Run the runs.
-- - Passwords: `ValidatePassword` of internal/app/auth/password.go and of
--   internal/app/security/security.go, which share the loop that collects the groups.
-- - Gate: the guards of cmd/obsidian/main.go. Gate itself has the role and the token
--   (`rbacMiddleware`, `authMiddleware`, with `VerifyJWT` and `GenerateJWT` of
--   internal/app/auth/password.go), Gate/Keys `apiKeyMiddleware` and `authOrAPIKeyMiddleware`, Gate/Allow
--   `ipAllowlistMiddleware`. Gate/Token says what a token shows, Gate/Routes who passes both guards of
--   a route of administrators.
-- - Store: internal/app/store/store.go. The store is a record with the state that is written to the
--   file. Store/Line and Store/Parse read the lines of a rules file, Store/Load merges the rules,
--   Store/Edit creates, updates and deletes them, Store/Counts keeps the log. Store/Started has the
--   runs from a start, Store/Valid the
--   runs of the store and their invariant, Store/Unique and Store/Find the lemmas on identifiers,
--   Store/Kept what stays, Store/Words and Store/Parsed what the parser guarantees.
-- - Threat: internal/app/threat/threat.go. Threat/Feeds has the refresh, Threat/Listed what it blocks,
--   Threat/Held what stays blocked, Threat/Lost the ranges that are lost or stay.
-- - RespBody: internal/app/respbody/respbody.go. RespBody/Luhn has the check of a card number,
--   RespBody/Inspect the detectors and the decision, RespBody/Blocked which responses are blocked.
-- - Alerts: internal/app/alerts/alerts.go. Alerts/Deliver has the round through the webhooks,
--   Alerts/Run the runs with one sender at a time and Alerts/Bounded their lemmas, Alerts/Sent counts
--   the deliveries and Alerts/Quota compares them with the limits, Alerts/Senders has the interleavings
--   of several senders, Alerts/Posted the filters.
-- - Waf: `wafMiddleware` of cmd/obsidian/main.go, which composes Security, Threat, Store and Alerts.
--   Waf/Flow has the middleware, Waf/Attack and Waf/Attributed the rule that a block is put down to,
--   Waf/Refused which requests are refused and how they are counted.
-- - GeoIp: internal/app/geoip/geoip.go. GeoIp/Country has the embedded ranges, GeoIp/Lookup the lookup
--   with its cache, the decision and the middleware, GeoIp/Decided which addresses are blocked.
-- - Hibp: internal/app/hibp/hibp.go. Hibp/Check has the check and its cache, Hibp/Breached which
--   passwords are refused.
-- - Common: the shared helpers, among them the maps of Go as association lists.
--
-- Conventions. A string is its list of bytes, a time the number of nanoseconds since the epoch.
-- What reads the clock takes the time as an argument. A map keeps the order of its insertions,
-- where Go leaves the order of a loop open. A number that the source keeps in `int` is a natural
-- number, except the count of visitors, which is an integer. There is no fuel: every loop is a
-- recursion on a list.
--
-- Parameters. `hash` is FNV-1a in RateLimit and SHA-256 in hexadecimal in ApiKeys. `Backend` is the
-- Redis limiter, `KeyStore` the store of the keys: their operations are arguments.
-- `Decoder` is encoding/json in GraphQl, `NetLib` the addresses and networks of net in
-- Security, and `IpLib` the same with `AllowlistStore`, the store of the entries, in IpAllow.
-- `Users` is the database of users with bcrypt in AuthService.
-- `sha1_hex` is SHA-1 and `atoi` strconv.Atoi in Hibp, where what the service answers is an argument.
-- `GeoLib` is package net in GeoIp, where what ip-api.com answers is an argument.
-- `Engine` is a transaction of the Coraza engine in Waf.
-- `JwtLib` is the HMAC, base64, JSON and fmt of a token in Gate, `Files` the files with strconv and fmt in
-- Store, `RegexLib` package regexp in RespBody. What a feed answers in Threat and whether a webhook
-- receives an alert in Alerts are functions that the calls take.
--
-- Not modelled: the Coraza engine (a copy of another project's library), the JSON handlers, the
-- databases, the caches, the reports and the loggers, which call other packages or do input and
-- output, and the goroutines: a usage that ApiKeys writes to the store in the background is written
-- at once.
pub mod Common
pub mod RateLimit
pub mod ApiKeys
pub mod IpAllow
pub mod Security
pub mod GraphQl
pub mod AuthService
pub mod Passwords
pub mod Gate
pub mod Store
pub mod Threat
pub mod RespBody
pub mod Alerts
pub mod Waf
pub mod GeoIp
pub mod Hibp
