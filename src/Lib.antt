-- ===== src/Lib.antt =====
-- WeaveAuth puts a session cookie in front of Ory Kratos and Ory Hydra. Three services share the work:
-- bff keeps the sessions and proxies the application's calls with an access token, login carries the
-- browser to Kratos and answers Hydra's challenges, and hooks answers what Kratos and Hydra call.
--
-- Shared:
--   Prelude       Boolean tests, keys that can be compared, lists, sorting and Rust's `Result`
--   Maps          HashMap and serde_json's Map, as association lists with one entry for each key
--   Texts         the methods of `str` that the services use, by the characters of a text
--   Json          serde_json's Value
--   Headers       http's HeaderMap, as a list of entries
--   Common        common/src/rate_limit.rs: client_ip and the rate of refilling; in Common/Config,
--                 common/src/config.rs: the profile and the checks of browser-facing URLs
-- bff:
--   Bff/Session      bff/src/model/session.rs: SessionData, ends_at, SessionSelector::matches
--   Bff/Storage      bff/src/storage/in_memory.rs: Sessions and InMemorySessionStorage, each method a
--                    function of the store, since it runs under the store's lock
--   Bff/Jti          the same file's InMemoryJtiStorage
--   Bff/RefreshLock  bff/src/server/refresh_lock.rs: acquire, drop and prune as steps of tasks that
--                    run interleaved
--   Bff/Server       bff/src/server/mod.rs: the shared state, end_session and end_sessions
--   Bff/Hydra        bff/src/hydra/mod.rs: what each answer of Hydra means
--   Bff/Jwks         bff/src/hydra/jwks.rs: keys_for
--   Bff/LogoutToken  bff/src/hydra/logout_token.rs: check_claims
--   Bff/Secrets      bff/src/server/secrets.rs: constant_time_eq
--   Bff/Origin       bff/src/server/origin_check.rs: require_trusted_origin
--   Bff/Redirects    the services of bff/src/server/api/login.rs, logout.rs and logged_out.rs, with
--                    allows_redirect_uri of bff/src/config.rs
--   Bff/Callback     bff/src/server/api/callback.rs: complete
--   Bff/Proxy        bff/src/server/api/proxy.rs: resolve_bearer_token and refresh_session
--   Bff/Gate         the controller of bff/src/server/api/proxy.rs: authenticate, with the paths and
--                    headers that it lets through
--   Bff/Cookies      bff/src/server/cookie.rs and login_cookie.rs, and the names of the cookies
--   Bff/Endpoints    the controllers of login.rs, callback.rs, logout.rs and logged_out.rs in
--                    bff/src/server/api
--   Bff/Config       bff/src/config.rs: Config::load from the merged settings on, and its checks
--   Bff/Backchannel  bff/src/server/api/backchannel_logout.rs: logout
--   Bff/InternalRevoke  bff/src/server/api/internal_revoke.rs: authorize and revoke
-- login:
--   Login/Throttle    login/src/throttle.rs: LoginThrottle
--   Login/Paths, Login/Fields and Login/Proxy    login/src/proxy.rs: the handler `proxy`, its checks
--                     of paths, the reading of a submission and of Kratos' answer
--   Login/Config      login/src/config.rs: Config::load from the merged settings on, and its checks
--   Login/Challenges  login/src/challenges.rs: consent and logout
-- hooks:
--   Hooks/Kratos      hooks/src/clients/kratos.rs: what is read off an identity
--   Hooks/Webhook     hooks/src/webhook.rs: the calls of the deployer's handlers, with notify of
--                     hooks/src/server/api/after_verification.rs
--   Hooks/ProfileApi  hooks/src/profile_api.rs: collect and what it calls
--   Hooks/Registration  hooks/src/server/api/after_registration.rs: register
--   Hooks/Config      hooks/src/config.rs: Config::load from the merged settings on, and its checks
--   Hooks/TokenHook   hooks/src/server/api/token_hook.rs: issue_claims
--   Hooks/Revocation  hooks/src/server/api/revocation.rs: revoke and its steps
--
-- The parts meet where the source's do: a callback saves a session in Bff/Storage and has what that
-- evicts revoked; a proxied request reads and updates it; a logout, by the browser or by Hydra, ends it
-- through Bff/Server; Login/Proxy counts its submissions in Login/Throttle.
--
-- Times are natural numbers of nanoseconds, from the earliest time that chrono has, and the clock's
-- readings are arguments. They do not overflow in the source before the year 262142. Where a handler
-- awaits, what other tasks do meanwhile is a function of the state, any function; calls to Kratos,
-- Hydra and the deployer's handlers are arguments too, with whatever they may answer. Digests, the
-- decoding and the signatures of JWTs, the parsing of URLs, addresses and JSON and the formatting of
-- URLs are libraries' work and so arguments of the definitions. All recursion is structural; the one
-- bounded loop of the source, the 20 rounds of a revocation, keeps its bound, and says so when it runs
-- out. A removal from the store and the request to revoke what it removed are one step: no task reads
-- which tokens were asked to be revoked.
--
-- Not modelled: reading and merging of settings, the pages, routing, listening, HTTP clients, and the
-- Ory configuration.
mod Prelude
pub mod Maps
pub mod Json
pub mod Headers
pub mod Texts
pub mod Bff
pub mod Login
pub mod Common
pub mod Hooks
