-- ===== src/Bff/Proxy.antt =====
-- bff/src/server/api/proxy.rs, `service`: the access token that a proxied request goes on with. The
-- request waits twice, for its turn and for Hydra's answer; other tasks run meanwhile and change the
-- state in ways that are a parameter, and the clock's readings are numbered in the order taken.
pub mod Refresh
pub mod Lost
mod Tests
use weave_auth.Prelude.{
  ℕ, ◌+◌, String, Bool, Option, none, some, leb, ltb, if◌then◌else◌, Result, ok, err, map_ok,
}
use weave_auth.Bff.Session.{Time, seconds, SessionData, ends_at}
use weave_auth.Bff.Storage.{
  get_session, update_session, take_session, Updated, updated, session_gone, Sessions,
}
use weave_auth.Bff.Hydra.{HydraError, rejected, TokenSet, Answer, token_request}
use weave_auth.Bff.Server.{AppState, revoke_token}

pub data ProxyServiceError : Type 0 where
  unauthenticated : ProxyServiceError
  refresh_refused : (status : ℕ) → ProxyServiceError
  refresh_unavailable : HydraError → ProxyServiceError

pub record Surroundings : Type 0 where
  pub clock : ℕ → Time
  pub while_waiting : AppState → AppState
  pub while_refreshing : AppState → AppState
  -- Hydra's answer to a refresh token.
  pub refreshed : String → Option Answer
  pub refresh_ttl : Time

abbrev access_token_refresh_leeway : Time
access_token_refresh_leeway = seconds 5

unfoldable pub is_fresh : SessionData → Time → Bool
is_fresh d now = ltb (now + access_token_refresh_leeway) d.expires_at

-- Without a rotated refresh token the old one lives on, with its old expiry.
unfoldable pub refreshed_session : Surroundings → SessionData → TokenSet → SessionData
refreshed_session w d t = record d {
  access_token = t.access_token;
  refresh_token = elim t.refresh_token [ none ↦ d.refresh_token | some rotated ↦ rotated ];
  expires_at = w.clock 4 + t.expires_in;
  refresh_expires_at = elim t.refresh_token [
    | none ↦ d.refresh_expires_at
    | some rotated ↦ w.clock 3 + w.refresh_ttl
  ];
}

-- The session was ended while the refresh was in flight: its new tokens must not outlive that.
unfoldable pub stored :
    AppState → SessionData → Updated → AppState × Result ProxyServiceError SessionData
stored s d updated = (s, ok d)
stored s d session_gone = (revoke_token s d.refresh_token, err unauthenticated)

unfoldable pub store_refreshed :
    AppState → String → SessionData → AppState × Result ProxyServiceError SessionData
store_refreshed s id d =
    let (sessions, answer) = update_session s.sessions id d in
    stored (record s { sessions = sessions }) d answer

unfoldable pub after_answer :
    Surroundings
    → AppState
    → String
    → SessionData
    → Result HydraError TokenSet
    → AppState × Result ProxyServiceError SessionData
after_answer w s id d (err (rejected status)) =
    (record s { sessions = (take_session s.sessions id).0 }, err (refresh_refused status))
after_answer w s id d (err e) = (s, err (refresh_unavailable e))
after_answer w s id d (ok t) = store_refreshed s id (refreshed_session w d t)

unfoldable pub refresh_session :
    Surroundings → AppState → String → SessionData → AppState × Result ProxyServiceError SessionData
refresh_session w s id d =
    after_answer w (w.while_refreshing s) id d (token_request (w.refreshed d.refresh_token))

-- With the turn taken: whoever held it before may have refreshed already, or ended the session.
unfoldable pub with_turn :
    Surroundings
    → AppState
    → String
    → Option SessionData
    → AppState × Result ProxyServiceError String
with_turn w s id none = (s, err unauthenticated)
with_turn w s id (some d) =
    if is_fresh d (w.clock 2)
    then (s, ok d.access_token)
    else (let (s', r) = refresh_session w s id d in (s', map_ok (λ fresh. fresh.access_token) r))

unfoldable pub resolve_found :
    Surroundings
    → AppState
    → String
    → Option SessionData
    → AppState × Result ProxyServiceError String
resolve_found w s id none = (s, err unauthenticated)
resolve_found w s id (some d) =
    if leb (ends_at d) (w.clock 0)
    then (s, err unauthenticated)
    else if is_fresh d (w.clock 1)
    then (s, ok d.access_token)
    else (let s' = w.while_waiting s in with_turn w s' id (get_session s'.sessions id))

unfoldable pub resolve_bearer_token :
    Surroundings → AppState → String → AppState × Result ProxyServiceError String
resolve_bearer_token w s id = resolve_found w s id (get_session s.sessions id)
