-- ===== src/Bff/Backchannel.antt =====
-- bff/src/server/api/backchannel_logout.rs: Hydra telling bff that a user logged out. The checks that
-- come before the claims', of the signature and of the header, end in `authentic`. What other tasks do
-- between the two calls on the stores is `meanwhile`.
pub mod Once
mod Tests
use weave_auth.Prelude.{ℕ, Result, ok, err, ◌>>=◌, map_err}
use weave_auth.Json.{Json}
use weave_auth.Bff.Session.{Time}
use weave_auth.Bff.Jti.{Used, Recorded, recorded, jti_replayed, record_jti}
use weave_auth.Bff.Jwks.{JwksError, unknown_key}
use weave_auth.Bff.LogoutToken.{LogoutTokenError, keys_error, LogoutClaims, Readers, check_claims}
use weave_auth.Bff.Server.{AppState, end_sessions}

pub data BackchannelServiceError : Type 0 where
  invalid : LogoutTokenError → BackchannelServiceError
  replayed : BackchannelServiceError
  keys_unavailable : JwksError → BackchannelServiceError

-- A `kid` that Hydra does not publish is the token's fault; keys that could not be had are not.
unfoldable pub as_service_error : LogoutTokenError → BackchannelServiceError
as_service_error (keys_error (unknown_key kid)) = invalid (keys_error (unknown_key kid))
as_service_error (keys_error e) = keys_unavailable e
as_service_error e = invalid e

unfoldable pub verify_logout_token :
    Readers → Result LogoutTokenError Json → Time → Result LogoutTokenError LogoutClaims
verify_logout_token r authentic now = authentic >>= λ claims. check_claims r claims now

unfoldable pub logout_recorded :
    (AppState → AppState)
    → AppState
    → LogoutClaims
    → Used
    → Recorded
    → AppState × Result BackchannelServiceError (Unit {0})
logout_recorded meanwhile s c used jti_replayed = (record s { logout_jtis = used }, err replayed)
logout_recorded meanwhile s c used recorded =
    (end_sessions (meanwhile (record s { logout_jtis = used })) c.target, ok tt)

unfoldable pub logout_verified :
    (AppState → AppState)
    → AppState
    → Result BackchannelServiceError LogoutClaims
    → Time
    → AppState × Result BackchannelServiceError (Unit {0})
logout_verified meanwhile s (err e) now = (s, err e)
logout_verified meanwhile s (ok c) now =
    let (used, answer) = record_jti s.logout_jtis c.jti c.replay_until now in
    logout_recorded meanwhile s c used answer

-- The clock is read when the claims are checked, and again when the `jti` is recorded.
unfoldable pub logout :
    Readers
    → (AppState → AppState)
    → AppState
    → Result LogoutTokenError Json
    → Time
    → Time
    → AppState × Result BackchannelServiceError (Unit {0})
logout r meanwhile s authentic checked_at recorded_at =
    logout_verified meanwhile s
      (map_err as_service_error (verify_logout_token r authentic checked_at)) recorded_at

unfoldable pub status_of : Result BackchannelServiceError (Unit {0}) → ℕ
status_of (ok _) = 200
status_of (err (invalid e)) = 400
status_of (err replayed) = 400
status_of (err (keys_unavailable e)) = 503
