-- ===== src/Bff/InternalRevoke.antt =====
-- bff/src/server/api/internal_revoke.rs: the route through which hooks ends a user's sessions. The
-- bearer token is the one read off the request's headers, if there is one; SHA-256 is a parameter.
pub mod Authorized
mod Tests
use weave_auth.Prelude.{
  ℕ, String, Option, none, some, List, ◌==◌, if◌then◌else◌, Result, ok, err, ok_or, ◌>>=◌, text_key,
}
use weave_auth.Bff.Session.{UserId, user}
use weave_auth.Bff.Secrets.{constant_time_eq}
use weave_auth.Bff.Server.{AppState, end_sessions}

pub data RevokeServiceError : Type 0 where
  missing_key wrong_key no_key_configured : RevokeServiceError

unfoldable pub authorize :
    (String → List ℕ) → Option String → String → Result RevokeServiceError (Unit {0})
authorize digest presented expected =
    if expected == ""
    then err no_key_configured
    else ok_or missing_key presented >>= λ key.
        if constant_time_eq digest key expected then ok tt else err wrong_key

unfoldable pub revoke_user : AppState → UserId → AppState
revoke_user s u = end_sessions s (user u)

-- The key is checked before the body is read; all its errors are a 401.
unfoldable pub revoke :
    (String → List ℕ) → AppState → Option String → String → UserId → AppState × ℕ
revoke digest s presented expected u = elim (authorize digest presented expected) [
  | ok _ ↦ (revoke_user s u, 204)
  | err _ ↦ (s, 401)
]
