-- ===== src/Bff/Callback.antt =====
-- bff/src/server/api/callback.rs: the end of a login. The code exchange and the revocation of evicted
-- sessions wait for Hydra while other tasks change the state, which are parameters; so are the check of the id_token, whose signature
-- and claims a library verifies, the new session's random id and SHA-256.
pub mod Start
pub mod Stored
mod Tests
use weave_auth.Prelude.{
  ℕ, ◌+◌, ◌/◌, min, String, Bool, true, false, Option, none, some, List, Result, ok, err, ok_or,
  map_err, ◌>>=◌, if◌then◌else◌, is_some_and,
}
use weave_auth.Bff.Session.{Time, seconds, UserId, SessionData, max_session_lifetime}
use weave_auth.Bff.Storage.{Sessions, save_session}
use weave_auth.Bff.Secrets.{constant_time_eq}
use weave_auth.Bff.Hydra.{HydraError, rejected, TokenSet, Answer, token_request}
use weave_auth.Bff.Server.{AppState, revoke_refresh_tokens, end_session}
use weave_auth.Bff.Redirects.{Config, allows_redirect_uri, PendingLogin}

pub record VerifiedIdToken : Type 0 where
  pub user_id : UserId
  pub sid : Option String

pub data CallbackServiceError : Type 0 where
  no_login_in_progress state_mismatch : CallbackServiceError
  login_refused : (error : String) → CallbackServiceError
  missing_code redirect_not_allowed : CallbackServiceError
  exchange : HydraError → CallbackServiceError
  id_token_rejected missing_id_token missing_refresh_token : CallbackServiceError

pub record CallbackQuery : Type 0 where
  pub code : Option String
  pub state : Option String
  pub error : Option String

pub data Returned : Type 0 where
  code_returned : (code : String) → (state : Option String) → Returned
  refused : (error : String) → (state : Option String) → Returned
  empty : (state : Option String) → Returned

-- An `error` wins over a `code`.
unfoldable pub returned_of : CallbackQuery → Returned
returned_of q = elim q.error [
  | some error ↦ refused error q.state
  | none ↦ elim q.code [ some code ↦ code_returned code q.state | none ↦ empty q.state ]
]

abbrev pub returned_state : Returned → Option String
returned_state (code_returned code state) = state
returned_state (refused error state) = state
returned_state (empty state) = state

unfoldable pub code_of : Returned → Result CallbackServiceError String
code_of (code_returned code state) = ok code
code_of (refused error state) = err (login_refused error)
code_of (empty state) = err missing_code

pub record Surroundings : Type 0 where
  pub digest : String → List ℕ
  pub while_exchanging : AppState → AppState
  pub while_revoking : AppState → AppState
  -- Hydra's answer to a code and its PKCE verifier.
  pub exchanged : String → String → Option Answer
  -- What an id_token says, given the access token it came with and the login's nonce.
  pub verify_id_token : String → String → String → Option VerifiedIdToken
  pub refresh_ttl : Time
  pub session_id : String
  pub now : Time

-- The checks before the exchange: they give the code to redeem.
unfoldable pub redeemable :
    Surroundings → Config → PendingLogin → Returned → Result CallbackServiceError String
redeemable w c pending returned =
    (if is_some_and (λ state. constant_time_eq w.digest state pending.state)
        (returned_state returned)
      then ok tt
      else err state_mismatch)
    >>= λ (_ : Unit {0}). code_of returned >>= λ code.
        if allows_redirect_uri c pending.redirect_uri then ok code else err redirect_not_allowed

-- The session that Hydra's answer gives.
unfoldable pub started_session :
    Surroundings
    → PendingLogin
    → Result HydraError TokenSet
    → Result CallbackServiceError SessionData
started_session w pending answer = map_err exchange answer >>= λ t.
    ok_or missing_id_token t.id_token >>= λ id_token.
    ok_or missing_refresh_token t.refresh_token >>= λ refresh_token.
    ok_or id_token_rejected (w.verify_id_token id_token t.access_token pending.nonce) >>= λ v.
    ok (record {
      access_token = t.access_token;
      refresh_token = refresh_token;
      id_token = id_token;
      expires_at = w.now + t.expires_in;
      created_at = w.now;
      refresh_expires_at = w.now + w.refresh_ttl;
      user_id = v.user_id;
      sid = v.sid;
    })

pub record StartedSession : Type 0 where
  pub session_id : String
  pub session_max_age_secs : ℕ
  pub redirect_uri : String

unfoldable pub session_max_age_secs : Time → ℕ
session_max_age_secs refresh_ttl = min refresh_ttl max_session_lifetime / 1_000_000_000

unfoldable pub end_previous : AppState → Option String → AppState
end_previous s none = s
end_previous s (some id) = (end_session s id).0

-- The new session is stored, what that evicts is revoked, which waits for Hydra, and the session before
-- ends.
unfoldable pub store_started : Surroundings → AppState → SessionData → Option String → AppState
store_started w s d previous =
    let (sessions, evicted) = save_session s.sessions w.session_id d in
    let revoked = revoke_refresh_tokens (record s { sessions = sessions }) evicted in
    end_previous (w.while_revoking revoked) previous

unfoldable pub finish :
    Surroundings
    → AppState
    → PendingLogin
    → Option String
    → Result CallbackServiceError SessionData
    → AppState × Result CallbackServiceError StartedSession
finish w s pending previous (err e) = (s, err e)
finish w s pending previous (ok d) = (
  store_started w s d previous,
  ok (record {
    session_id = w.session_id;
    session_max_age_secs = session_max_age_secs w.refresh_ttl;
    redirect_uri = pending.redirect_uri;
  }),
)

unfoldable pub redeem :
    Surroundings
    → AppState
    → PendingLogin
    → Option String
    → Result CallbackServiceError String
    → AppState × Result CallbackServiceError StartedSession
redeem w s pending previous (err e) = (s, err e)
redeem w s pending previous (ok code) =
    finish w (w.while_exchanging s) pending previous
      (started_session w pending (token_request (w.exchanged code pending.verifier)))

unfoldable pub complete :
    Surroundings
    → Config
    → AppState
    → Option PendingLogin
    → Returned
    → Option String
    → AppState × Result CallbackServiceError StartedSession
complete w c s none returned previous = (s, err no_login_in_progress)
complete w c s (some pending) returned previous =
    redeem w s pending previous (redeemable w c pending returned)
