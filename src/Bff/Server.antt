-- ===== src/Bff/Server.antt =====
-- bff/src/server/mod.rs: the state that the handlers share, and how it ends sessions. Asking Hydra to
-- revoke a token has an answer that is only logged, so the state keeps the tokens asked for, the
-- latest last. The revocations of one call run at once; they are listed in the order of the sessions.
pub mod Ended
use weave_auth.Prelude.{String, Option, none, some, List, [], ◌∷◌, ◌++◌, map}
use weave_auth.Bff.Session.{SessionData, SessionSelector}
use weave_auth.Bff.Storage.{Sessions, no_sessions, take_session, revoke}
use weave_auth.Bff.Jti.{Used}

pub record AppState : Type 0 where
  pub sessions : Sessions
  pub logout_jtis : Used
  pub revoked : List String

abbrev pub new_state : AppState
new_state = record { sessions = no_sessions; logout_jtis = []; revoked = [] }

unfoldable pub revoke_token : AppState → String → AppState
revoke_token s token = record s { revoked = s.revoked ++ token ∷ [] }

unfoldable pub revoke_refresh_tokens : AppState → List SessionData → AppState
revoke_refresh_tokens s ended = record s { revoked = s.revoked ++ map (λ d. d.refresh_token) ended }

abbrev revoke_taken : AppState → Option SessionData → AppState
revoke_taken s none = s
revoke_taken s (some d) = revoke_token s d.refresh_token

unfoldable pub end_session : AppState → String → AppState × Option SessionData
end_session s id =
    let (sessions, taken) = take_session s.sessions id in
    (revoke_taken (record s { sessions = sessions }) taken, taken)

unfoldable pub end_sessions : AppState → SessionSelector → AppState
end_sessions s selector =
    let (sessions, ended) = revoke s.sessions selector in
    revoke_refresh_tokens (record s { sessions = sessions }) ended
