-- ===== src/Bff/Redirects.antt =====
-- Where bff sends the browser on to: the allowlist (bff/src/config.rs), the start of a login
-- (bff/src/server/api/login.rs), the end of a logout (logged_out.rs) and the logout itself
-- (logout.rs). The URLs at Hydra are texts that the library formats, so what goes into one stands
-- for it; the random texts of a login are arguments.
pub mod Allowlist
mod Tests
use weave_auth.Prelude.{
  String, Bool, not, Option, none, some, List, any, ◌==◌, if◌then◌else◌, only_if, Result, ok, err,
  ok_or, ◌>>=◌, text_key, map_ok,
}
use mathlib.Core.Option
use weave_auth.Bff.Session.{SessionData}
use weave_auth.Bff.Server.{AppState, end_session}

pub record Config : Type 0 where
  pub redirect_uri_allowlist : List String
  pub default_redirect_uri : Option String

unfoldable pub allows_redirect_uri : Config → String → Bool
allows_redirect_uri c uri = any (λ allowed. allowed == uri) c.redirect_uri_allowlist

-- `Option::or`.
abbrev pub or {ℓ} : {A : Type ℓ} → Option A → Option A → Option A
or none b = b
or (some a) b = some a

pub record PendingLogin : Type 0 where
  pub state : String
  pub verifier : String
  pub nonce : String
  pub redirect_uri : String

pub data LoginServiceError : Type 0 where
  invalid_redirect_uri : LoginServiceError

unfoldable pub start :
    Config → String → String → String → Option String → Result LoginServiceError PendingLogin
start c state verifier nonce requested =
    ok_or invalid_redirect_uri
      (or (only_if (λ uri. not (uri == "")) requested) c.default_redirect_uri)
    >>= λ uri.
        if allows_redirect_uri c uri
        then ok (record { state = state; verifier = verifier; nonce = nonce; redirect_uri = uri })
        else err invalid_redirect_uri

pub data LoggedOutServiceError : Type 0 where
  no_destination : LoggedOutServiceError

unfoldable pub destination : Config → Option String → Result LoggedOutServiceError String
destination c requested =
    ok_or no_destination (or (only_if (allows_redirect_uri c) requested) c.default_redirect_uri)

-- What Hydra's logout URL is made of.
pub record LogoutUrl : Type 0 where
  pub id_token_hint : Option String
  pub state : Option String

unfoldable pub end_named : AppState → Option String → AppState × Option SessionData
end_named s none = (s, none)
end_named s (some id) = end_session s id

unfoldable pub logout : Config → AppState → Option String → Option String → AppState × LogoutUrl
logout c s session_id requested =
    let (s', ended) = end_named s session_id in
    (
      s',
      record {
        id_token_hint = Option.map (λ d. d.id_token) ended;
        state = only_if (allows_redirect_uri c) requested;
      },
    )
