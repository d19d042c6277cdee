-- ===== src/Bff/Endpoints.antt =====
-- bff's public endpoints as the browser sees them: the controllers of bff/src/server/api/login.rs,
-- callback.rs, logout.rs and logged_out.rs. The URLs at Hydra are the library's to write.
pub mod SignIn
mod Tests
use weave_auth.Prelude.{
  ℕ, String, Bool, Option, none, some, List, [], ◌∷◌, Result, ok, err, and_then, map_ok,
}
use weave_auth.Bff.Server.{AppState}
use weave_auth.Bff.Hydra.{HydraError, rejected}
use weave_auth.Bff.Origin.{OriginHeaders, require_trusted_origin}
use weave_auth.Bff.Redirects.{
  Config, PendingLogin, LoginServiceError, start, LoggedOutServiceError, destination, LogoutUrl,
}
use weave_auth.Bff.Redirects as Redirects
use weave_auth.Bff.Callback.{
  Surroundings, CallbackServiceError, CallbackQuery, returned_of, StartedSession, complete,
}
use weave_auth.Bff.Cookies.{
  extract_cookie, build_cookie, clear_cookie, cookie_name, login_cookie, login_cookie_max_age_secs,
  Codec, to_cookie_value, from_cookie_value,
}

-- What a deployment settles, and the libraries' functions.
pub record Site : Type 1 where
  pub config : Config
  pub trusted_origins : List String
  pub secure_cookies : Bool
  pub session_cookie_name : String
  pub codec : Codec
  pub encode : String → String
  pub decode : String → String
  pub shown : ℕ → String
  pub origin_of : String → Option String
  pub authorize_url : PendingLogin → String
  pub logout_url : LogoutUrl → String

unfoldable pub session_cookie : Site → String
session_cookie site = cookie_name site.secure_cookies site.session_cookie_name

pub record Response : Type 0 where
  pub status : ℕ
  pub location : Option String
  pub set_cookies : List String
  pub cache_control : Option String

unfoldable pub see_other : String → List String → Response
see_other location set_cookies = record {
  status = 303;
  location = some location;
  set_cookies = set_cookies;
  cache_control = some "no-store";
}

pub data LoginError : Type 0 where
  invalid_redirect_uri : LoginError

unfoldable pub login_error : LoginServiceError → LoginError
login_error LoginServiceError.invalid_redirect_uri = LoginError.invalid_redirect_uri

abbrev login_page : Site → PendingLogin → Response
login_page site pending = see_other (site.authorize_url pending) (
    build_cookie site.encode site.shown (login_cookie site.secure_cookies)
      (to_cookie_value site.codec pending) "/" login_cookie_max_age_secs site.secure_cookies
    ∷ [])

abbrev on_error : {E F A : Type 0} → (E → F) → (A → Response) → Result E A → Result F Response
on_error f page (ok a) = ok (page a)
on_error f page (err e) = err (f e)

unfoldable pub start_login :
    Site → String → String → String → Option String → Result LoginError Response
start_login site state verifier nonce redirect_uri =
    on_error login_error (login_page site) (start site.config state verifier nonce redirect_uri)

pub data CallbackError : Type 0 where
  no_login_in_progress state_mismatch login_refused missing_code invalid_redirect_uri :
      CallbackError
  token_exchange_failed invalid_token_response identity_provider_unavailable : CallbackError

unfoldable pub callback_error : CallbackServiceError → CallbackError
callback_error CallbackServiceError.no_login_in_progress = CallbackError.no_login_in_progress
callback_error CallbackServiceError.state_mismatch = CallbackError.state_mismatch
callback_error (CallbackServiceError.login_refused error) = CallbackError.login_refused
callback_error CallbackServiceError.missing_code = CallbackError.missing_code
callback_error CallbackServiceError.redirect_not_allowed = CallbackError.invalid_redirect_uri
callback_error (CallbackServiceError.exchange (rejected status)) =
    CallbackError.token_exchange_failed
callback_error (CallbackServiceError.exchange e) = CallbackError.identity_provider_unavailable
callback_error CallbackServiceError.id_token_rejected = CallbackError.invalid_token_response
callback_error CallbackServiceError.missing_id_token = CallbackError.invalid_token_response
callback_error CallbackServiceError.missing_refresh_token = CallbackError.invalid_token_response

unfoldable pub callback_status : CallbackError → ℕ
callback_status CallbackError.invalid_token_response = 502
callback_status CallbackError.identity_provider_unavailable = 502
callback_status e = 400

abbrev started_page : Site → StartedSession → Response
started_page site started = see_other started.redirect_uri (
    build_cookie site.encode site.shown (session_cookie site) started.session_id "/"
      started.session_max_age_secs site.secure_cookies
    ∷ clear_cookie site.encode site.shown (login_cookie site.secure_cookies) "/" site.secure_cookies
    ∷ [])

-- The login that a request's cookies carry.
unfoldable pub pending_of : Site → Option (Option String) → Option PendingLogin
pending_of site cookie =
    and_then (extract_cookie site.decode cookie (login_cookie site.secure_cookies))
      (from_cookie_value site.codec)

unfoldable pub callback :
    Surroundings
    → Site
    → AppState
    → Option (Option String)
    → CallbackQuery
    → AppState × Result CallbackError Response
callback w site s cookie query =
    let (s', started) =
      complete w site.config s (pending_of site cookie) (returned_of query)
        (extract_cookie site.decode cookie (session_cookie site)) in
    (s', on_error callback_error (started_page site) started)

pub data LogoutError : Type 0 where
  untrusted_origin : LogoutError

abbrev logout_page : Site → LogoutUrl → Response
logout_page site url =
    see_other (site.logout_url url)
      (clear_cookie site.encode site.shown (session_cookie site) "/" site.secure_cookies ∷ [])

unfoldable pub logout_trusted :
    {E : Type 0}
    → Site
    → AppState
    → Option String
    → Option String
    → Result E (Unit {0})
    → AppState × Result LogoutError Response
logout_trusted site s session_id redirect_uri (err e) = (s, err LogoutError.untrusted_origin)
logout_trusted site s session_id redirect_uri (ok _) =
    let (s', url) = Redirects.logout site.config s session_id redirect_uri in
    (s', ok (logout_page site url))

unfoldable pub logout :
    Site
    → AppState
    → OriginHeaders
    → Option (Option String)
    → Option String
    → AppState × Result LogoutError Response
logout site s headers cookie redirect_uri =
    logout_trusted site s (extract_cookie site.decode cookie (session_cookie site)) redirect_uri
      (require_trusted_origin site.origin_of headers site.trusted_origins)

pub data LoggedOutError : Type 0 where
  no_destination : LoggedOutError

unfoldable pub logged_out_error : LoggedOutServiceError → LoggedOutError
logged_out_error LoggedOutServiceError.no_destination = LoggedOutError.no_destination

unfoldable pub logged_out : Site → Option String → Result LoggedOutError Response
logged_out site state =
    on_error logged_out_error (λ destination. see_other destination [])
      (destination site.config state)
