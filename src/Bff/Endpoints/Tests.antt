-- ===== src/Bff/Endpoints/Tests.antt =====
-- A login from its start to its session, run in a browser that holds another cookie.
use weave_auth.Bff.Hydra.{token_request, read_tokens, check_response}
use weave_auth.Bff.Secrets.{bit_xor, bit_or, constant_time_eq}
use weave_auth.Bff.Origin.{require_trusted_origin, request_origin}
use weave_auth.Texts.{
  is_blank, trim_start, trim_blank_end, split_once, split, ◌<>◌, has_prefix_in_any_case,
  is_whitespace, has,
}
use weave_auth.Texts.Laws.{is_unspaced}
use weave_auth.Prelude.{
  ℕ, String, true, List, [], ◌∷◌, Option, none, some, ◌==◌, text_key, if◌then◌else◌, ◌≡◌, refl, ok,
  err,
}
use weave_auth.Bff.Server.{new_state}
use weave_auth.Bff.Session.{seconds}
use weave_auth.Bff.Redirects.{allows_redirect_uri, PendingLogin, start}
use weave_auth.Maps.{get}
use weave_auth.Bff.Session.{SessionData}
use weave_auth.Bff.Storage.{get_session}
use weave_auth.Bff.Storage.Invariant.{no_sessions-InStep}
use weave_auth.Bff.Callback.Stored.{IsUndisturbed}
use weave_auth.Bff.Callback.{
  VerifiedIdToken, store_started, started_session, session_max_age_secs, finish, end_previous,
  code_of, redeemable, redeem, Surroundings, CallbackQuery, complete, returned_of,
}
use weave_auth.Bff.Cookies.{
  clear_cookie, build_cookie, from_cookie_value, named_value, only_one, has_name_prefix,
  cookie_name, to_cookie_value, login_cookie, extract_cookie,
}
use weave_auth.Bff.Cookies.RoundTrip.{AreOthers}
use weave_auth.Bff.Endpoints.{
  see_other, logout_trusted, Site, session_cookie, Response, start_login, pending_of, callback,
  logout, LogoutError,
}
use weave_auth.Bff.Endpoints.SignIn.{header_with, pending_of-start_login, callback-session}

abbrev pending : PendingLogin
pending = record { state = "s"; verifier = "v"; nonce = "n"; redirect_uri = "https://app.test/" }

abbrev site : Site
site = record {
  config = record {
    redirect_uri_allowlist = "https://app.test/" ∷ [];
    default_redirect_uri = none;
  };
  trusted_origins = "https://app.test" ∷ [];
  secure_cookies = true;
  session_cookie_name = "wa_session";
  codec = record {
    Bytes = PendingLogin;
    to_json = λ p. p;
    from_json = λ p. some p;
    encode64 = λ p. "c-l-v-n";
    decode64 = λ text. some pending;
  };
  encode = λ v. v;
  decode = λ v. v;
  shown = λ n. "600";
  origin_of = λ url. none;
  authorize_url = λ p. "https://hydra.test/auth";
  logout_url = λ u. "https://hydra.test/logout";
}

abbrev others : List (String × String)
others = ("theme", "dark") ∷ []

endpoints_runs : ℕ
unfolding start to_cookie_value allows_redirect_uri is_unspaced has is_whitespace
endpoints_runs = 0

pending_of-start_login_example :
    (r : Response) × (start_login site "s" "v" "n" (some "https://app.test/") ≡ ok r)
    × (r.location ≡ some "https://hydra.test/auth")
    × (set_cookie : String) × (r.set_cookies ≡ set_cookie ∷ [])
    × ((before after : List (String × String))
        → AreOthers (login_cookie true) before
        → AreOthers (login_cookie true) after
        → pending_of site (header_with before set_cookie after) ≡ some pending)
unfolding endpoints_runs
pending_of-start_login_example =
    pending_of-start_login site "s" "v" "n" (some "https://app.test/") pending refl
      (record { parsed = refl; decoded = refl; survives = record { undone = refl; clean = refl } })

abbrev surroundings : Surroundings
surroundings = record {
  digest = λ s. (if s == "s" then 129 else 130) ∷ [];
  while_exchanging = λ s. s;
  while_revoking = λ s. s;
  exchanged = λ code verifier. some (record {
    status = 200;
    oauth_error = none;
    tokens = some (record {
      access_token = "a";
      refresh_token = some "r";
      id_token = some "i";
      expires_in = some 60;
    });
  });
  verify_id_token = λ id_token access_token nonce. some (record { user_id = 7; sid = none });
  refresh_ttl = seconds 3600;
  session_id = "new";
  now = seconds 100;
}

abbrev back_from_hydra : CallbackQuery
back_from_hydra = record { code = some "c"; state = some "s"; error = none }

abbrev sent : Option (Option String)
sent = some (some "theme=dark; __Host-wa_login=c-l-v-n")

abbrev page : Response
page = record {
  status = 303;
  location = some "https://app.test/";
  set_cookies =
      "__Host-wa_session=new; HttpOnly; Path=/; SameSite=Lax; Secure; Max-Age=600"
      ∷ "__Host-wa_login=; HttpOnly; Path=/; SameSite=Lax; Secure; Max-Age=600" ∷ [];
  cache_control = some "no-store";
}

callback_runs : ℕ
unfolding endpoints_runs cookie_name has_name_prefix logout logout_trusted session_cookie
    request_origin require_trusted_origin has_prefix_in_any_case ◌<>◌ callback complete pending_of
    extract_cookie only_one split named_value split_once trim_blank_end trim_start is_blank
    login_cookie is_whitespace from_cookie_value start_login redeem redeemable returned_of
    constant_time_eq code_of end_previous finish session_max_age_secs build_cookie clear_cookie
    see_other check_response read_tokens token_request allows_redirect_uri started_session bit_or
    bit_xor store_started
callback_runs = 0

signs_in : (callback surroundings site new_state sent back_from_hydra).1 ≡ ok page
unfolding callback_runs
signs_in = refl

refuses_another_site :
    logout site new_state
      (record { origin = some (some "https://evil.test"); referer = none })
      sent
      none
    ≡ (new_state, err LogoutError.untrusted_origin)
unfolding callback_runs
refuses_another_site = refl

undisturbed :
    IsUndisturbed surroundings new_state (extract_cookie site.decode sent (session_cookie site))
unfolding callback_runs get_session get
undisturbed = record {
  in_step = no_sessions-InStep;
  earlier = λ j x e. cc;
  fresh = λ e. cc;
  left = λ t. refl;
}

callback-session_example :
    (p : PendingLogin) × (pending_of site sent ≡ some p)
    × (some "https://app.test/" ≡ some p.redirect_uri)
    × (d : SessionData) × (v : VerifiedIdToken) × (surroundings.verify_id_token d.id_token
          d.access_token p.nonce
        ≡ some v)
    × (d.user_id ≡ v.user_id)
    × (get_session (callback surroundings site new_state sent back_from_hydra).0.sessions "new"
        ≡ some d)
    × (set_cookie cleared : String) × (page.set_cookies ≡ set_cookie ∷ cleared ∷ [])
    × ((before after : List (String × String))
        → AreOthers (session_cookie site) before
        → AreOthers (session_cookie site) after
        → extract_cookie site.decode (header_with before set_cookie after) (session_cookie site)
          ≡ some "new")
    × ((before after : List (String × String))
        → AreOthers (login_cookie true) before
        → AreOthers (login_cookie true) after
        → extract_cookie site.decode (header_with before cleared after) (login_cookie true)
          ≡ some "")
unfolding callback_runs
callback-session_example =
    callback-session surroundings site new_state sent back_from_hydra page refl
      (record { undone = refl; clean = refl }) (record { undone = refl; clean = refl }) undisturbed
      signs_in
