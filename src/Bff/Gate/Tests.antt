-- ===== src/Bff/Gate/Tests.antt =====
-- Requests at the gate, and the theorems at them.
use weave_auth.Maps.{remove, insert}
use weave_auth.Bff.Hydra.{token_request, read_tokens, classify, check_response}
use weave_auth.Login.Proxy.{forward}
use weave_auth.Prelude.{
  ◌+◌, ℕ, String, true, false, none, some, [], ◌∷◌, contains, ◌≡◌, ◌≢◌, ◌⊎◌, refl, ok, err, All,
  ◌==◌, if◌then◌else◌, text_key,
}
use mathlib.Core.Option
use weave_auth.Texts.{
  trim_start, trim_blank_end, split_once, has, is_blank, eq_ignore_ascii_case, is_whitespace, slash,
  split, ◌<>◌,
}
use weave_auth.Headers.{append, HeaderValue, text, Headers, to_str, get, get_all, contains_key}
use weave_auth.Bff.Session.{ends_at, SessionData, seconds}
use weave_auth.Bff.Storage.{
  update_session, unindex_replaced, unindex_ids, unindex, take_session, remove_session, put_ids,
  index_id, ids_of, drop_found, insert_session, no_sessions, get_session,
}
use weave_auth.Bff.Server.{revoke_token, AppState, new_state}
use weave_auth.Bff.Origin.{request_origin, referer_origin, require_trusted_origin}
use weave_auth.Bff.Cookies.{named_value, only_one, extract_cookie}
use weave_auth.Bff.Proxy.{
  with_turn, stored, store_refreshed, resolve_found, resolve_bearer_token, refreshed_session,
  refresh_session, is_fresh, after_answer, Surroundings,
}
use weave_auth.Bff.Gate.{
  forward_for, settles, proxy_error, keep_out_of_shared_caches, allowed, Gate, Request, Response,
  ProxyError, request_headers, response_headers, is_settled, default_content_security_policy,
  needs_trusted_origin, origin_headers, upstream_headers, passed_back, answer_of, authenticate,
}
use weave_auth.Bff.Gate.Paths.{is_unclean_text, is_clean_path, is_clean_path_lem, StaysPut}
use weave_auth.Bff.Gate.Forwarding.{upstream_headers_lem, passed_back_lem}
use weave_auth.Bff.Gate.Access.{authenticate-forwarded}

abbrev login : SessionData
login = record {
  access_token = "a1";
  refresh_token = "r1";
  id_token = "i";
  expires_at = seconds 600;
  created_at = seconds 0;
  refresh_expires_at = seconds 3600;
  user_id = 7;
  sid = some "h";
}

abbrev logged_in : AppState
logged_in = record new_state { sessions = insert_session no_sessions "id" login }

abbrev calm : Surroundings
calm = record {
  clock = λ n. seconds (100 + n);
  while_waiting = λ s. s;
  while_refreshing = λ s. s;
  refreshed = λ token. none;
  refresh_ttl = seconds 3600;
}

abbrev from_upstream : Headers
from_upstream =
    ("content-type", text "text/html")
    ∷ ("set-cookie", text "wa_session=planted")
    ∷ ("cache-control", text "max-age=60, must-revalidate")
    ∷ []

abbrev gate : Gate
gate = record {
  trusted_origins = "https://app.test" ∷ [];
  session_cookie = "wa_session";
  decode = λ s. s;
  origin_of = λ url. none;
  parse = λ t. some (text t);
  next = λ req. record { status = 200; headers = from_upstream };
}

abbrev from_browser : Headers
from_browser =
    ("cookie", text "wa_session=id")
    ∷ ("authorization", text "Bearer forged")
    ∷ ("origin", text "https://app.test")
    ∷ ("accept", text "text/html")
    ∷ []

abbrev posted : Request
posted = record { method = "POST"; path = "/api/items"; headers = from_browser }

gate_runs : ℕ
unfolding authenticate is_whitespace allowed forward is_settled keep_out_of_shared_caches
    passed_back proxy_error settles upstream_headers check_response classify read_tokens
    token_request referer_origin after_answer is_fresh refresh_session refreshed_session
    resolve_bearer_token resolve_found store_refreshed stored with_turn revoke_token ends_at
    drop_found get_session ids_of index_id insert_session put_ids remove_session take_session
    unindex unindex_ids unindex_replaced update_session append contains_key insert get remove
    eq_ignore_ascii_case is_blank ◌<>◌ is_clean_path split is_unclean_text has needs_trusted_origin
    require_trusted_origin request_origin get_all forward_for extract_cookie only_one named_value
    split_once trim_blank_end trim_start weave_auth.Bff.Gate.forward weave_auth.Maps.get
    weave_auth.Headers.insert
gate_runs = 0

abbrev answered : Response
answered = record {
  status = 200;
  headers =
      ("content-type", text "text/html")
      ∷ ("cache-control", text "max-age=60, must-revalidate")
      ∷ ("x-content-type-options", text "nosniff")
      ∷ ("content-security-policy", text "sandbox; frame-ancestors 'none'")
      ∷ ("cache-control", text "private")
      ∷ [];
}

passes : (authenticate calm gate logged_in posted).1 ≡ ok answered
unfolding gate_runs
passes = refl

refuses_a_climb :
    (authenticate calm gate logged_in (record posted { path = "/api/..;x/admin" })).1
    ≡ err ProxyError.path_not_proxied
unfolding gate_runs
refuses_a_climb = refl

refuses_another_site :
    (authenticate calm gate logged_in
      (record posted { headers = ("origin", text "https://evil.test") ∷ from_browser })).1
    ≡ err ProxyError.untrusted_origin
unfolding gate_runs
refuses_another_site = refl

authenticate-forwarded_example :
    (is_clean_path gate.decode "/api/items" ≡ true)
    × ((needs_trusted_origin "POST" ≡ false)
        ⊎ (require_trusted_origin gate.origin_of (origin_headers from_browser) gate.trusted_origins
            ≡ ok tt))
    × (id : String) × (extract_cookie gate.decode
          (Option.map to_str (get from_browser "cookie"))
          gate.session_cookie
        ≡ some id)
    × (d : SessionData) × ((get_session logged_in.sessions id ≡ some d)
        ⊎ (get_session (authenticate calm gate logged_in posted).0.sessions id ≡ some d))
    × (auth_value : HeaderValue) × (gate.parse ("Bearer " <> d.access_token) ≡ some auth_value)
    × (answer_of gate posted (some auth_value) ≡ ok answered)
unfolding gate_runs
authenticate-forwarded_example = authenticate-forwarded calm gate logged_in posted answered passes

upstream_headers_lem_example :
    get_all (upstream_headers from_browser (text "Bearer a1")) "authorization"
    ≡ text "Bearer a1" ∷ []
unfolding gate_runs
upstream_headers_lem_example = upstream_headers_lem from_browser (text "Bearer a1") "authorization"

passed_back_lem_example :
    ((n : String)
      → contains n response_headers ≡ false
      → get_all (passed_back from_upstream) n
        ≡ (if n == "x-content-type-options" then text "nosniff" ∷ [] else []))
    × ((n : String)
        → contains n response_headers ≡ true
        → n ≢ "content-security-policy"
        → n ≢ "cache-control"
        → get_all (passed_back from_upstream) n ≡ get_all from_upstream n)
    × (get_all (passed_back from_upstream) "content-security-policy" ≡ (
        if contains_key from_upstream "content-security-policy"
        then get_all from_upstream "content-security-policy"
        else text default_content_security_policy ∷ []))
    × (is_settled (passed_back from_upstream) ≡ true)
passed_back_lem_example = passed_back_lem from_upstream

is_clean_path_lem_example :
    All
      (λ segment. StaysPut (gate.decode segment) × StaysPut (gate.decode (gate.decode segment)))
      (split slash "/api/items")
unfolding gate_runs
is_clean_path_lem_example = is_clean_path_lem gate.decode "/api/items" refl
