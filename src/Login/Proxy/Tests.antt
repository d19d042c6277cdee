-- ===== src/Login/Proxy/Tests.antt =====
-- A login submission, and the theorems at it.
use weave_auth.Maps.{get}
use weave_auth.Prelude.{ℕ, String, true, false, none, some, [], ◌∷◌, ◌≡◌, ◌⊎◌, refl, ok, number_key}
use weave_auth.Json.{text, Members, no_members, member}
use weave_auth.Texts.{
  has_lower_prefix, trim_start, trim_blank_end, split_once, is_whitespace, is_blank, has_twice,
  slash, percent, split, has, trim_end, eq_ignore_ascii_case,
}
use weave_auth.Login.Throttle.{admit_found, admitted, admit, succeeded}
use weave_auth.Login.Paths.{
  is_native_api_path, is_login_submit_variant, login_submit_path, is_clean_path,
}
use weave_auth.Login.Paths.Climbing.{resolve, is_clean_path-resolve}
use weave_auth.Login.Fields.{
  set_method, set_identifier, read_member, from_members, LoginFields, from_json,
  throttled_identifier,
}
use weave_auth.Login.Proxy.{
  login_attempt, is_refused_path, forward, count_attempt, attempt_of, answered, signed_in,
  redirected, Request, Answer, forwarded, read_fields, sets_session, outcome, Surroundings, proxy,
}
use weave_auth.Login.Proxy.Counting.{proxy-counts}

abbrev body : Members
body = member "method" (text "password") (member "identifier" (text "a@b.test") no_members)

abbrev read_body : LoginFields
read_body = record { method = some "password"; identifier = some "a@b.test"; repeated = false }

proxy_runs : ℕ
unfolding proxy from_json from_members read_member set_identifier set_method is_clean_path outcome
    redirected sets_session signed_in eq_ignore_ascii_case has has_twice is_blank is_whitespace
    split split_once trim_blank_end trim_end trim_start throttled_identifier is_login_submit_variant
    is_native_api_path answered attempt_of count_attempt forward is_refused_path login_attempt
    read_fields admit admit_found get has_lower_prefix
proxy_runs = 0

clean : is_clean_path "/self-service/login" ≡ true
unfolding proxy_runs
clean = refl

is_clean_path-resolve_example :
    (resolve [] (split slash "/self-service/login") ≡ split slash "/self-service/login")
    × (has percent "/self-service/login" ≡ false)
is_clean_path-resolve_example = is_clean_path-resolve "/self-service/login" clean

abbrev submission : Request
submission = record {
  is_post = true;
  path = "/self-service/login";
  content_type = some "Application/JSON";
  form = [];
  json = some body;
}

abbrev wrong_password : Answer
wrong_password = record { status = 400; location = none; set_cookies = [] }

abbrev surroundings : Surroundings
surroundings = record {
  key_of = λ identifier. 1;
  now = 0;
  kratos_session_cookie = "ory_kratos_session";
  url_builds = true;
  while_forwarding = λ m. m;
  answer = some wrong_password;
}

forwards : (proxy surroundings [] submission).1 ≡ forwarded wrong_password
unfolding proxy_runs
forwards = refl

submits : eq_ignore_ascii_case (trim_end slash submission.path) login_submit_path ≡ true
unfolding proxy_runs
submits = refl

proxy-counts_example :
    (submission.path ≡ login_submit_path)
    × ((fields : LoginFields) × (read_fields submission ≡ ok fields)
        × (fields.repeated ≡ false)
        × ((throttled_identifier fields ≡ none)
            ⊎ ((identifier : String) × (throttled_identifier fields ≡ some identifier)
                × ((admit [] (surroundings.key_of identifier) surroundings.now).1 ≡ admitted))))
proxy-counts_example = proxy-counts surroundings [] submission wrong_password refl submits forwards

abbrev signed_in_answer : Answer
signed_in_answer = record {
  status = 303;
  location = some (false, "/");
  set_cookies = "ory_kratos_session=abc; Path=/" ∷ [];
}

counts_success : outcome "ory_kratos_session" signed_in_answer ≡ succeeded
unfolding proxy_runs
counts_success = refl
