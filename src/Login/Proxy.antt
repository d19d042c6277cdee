-- ===== src/Login/Proxy.antt =====
-- login/src/proxy.rs, `proxy`: the forwarding of a browser's request to Kratos, with the throttle on
-- login submissions. Hashing an identifier, reading a URL and sending the request are parameters; the
-- throttle's map may change while Kratos answers.
pub mod Counting
mod Tests
use weave_auth.Prelude.{
  ℕ, String, Bool, true, false, not, Option, none, some, List, [], any, contains, ◌∷◌, ◌==◌, ◌&&◌,
  ◌||◌, leb, ltb, if◌then◌else◌, is_some_and, and_then, filter_map, Result, ok, err, ok_or, ◌>>=◌,
  unwrap_or, text_key, number_key,
}
use weave_auth.Json.{Members}
use weave_auth.Texts.{
  slash, split, split_once, trim, is_blank, has_prefix, has_lower_prefix, first_word,
}
use weave_auth.Login.Throttle.{
  Instant, Digest, Entries, Admission, admitted, wait, Outcome, failed, succeeded, not_an_attempt,
  admit, settle,
}
use weave_auth.Login.Paths.{
  login_submit_path, is_clean_path, is_native_api_path, is_login_submit_variant,
}
use weave_auth.Login.Fields.{LoginFields, from_form, from_json, throttled_identifier}

-- A request as it matters here, its body read as a form and as a JSON object.
pub record Request : Type 0 where
  pub is_post : Bool
  pub path : String
  pub content_type : Option String
  pub form : List (String × String)
  pub json : Option Members

-- Kratos' answer, its `Location` resolved against login's own origin: whether that is where it
-- leads, and to which path.
pub record Answer : Type 0 where
  pub status : ℕ
  pub location : Option (Bool × String)
  pub set_cookies : List String

pub data Refusal : Type 0 where
  unsupported_encoding ambiguous : Refusal
  waits : Instant → Refusal

pub data Reply : Type 0 where
  not_found unsupported_media_type bad_request bad_gateway : Reply
  throttled : Instant → Reply
  forwarded : Answer → Reply

unfoldable pub read_fields : Request → Result Refusal LoginFields
read_fields r =
    let content_type = unwrap_or "" r.content_type in
    if has_lower_prefix "application/x-www-form-urlencoded" content_type
    then ok (from_form r.form)
    else if has_lower_prefix "application/json" content_type
    then ok_or ambiguous (from_json r.json)
    else err unsupported_encoding

abbrev pub admission_of : Digest → Admission → Result Refusal (Option Digest)
admission_of key admitted = ok (some key)
admission_of key (wait w) = err (waits w)

unfoldable pub count_attempt :
    (String → Digest) → Entries → Instant → Option String → Entries × Result Refusal (Option Digest)
count_attempt key_of m now none = (m, ok none)
count_attempt key_of m now (some identifier) =
    let (m', admission) = admit m (key_of identifier) now in
    (m', admission_of (key_of identifier) admission)

unfoldable pub attempt_of :
    (String → Digest)
    → Entries
    → Instant
    → Result Refusal LoginFields
    → Entries × Result Refusal (Option Digest)
attempt_of key_of m now (err e) = (m, err e)
attempt_of key_of m now (ok fields) =
    if fields.repeated
    then (m, err ambiguous)
    else count_attempt key_of m now (throttled_identifier fields)

unfoldable pub login_attempt :
    (String → Digest) → Entries → Instant → Request → Entries × Result Refusal (Option Digest)
login_attempt key_of m now r = attempt_of key_of m now (read_fields r)

abbrev sets_one : String → String → Bool
sets_one cookie set_cookie =
    is_some_and (λ (name, value). trim name == cookie && not (is_blank value))
      (split_once 61 (first_word (split 59 set_cookie)))

unfoldable pub sets_session : List String → String → Bool
sets_session set_cookies cookie = any (sets_one cookie) set_cookies

abbrev ui_paths : List String
ui_paths = "/login" ∷ "/registration" ∷ "/recovery" ∷ "/verification" ∷ "/settings" ∷ []

unfoldable pub is_ui_path : String → Bool
is_ui_path path = contains path ui_paths || has_prefix "/self-service/" path

abbrev pub is_within : ℕ → ℕ → ℕ → Bool
is_within low high status = leb low status && ltb status high

unfoldable pub signed_in : String → Answer → Outcome
signed_in cookie a = if sets_session a.set_cookies cookie then succeeded else failed

unfoldable pub redirected : String → Answer → Option (Bool × String) → Outcome
redirected cookie a none = failed
redirected cookie a (some (is_own, path)) =
    if is_own && path == "/error"
    then not_an_attempt
    else if is_own && is_ui_path path
    then failed
    else signed_in cookie a

unfoldable pub outcome : String → Answer → Outcome
outcome cookie a =
    if a.status == 422
    then signed_in cookie a
    else if a.status == 403 || a.status == 429 || is_within 500 600 a.status
    then not_an_attempt
    else if is_within 200 300 a.status
    then signed_in cookie a
    else if not (is_within 300 400 a.status)
    then failed
    else redirected cookie a a.location

pub record Surroundings : Type 0 where
  pub key_of : String → Digest
  pub now : Instant
  pub kratos_session_cookie : String
  pub url_builds : Bool
  pub while_forwarding : Entries → Entries
  -- Kratos' answer, `none` if it could not be had.
  pub answer : Option Answer

abbrev settle_attempt : Entries → Option Digest → Outcome → Entries
settle_attempt m none o = m
settle_attempt m (some key) o = settle m key o

unfoldable pub answered : Surroundings → Entries → Option Digest → Option Answer → Entries × Reply
answered w m attempt none = (settle_attempt m attempt not_an_attempt, bad_gateway)
answered w m attempt (some a) =
    (settle_attempt m attempt (outcome w.kratos_session_cookie a), forwarded a)

unfoldable pub forward : Surroundings → Entries → Result Refusal (Option Digest) → Entries × Reply
forward w m (err unsupported_encoding) = (m, unsupported_media_type)
forward w m (err ambiguous) = (m, bad_request)
forward w m (err (waits t)) = (m, throttled t)
forward w m (ok attempt) =
    if w.url_builds then answered w (w.while_forwarding m) attempt w.answer else (m, bad_gateway)

unfoldable pub is_refused_path : Request → Bool
is_refused_path r =
    not (is_clean_path r.path)
    || is_native_api_path r.path
    || (r.is_post && is_login_submit_variant r.path)

unfoldable pub proxy : Surroundings → Entries → Request → Entries × Reply
proxy w m r =
    if is_refused_path r
    then (m, not_found)
    else if r.is_post && r.path == login_submit_path
    then (let (m', attempt) = login_attempt w.key_of m w.now r in forward w m' attempt)
    else forward w m (ok none)
