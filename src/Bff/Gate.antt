-- ===== src/Bff/Gate.antt =====
-- bff/src/server/api/proxy.rs, `controller`: which requests go on to an upstream, with which headers,
-- and which headers of its answer come back. The upstream, percent decoding, the URL library and the
-- library's check of a header's value are parameters; bodies pass through and are left out.
pub mod Forwarding
pub mod Access
pub mod Paths
mod Tests
use weave_auth.Bff.Gate.Paths.{is_clean_path}
use weave_auth.Prelude.{
  ℕ, String, Bool, true, false, not, Option, none, some, List, [], ◌∷◌, ◌==◌, ◌&&◌, ◌||◌, any, leb,
  Result, ok, err, map_err, if◌then◌else◌, text_key, number_key,
}
use mathlib.Core.Option
use weave_auth.Texts.{
  slash, backslash, dot, split, split_once, has, trim, first_word, eq_ignore_ascii_case, ◌<>◌,
}
use weave_auth.Headers.{
  HeaderValue, text, Headers, to_str, get, get_all, contains_key, append, insert,
}
use weave_auth.Bff.Server.{AppState}
use weave_auth.Bff.Origin.{OriginHeaders, require_trusted_origin}
use weave_auth.Bff.Cookies.{extract_cookie}
use weave_auth.Bff.Proxy.{ProxyServiceError, Surroundings, resolve_bearer_token}
use Prim.Native.String.{[] as ε, ◌∷◌ as ◌▸◌}
use Prim.Native.Char.{code}

pub data ProxyError : Type 0 where
  path_not_proxied unauthenticated refresh_unavailable untrusted_origin : ProxyError

unfoldable pub proxy_error : ProxyServiceError → ProxyError
proxy_error ProxyServiceError.unauthenticated = ProxyError.unauthenticated
proxy_error (ProxyServiceError.refresh_refused status) = ProxyError.unauthenticated
proxy_error (ProxyServiceError.refresh_unavailable e) = ProxyError.refresh_unavailable

unfoldable pub proxy_status : ProxyError → ℕ
proxy_status ProxyError.path_not_proxied = 404
proxy_status ProxyError.unauthenticated = 401
proxy_status ProxyError.refresh_unavailable = 502
proxy_status ProxyError.untrusted_origin = 403

abbrev pub request_headers : List String
request_headers =
    "content-type" ∷ "accept" ∷ "accept-language" ∷ "if-match" ∷ "if-none-match"
    ∷ "if-modified-since" ∷ "if-unmodified-since" ∷ []

abbrev pub response_headers : List String
response_headers =
    "content-type" ∷ "content-encoding" ∷ "content-disposition" ∷ "content-security-policy"
    ∷ "cache-control" ∷ "location" ∷ "vary" ∷ "etag" ∷ "last-modified" ∷ "www-authenticate"
    ∷ "retry-after" ∷ []

abbrev pub default_content_security_policy : String
default_content_security_policy = "sandbox; frame-ancestors 'none'"

abbrev pub shared_cache_directives : List String
shared_cache_directives = "public" ∷ "s-maxage" ∷ "private" ∷ "no-store" ∷ []

abbrev settling : Bool → String → Bool
settling has_argument name =
    not (has_argument && eq_ignore_ascii_case name "private")
    && any (eq_ignore_ascii_case name) shared_cache_directives

-- Whether a directive settles what a shared cache may do.
unfoldable pub settles : String → Bool
settles directive = elim (split_once 61 directive) [
  | some (name, argument) ↦ settling true (trim name)
  | none ↦ settling false (trim directive)
]

abbrev pub settles_text : Option String → Bool
settles_text none = false
settles_text (some value) = any settles (split 44 value)

unfoldable pub is_settled : Headers → Bool
is_settled h = any (λ v. settles_text (to_str v)) (get_all h "cache-control")

unfoldable pub keep_out_of_shared_caches : Headers → Headers
keep_out_of_shared_caches h =
    if not (contains_key h "cache-control")
    then insert h "cache-control" (text "no-store")
    else if is_settled h
    then h
    else append h "cache-control" (text "private")

abbrev pub keep_values : Headers → String → List HeaderValue → Headers
keep_values kept name [] = kept
keep_values kept name (v ∷ vs) = keep_values (append kept name v) name vs

abbrev pub keep : Headers → Headers → List String → Headers
keep kept h [] = kept
keep kept h (name ∷ names) = keep (keep_values kept name (get_all h name)) h names

unfoldable pub allowed : Headers → List String → Headers
allowed h names = keep [] h names

unfoldable pub needs_trusted_origin : String → Bool
needs_trusted_origin method = not (method == "GET" || method == "HEAD" || method == "OPTIONS")

pub record Request : Type 0 where
  pub method : String
  pub path : String
  pub headers : Headers

pub record Response : Type 0 where
  pub status : ℕ
  pub headers : Headers

pub record Gate : Type 0 where
  pub trusted_origins : List String
  pub session_cookie : String
  pub decode : String → String
  pub origin_of : String → Option String
  -- A header's value, if the library takes the text as one.
  pub parse : String → Option HeaderValue
  pub next : Request → Response

abbrev pub origin_headers : Headers → OriginHeaders
origin_headers h = record {
  origin = Option.map to_str (get h "origin");
  referer = Option.map to_str (get h "referer");
}

unfoldable pub upstream_headers : Headers → HeaderValue → Headers
upstream_headers h auth_value = insert (allowed h request_headers) "authorization" auth_value

abbrev pub with_policy : Headers → Headers
with_policy h =
    if not (contains_key h "content-security-policy")
    then insert h "content-security-policy" (text default_content_security_policy)
    else h

-- What the browser gets of the upstream's headers.
unfoldable pub passed_back : Headers → Headers
passed_back h =
    keep_out_of_shared_caches
      (with_policy (insert (allowed h response_headers) "x-content-type-options" (text "nosniff")))

abbrev pub answer_of : Gate → Request → Option HeaderValue → Result ProxyError Response
answer_of gate req none = err ProxyError.unauthenticated
answer_of gate req (some auth_value) =
    let r = gate.next (record req { headers = upstream_headers req.headers auth_value }) in
    ok (record r { headers = passed_back r.headers })

unfoldable pub forward :
    Gate → Request → Result ProxyServiceError String → Result ProxyError Response
forward gate req (err e) = err (proxy_error e)
forward gate req (ok token) = answer_of gate req (gate.parse ("Bearer " <> token))

unfoldable pub forward_for :
    Surroundings → Gate → AppState → Request → Option String → AppState × Result ProxyError Response
forward_for w gate s req none = (s, err ProxyError.unauthenticated)
forward_for w gate s req (some id) =
    let (s', token) = resolve_bearer_token w s id in (s', forward gate req token)

abbrev pub is_trusted : {E : Type 0} → Result E (Unit {0}) → Bool
is_trusted (ok _) = true
is_trusted (err e) = false

unfoldable pub authenticate :
    Surroundings → Gate → AppState → Request → AppState × Result ProxyError Response
authenticate w gate s req =
    if not (is_clean_path gate.decode req.path)
    then (s, err ProxyError.path_not_proxied)
    else if needs_trusted_origin req.method
        && not (
            is_trusted (
              require_trusted_origin gate.origin_of (origin_headers req.headers)
                gate.trusted_origins))
    then (s, err ProxyError.untrusted_origin)
    else forward_for w gate s req (
        extract_cookie gate.decode (Option.map to_str (get req.headers "cookie"))
          gate.session_cookie)
