-- ===== src/Bff/Config.antt =====
-- bff/src/config.rs: the configuration and the checks that bff makes of it before it starts. Reading and
-- merging the file and the variables is a library's, as are URLs and the networks of proxies.
pub mod Load
pub mod Routes
pub mod Accepted
pub mod Names
mod Tests
use weave_auth.Prelude.{
  ltb, ◌+◌, ◌*◌, ℕ, zero, suc, String, Bool, true, false, not, Option, none, some, List, [], ◌∷◌,
  ◌==◌, ◌&&◌, ◌||◌, leb, if◌then◌else◌, any, all, contains, map, is_some, is_some_and, is_none_or,
  Result, ok, err, ◌>>=◌, text_key, number_key,
}
use Prim.Native.String.{[] as ε, ◌∷◌ as ◌▸◌, len}
use Prim.Native.Char.{code}
use weave_auth.Json.{ℤ, pos, negsuc}
use weave_auth.Texts.{eq_ignore_ascii_case, slash, split, trim_end, has_prefix, ◌<>◌}
use weave_auth.Common.Config.{
  v6, v4, IpNet, address, domain, Host, Profile, dev, prod, is_prod, Url, User, ConfigError,
  refused, ensure, profile, base, require_https_in_prod,
}
use weave_auth.Bff.Cookies.{
  cookie_name, login_cookie, login_cookie_base, has_name_prefix, host_cookie_prefix,
  secure_cookie_prefix,
}

pub record RouteConfig : Type 0 where
  pub path_prefix : String
  pub upstream_url : String

pub record Config : Type 0 where
  pub port : ℕ
  pub internal_port : ℕ
  pub bff_url : String
  pub hydra_public_url : String
  pub hydra_internal_url : String
  pub bff_client_id : String
  pub hydra_audience : String
  pub bff_client_secret : String
  pub hydra_refresh_token_ttl_secs : ℤ
  pub redirect_uri_allowlist : List String
  pub default_redirect_uri : Option String
  pub internal_api_key : String
  pub session_cookie_name : String
  pub routes : List RouteConfig
  pub trusted_origins : List String
  pub rate_limit_max_attempts : ℕ
  pub rate_limit_proxy_max_attempts : ℕ
  pub trusted_proxies : List IpNet

abbrev pub default_refresh_token_ttl_secs : ℕ
default_refresh_token_ttl_secs = 30 * 24 * 60 * 60

-- What a setting is that the deployer leaves out.
unfoldable pub default : Config
default = record {
  port = 8080;
  internal_port = 8082;
  bff_url = "http://localhost:8080";
  hydra_public_url = "http://localhost:4444";
  hydra_internal_url = "http://localhost:4444";
  bff_client_id = "bff";
  hydra_audience = "weaveauth";
  bff_client_secret = "";
  hydra_refresh_token_ttl_secs = pos default_refresh_token_ttl_secs;
  redirect_uri_allowlist = [];
  default_redirect_uri = none;
  internal_api_key = "";
  session_cookie_name = "wa_session";
  routes = [];
  trusted_origins = [];
  rate_limit_max_attempts = 10;
  rate_limit_proxy_max_attempts = 600;
  trusted_proxies = [];
}

abbrev pub max_refresh_token_ttl_secs : ℕ
max_refresh_token_ttl_secs = 10 * 365 * 24 * 60 * 60

abbrev pub min_prod_api_key_len : ℕ
min_prod_api_key_len = 16

abbrev pub committed_dev_secrets : List String
committed_dev_secrets = "dev-bff-client-secret" ∷ "dev-bff-internal-api-key" ∷ []

abbrev pub reserved_prefixes : List String
reserved_prefixes = "/login" ∷ "/callback" ∷ "/logout" ∷ "/logged-out" ∷ "/health" ∷ []

abbrev pub within : ℕ → ℕ → ℕ → Bool
within lo hi n = leb lo n && leb n hi

-- Whether all characters of a text pass a test.
abbrev pub all_chars : (ℕ → Bool) → String → Bool
all_chars p ε = true
all_chars p (c ▸ s) = p (code c) && all_chars p s

abbrev has_code : ℕ → String → Bool
has_code n ε = false
has_code n (c ▸ s) = code c == n || has_code n s

unfoldable pub is_token_char : ℕ → Bool
is_token_char n =
    within 48 57 n || within 65 90 n || within 97 122 n || has_code n "!#$%&'*+-.^_`|~"

unfoldable pub is_cookie_token : String → Bool
is_cookie_token name = not (name == "") && all_chars is_token_char name

unfoldable pub is_route_segment : String → Bool
is_route_segment segment =
    not (segment == "" || segment == "." || segment == "..")
    && all_chars (λ n. within 33 126 n && not (has_code n "{}*?#%\\")) segment

abbrev without_slash : String → Option String
without_slash ε = none
without_slash (c ▸ s) = if code c == slash then some s else none

unfoldable pub is_route_prefix : String → Bool
is_route_prefix prefix =
    prefix == "/"
    || is_some_and (λ path. all is_route_segment (split slash path)) (without_slash prefix)

abbrev pub is_web : Url → Bool
is_web url = (url.scheme == "http" || url.scheme == "https") && is_some url.host

abbrev pub is_plain : Url → Bool
is_plain url = url.username == "" && not (is_some url.password) && not (is_some url.fragment)

unfoldable pub is_loopback : Option Host → Bool
is_loopback (some (domain name)) = eq_ignore_ascii_case name "localhost"
is_loopback (some (address local)) = local
is_loopback none = false

abbrev pub is_upstream : Profile → Url → Bool
is_upstream p url =
    is_web url
    && is_plain url
    && not (is_some url.query)
    && (not (is_prod p) || url.scheme == "https" || is_loopback url.host)

-- The routes after the prefixes of those before.
unfoldable pub check_routes_after :
    (String → Option Url) → Profile → List String → List RouteConfig → Result ConfigError (Unit {0})
check_routes_after parse p earlier [] = ok tt
check_routes_after parse p earlier (route ∷ routes) =
    ensure (is_route_prefix route.path_prefix) "path_prefix" >>= λ (_ : Unit {0}).
    ensure (not (contains route.path_prefix reserved_prefixes)) "path_prefix" >>= λ (_ : Unit {0}).
    ensure (not (contains route.path_prefix earlier)) "routes" >>= λ (_ : Unit {0}).
    ensure (is_some_and (is_upstream p) (parse route.upstream_url)) "upstream_url"
    >>= λ (_ : Unit {0}). check_routes_after parse p (route.path_prefix ∷ earlier) routes

unfoldable pub check_routes :
    (String → Option Url) → List RouteConfig → Profile → Result ConfigError (Unit {0})
check_routes parse routes p = check_routes_after parse p [] routes

abbrev pub has_scheme : Profile → Url → Bool
has_scheme prod url = url.scheme == "https"
has_scheme dev url = url.scheme == "http" || url.scheme == "https"

-- An entry goes verbatim into a `Location` header.
unfoldable pub is_allowed_entry : (String → Option Url) → Profile → String → Bool
is_allowed_entry parse p entry =
    all_chars (within 33 126) entry
    && is_some_and (λ url. has_scheme p url && is_some url.host && is_plain url) (parse entry)

abbrev pub is_nil : List String → Bool
is_nil [] = true
is_nil (x ∷ xs) = false

unfoldable pub check_redirect_uri_allowlist :
    (String → Option Url) → List String → Profile → Result ConfigError (Unit {0})
check_redirect_uri_allowlist parse allowlist p =
    ensure (not (is_prod p) || not (is_nil allowlist)) "redirect_uri_allowlist"
    >>= λ (_ : Unit {0}). ensure (all (is_allowed_entry parse p) allowlist) "redirect_uri_allowlist"

unfoldable pub too_wide_to_trust : IpNet → Bool
too_wide_to_trust (v4 prefix_len) = leb prefix_len 7
too_wide_to_trust (v6 prefix_len) = leb prefix_len 31

-- An origin in the form that a browser sends.
unfoldable pub is_trusted_origin : (String → Option Url) → Profile → String → Bool
is_trusted_origin parse p origin =
    is_some_and (λ url. url.origin == origin) (parse origin)
    && (not (is_prod p) || has_prefix "https://" origin)

unfoldable pub secure_cookies : (String → Option Url) → Config → Bool
secure_cookies parse c = is_some_and (λ url. url.scheme == "https") (parse c.bff_url)

unfoldable pub session_cookie : (String → Option Url) → Config → String
session_cookie parse c = cookie_name (secure_cookies parse c) c.session_cookie_name

abbrev pub is_ttl : ℤ → Bool
is_ttl (pos n) = within 1 max_refresh_token_ttl_secs n
is_ttl (negsuc n) = false
