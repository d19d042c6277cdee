-- ===== src/Login/Config.antt =====
-- login/src/config.rs: the configuration of login and the checks of it. Reading and merging the variables
-- is a library's, as is the parsing of URLs and of the port.
pub mod Accepted
mod Tests
use weave_auth.Prelude.{
  ℕ, String, Bool, true, false, not, Option, none, some, List, [], ◌∷◌, ◌==◌, ◌&&◌, ◌||◌, leb,
  if◌then◌else◌, any, is_some_and, Result, ok, err, ok_or, ◌>>=◌, text_key, number_key,
}
use Prim.Native.String.{[] as ε, ◌∷◌ as ◌▸◌}
use Prim.Native.Char.{code}
use weave_auth.Texts.{slash, trim_end, is_whitespace}
use weave_auth.Common.Config.{
  Profile, dev, prod, is_prod, IpNet, v4, v6, Url, User, ConfigError, refused, ensure, profile,
  PublicUrl, base, origin, require_https_in_prod,
}

pub record Config : Type 0 where
  pub port : ℕ
  pub bff_url : String
  pub own_origin : String
  pub default_redirect_uri : Option String
  pub default_locale : String
  pub kratos_public_url : String
  pub hydra_admin_url : String
  pub bff_client_id : String
  pub kratos_session_cookie : String
  pub rate_limit_max_attempts : ℕ
  pub rate_limit_proxy_max_attempts : ℕ
  pub trusted_proxies : List IpNet

-- What a setting is that the deployer leaves out.
unfoldable pub default : Config
default = record {
  port = 8081;
  bff_url = "http://localhost:8080";
  own_origin = "http://localhost:8081";
  default_redirect_uri = none;
  default_locale = "en";
  kratos_public_url = "http://localhost:4433";
  hydra_admin_url = "http://localhost:4445";
  bff_client_id = "bff";
  kratos_session_cookie = "ory_kratos_session";
  rate_limit_max_attempts = 10;
  rate_limit_proxy_max_attempts = 600;
  trusted_proxies = [];
}

-- In prod both internal URLs must be set: their defaults are localhost addresses.
unfoldable pub check_internal_set : User → Profile → Result ConfigError (Unit {0})
check_internal_set user dev = ok tt
check_internal_set user prod =
    ensure (user.contains "kratos_public_url") "kratos_public_url" >>= λ (_ : Unit {0}).
    ensure (user.contains "hydra_admin_url") "hydra_admin_url"

unfoldable pub trimmed : Config → Config
trimmed c = record c {
  own_origin = trim_end slash c.own_origin;
  bff_url = trim_end slash c.bff_url;
  kratos_public_url = trim_end slash c.kratos_public_url;
  hydra_admin_url = trim_end slash c.hydra_admin_url;
}

-- `WA_LOGIN_PORT`, where it is set: the port that it says, if it says one.
unfoldable pub with_port : Option (Option ℕ) → Config → Result ConfigError Config
with_port none c = ok c
with_port (some read) c =
    ok_or (refused "WA_LOGIN_PORT") read >>= λ port. ok (record c { port = port })

abbrev pub filled : Option String → Option String
filled none = none
filled (some raw) = if raw == "" then none else some raw

unfoldable pub with_default : Config → Config
with_default c = record c { default_redirect_uri = filled c.default_redirect_uri }

abbrev pub is_web_scheme : Url → Bool
is_web_scheme url = url.scheme == "http" || url.scheme == "https"

unfoldable pub check_default :
    (String → Option Url) → Profile → Option String → Result ConfigError (Unit {0})
check_default parse p none = ok tt
check_default parse p (some raw) =
    ensure (is_some_and is_web_scheme (parse raw)) "default_redirect_uri" >>= λ (_ : Unit {0}).
    require_https_in_prod parse p (("WA_DEFAULT_REDIRECT_URI", raw, base) ∷ [])

abbrev breaks_name : ℕ → Bool
breaks_name n = is_whitespace n || n == 61 || n == 59

unfoldable pub has_break : String → Bool
has_break ε = false
has_break (c ▸ s) = breaks_name (code c) || has_break s

unfoldable pub too_wide_to_trust : IpNet → Bool
too_wide_to_trust (v4 prefix_len) = leb prefix_len 7
too_wide_to_trust (v6 prefix_len) = leb prefix_len 31

unfoldable pub check_limits : Profile → Config → Result ConfigError (Unit {0})
check_limits p c =
    ensure (not (c.kratos_session_cookie == "" || has_break c.kratos_session_cookie))
      "kratos_session_cookie"
    >>= λ (_ : Unit {0}).
        ensure (not (c.rate_limit_max_attempts == 0)) "rate_limit_max_attempts"
        >>= λ (_ : Unit {0}).
            ensure (not (c.rate_limit_proxy_max_attempts == 0)) "rate_limit_proxy_max_attempts"
            >>= λ (_ : Unit {0}).
                ensure (not (is_prod p) || not (any too_wide_to_trust c.trusted_proxies))
                  "trusted_proxies"

-- The limits that were left at their defaults are wider in dev.
unfoldable pub with_dev_limits : User → Profile → Config → Config
with_dev_limits user prod c = c
with_dev_limits user dev c = record c {
  rate_limit_max_attempts =
      if not (user.contains "rate_limit_max_attempts") then 100 else c.rate_limit_max_attempts;
  rate_limit_proxy_max_attempts =
      if not (user.contains "rate_limit_proxy_max_attempts")
      then 6000
      else c.rate_limit_proxy_max_attempts;
}

-- `extracted` is what the library makes of the defaults and the settings.
unfoldable pub load :
    (String → Option Url)
    → User
    → Option (Option ℕ)
    → Result ConfigError Config
    → Result ConfigError Config
load parse user port extracted = extracted >>= λ c. profile user >>= λ p.
    check_internal_set user p >>= λ (_ : Unit {0}).
    require_https_in_prod parse p
      (("WA_BFF_URL", c.bff_url, base) ∷ ("WA_LOGIN_PUBLIC_URL", c.own_origin, origin) ∷ [])
    >>= λ (_ : Unit {0}). with_port port (trimmed c) >>= λ d.
        check_default parse p (with_default d).default_redirect_uri >>= λ (_ : Unit {0}).
        check_limits p (with_default d) >>= λ (_ : Unit {0}).
        ok (with_dev_limits user p (with_default d))
