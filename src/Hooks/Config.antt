-- ===== src/Hooks/Config.antt =====
-- hooks/src/config.rs: the configuration of hooks and the checks of it. Reading and merging the file and
-- the variables is a library's, as is the parsing of URLs.
pub mod Accepted
mod Tests
use weave_auth.Prelude.{
  ◌*◌, ℕ, String, Bool, true, false, not, Option, none, some, List, [], ◌∷◌, ◌==◌, ◌&&◌, ◌||◌, leb,
  ltb, if◌then◌else◌, is_some, is_some_and, Result, ok, err, ◌>>=◌, text_key, number_key,
}
use weave_auth.Texts.{slash, trim_end, byte_len}
use weave_auth.Maps.{Map}
use weave_auth.Common.Config.{
  Profile, dev, prod, is_prod, Host, domain, address, Url, User, ConfigError, ensure, profile,
}
use weave_auth.Hooks.ProfileApi.{ProfileApiConfig}

pub record WebhookConfig : Type 0 where
  pub url : String
  pub timeout_secs : ℕ
  pub bearer_token : Option String

pub record Config : Type 0 where
  pub port : ℕ
  pub hooks_api_key : String
  pub kratos_admin_url : String
  pub hydra_admin_url : String
  pub bff_internal_url : String
  pub bff_internal_api_key : String
  pub registration_handler : Option WebhookConfig
  pub login_claims_handler : Option WebhookConfig
  pub verification_handler : Option WebhookConfig
  pub profile_apis : Map String (List ProfileApiConfig)
  pub require_verified_email : Bool
  pub request_timeout_secs : ℕ
  pub upstream_timeout_secs : ℕ

-- What a setting is that the deployer leaves out.
unfoldable pub default : Config
default = record {
  port = 1983;
  hooks_api_key = "";
  kratos_admin_url = "http://localhost:4434";
  hydra_admin_url = "http://localhost:4445";
  bff_internal_url = "http://localhost:8082";
  bff_internal_api_key = "";
  registration_handler = none;
  login_claims_handler = none;
  verification_handler = none;
  profile_apis = [];
  require_verified_email = true;
  request_timeout_secs = 30;
  upstream_timeout_secs = 10;
}

abbrev pub min_prod_api_key_len : ℕ
min_prod_api_key_len = 16

abbrev pub u64_max : ℕ
u64_max = 18446744073709551615

-- `n.saturating_mul(2)` on u64.
unfoldable pub twice : ℕ → ℕ
twice n = if leb (2 * n) u64_max then 2 * n else u64_max

abbrev pub handlers : Config → List (String × Option WebhookConfig)
handlers c =
    ("registration_handler", c.registration_handler)
    ∷ ("login_claims_handler", c.login_claims_handler)
    ∷ ("verification_handler", c.verification_handler)
    ∷ []

abbrev pub is_http : Url → Bool
is_http url = (url.scheme == "http" || url.scheme == "https") && is_some url.host

unfoldable pub is_local : Option Host → Bool
is_local (some (domain name)) = name == "localhost"
is_local (some (address loopback)) = loopback
is_local none = false

abbrev pub is_private : Url → Bool
is_private url = url.scheme == "https" || is_local url.host

-- Every hook runs under at most half the time of a request.
abbrev pub fits : ℕ → WebhookConfig → Bool
fits request_timeout_secs handler =
    ltb 0 handler.timeout_secs && leb (twice handler.timeout_secs) request_timeout_secs

unfoldable pub check_fits : ℕ → List (String × Option WebhookConfig) → Result ConfigError (Unit {0})
check_fits request_timeout_secs [] = ok tt
check_fits request_timeout_secs ((what, none) ∷ rest) = check_fits request_timeout_secs rest
check_fits request_timeout_secs ((what, some handler) ∷ rest) =
    ensure (fits request_timeout_secs handler) what >>= λ (_ : Unit {0}).
    check_fits request_timeout_secs rest

unfoldable pub require_api_keys : Config → Result ConfigError (Unit {0})
require_api_keys c = ensure (not (c.hooks_api_key == "")) "WA_HOOKS_API_KEY" >>= λ (_ : Unit {0}).
    ensure (not (c.bff_internal_api_key == "")) "WA_BFF_INTERNAL_API_KEY"

-- In prod the URLs must be set: their defaults are localhost addresses.
unfoldable pub check_urls_set : User → Profile → Result ConfigError (Unit {0})
check_urls_set user dev = ok tt
check_urls_set user prod =
    ensure (user.contains "kratos_admin_url") "kratos_admin_url" >>= λ (_ : Unit {0}).
    ensure (user.contains "hydra_admin_url") "hydra_admin_url" >>= λ (_ : Unit {0}).
    ensure (user.contains "bff_internal_url") "bff_internal_url"

module _ (parse : String → Option Url) where
  unfoldable pub require_https_or_loopback : String → String → Result ConfigError (Unit {0})
  require_https_or_loopback what url = ensure (is_some_and is_private (parse url)) what

  -- The URL as it is stored.
  unfoldable pub check_upstream : String → String → Result ConfigError String
  check_upstream var url =
      ensure (is_some_and is_http (parse url)) var >>= λ (_ : Unit {0}). ok (trim_end slash url)

  unfoldable pub check_handlers :
      List (String × Option WebhookConfig) → Result ConfigError (Unit {0})
  check_handlers [] = ok tt
  check_handlers ((what, none) ∷ rest) = check_handlers rest
  check_handlers ((what, some handler) ∷ rest) =
      require_https_or_loopback what handler.url >>= λ (_ : Unit {0}). check_handlers rest

  unfoldable pub check_apis : List ProfileApiConfig → Result ConfigError (Unit {0})
  check_apis [] = ok tt
  check_apis (api ∷ apis) =
      require_https_or_loopback "profile api url" api.url >>= λ (_ : Unit {0}). check_apis apis

  unfoldable pub check_all_apis : Map String (List ProfileApiConfig) → Result ConfigError (Unit {0})
  check_all_apis [] = ok tt
  check_all_apis ((provider, apis) ∷ rest) =
      check_apis apis >>= λ (_ : Unit {0}). check_all_apis rest

  unfoldable pub validate : Config → Result ConfigError Config
  validate c = check_upstream "WA_KRATOS_ADMIN_URL" c.kratos_admin_url >>= λ kratos.
      check_upstream "WA_HYDRA_ADMIN_URL" c.hydra_admin_url >>= λ hydra.
      check_upstream "WA_BFF_INTERNAL_URL" c.bff_internal_url >>= λ bff.
      check_handlers (handlers c) >>= λ (_ : Unit {0}).
      check_all_apis c.profile_apis >>= λ (_ : Unit {0}).
      ensure (ltb 0 c.request_timeout_secs && ltb 0 c.upstream_timeout_secs) "timeouts"
      >>= λ (_ : Unit {0}).
          ensure (ltb (twice c.upstream_timeout_secs) c.request_timeout_secs)
            "upstream_timeout_secs"
          >>= λ (_ : Unit {0}). check_fits c.request_timeout_secs (handlers c) >>= λ (_ : Unit {0}).
              ok (record c {
                kratos_admin_url = kratos;
                hydra_admin_url = hydra;
                bff_internal_url = bff;
              })

  -- `extracted` is what the library makes of the defaults and the settings.
  unfoldable pub load : User → Result ConfigError Config → Result ConfigError Config
  load user extracted = profile user >>= λ p. check_urls_set user p >>= λ (_ : Unit {0}).
      extracted >>= λ c.
      ensure
        (not (is_prod p)
          || byte_len c.hooks_api_key == 0
          || leb min_prod_api_key_len (byte_len c.hooks_api_key))
        "hooks_api_key"
      >>= λ (_ : Unit {0}). validate c
