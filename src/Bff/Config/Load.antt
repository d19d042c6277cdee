-- ===== src/Bff/Config/Load.antt =====
-- bff/src/config.rs, `Config::load`, from the merged settings on: its checks in their order.
use weave_auth.Prelude.{
  String, not, Option, none, some, [], ◌∷◌, ◌==◌, ◌||◌, leb, any, all, contains, map, is_some_and,
  if◌then◌else◌, Result, ok, ◌>>=◌, text_key, number_key,
}
use weave_auth.Texts.{byte_len, slash, trim_end}
use weave_auth.Common.Config.{
  Profile, dev, prod, is_prod, Url, User, ConfigError, ensure, profile, base, require_https_in_prod,
}
use weave_auth.Bff.Cookies.{login_cookie, has_name_prefix, host_cookie_prefix, secure_cookie_prefix}
use weave_auth.Bff.Config.{
  Config, min_prod_api_key_len, committed_dev_secrets, is_web, is_cookie_token, check_routes,
  check_redirect_uri_allowlist, too_wide_to_trust, is_trusted_origin, secure_cookies,
  session_cookie, is_ttl,
}

-- In prod both of Hydra's URLs must be set: their defaults are localhost addresses.
unfoldable pub check_hydra_set : User → Profile → Result ConfigError (Unit {0})
check_hydra_set user dev = ok tt
check_hydra_set user prod =
    ensure (user.contains "hydra_public_url") "hydra_public_url" >>= λ (_ : Unit {0}).
    ensure (user.contains "hydra_internal_url") "hydra_internal_url"

unfoldable pub trimmed : Config → Config
trimmed c = record c {
  hydra_public_url = trim_end slash c.hydra_public_url;
  hydra_internal_url = trim_end slash c.hydra_internal_url;
}

-- The limits that were left at their defaults are wider in dev.
unfoldable pub with_dev_limits : User → Profile → Config → Config
with_dev_limits user prod c = c
with_dev_limits user dev c = record c {
  rate_limit_max_attempts =
      if not (user.contains "rate_limit_max_attempts") then 100 else c.rate_limit_max_attempts;
  rate_limit_proxy_max_attempts =
      if not (user.contains "rate_limit_proxy_max_attempts")
      then 6000
      else c.rate_limit_proxy_max_attempts;
}

unfoldable pub with_origins : Config → Config
with_origins c = record c { trusted_origins = map (trim_end slash) c.trusted_origins }

module _ (parse : String → Option Url) where
  unfoldable pub check_secrets : Profile → Config → Result ConfigError (Unit {0})
  check_secrets p c =
      ensure (is_some_and is_web (parse c.hydra_internal_url)) "hydra_internal_url"
      >>= λ (_ : Unit {0}).
          ensure (not (c.bff_client_id == "")) "bff_client_id" >>= λ (_ : Unit {0}).
          ensure (not (c.bff_client_secret == "")) "bff_client_secret" >>= λ (_ : Unit {0}).
          ensure (leb 1 (byte_len c.internal_api_key)) "internal_api_key" >>= λ (_ : Unit {0}).
          ensure (not (is_prod p) || leb min_prod_api_key_len (byte_len c.internal_api_key))
            "internal_api_key"
          >>= λ (_ : Unit {0}).
              ensure
                (not (is_prod p)
                  || not (
                      any (λ secret. contains secret committed_dev_secrets)
                        (c.bff_client_secret ∷ c.internal_api_key ∷ [])))
                "bff_client_secret"

  unfoldable pub check_session_cookie : Config → Result ConfigError (Unit {0})
  check_session_cookie c =
      ensure (is_cookie_token c.session_cookie_name) "session_cookie_name" >>= λ (_ : Unit {0}).
      ensure (not (session_cookie parse c == login_cookie (secure_cookies parse c)))
        "session_cookie_name"
      >>= λ (_ : Unit {0}).
          ensure
            (secure_cookies parse c
              || not (
                  has_name_prefix c.session_cookie_name host_cookie_prefix
                  || has_name_prefix c.session_cookie_name secure_cookie_prefix))
            "session_cookie_name"

  abbrev pub check_default : Option String → Profile → Result ConfigError (Unit {0})
  check_default none p = ok tt
  check_default (some uri) p = check_redirect_uri_allowlist parse (uri ∷ []) p

  unfoldable pub check_limits : Profile → Config → Result ConfigError (Unit {0})
  check_limits p c =
      ensure (is_ttl c.hydra_refresh_token_ttl_secs) "hydra_refresh_token_ttl_secs"
      >>= λ (_ : Unit {0}).
          ensure (not (c.port == c.internal_port)) "internal_port" >>= λ (_ : Unit {0}).
          check_redirect_uri_allowlist parse c.redirect_uri_allowlist p >>= λ (_ : Unit {0}).
          check_default c.default_redirect_uri p >>= λ (_ : Unit {0}).
          ensure (not (c.rate_limit_max_attempts == 0)) "rate_limit_max_attempts"
          >>= λ (_ : Unit {0}).
              ensure (not (c.rate_limit_proxy_max_attempts == 0)) "rate_limit_proxy_max_attempts"
              >>= λ (_ : Unit {0}).
                  ensure (not (is_prod p) || not (any too_wide_to_trust c.trusted_proxies))
                    "trusted_proxies"

  unfoldable pub check_all : Profile → Config → Result ConfigError (Unit {0})
  check_all p c = check_secrets p c >>= λ (_ : Unit {0}).
      check_session_cookie c >>= λ (_ : Unit {0}).
      check_routes parse c.routes p >>= λ (_ : Unit {0}). check_limits p c >>= λ (_ : Unit {0}).
      ensure (all (is_trusted_origin parse p) (with_origins c).trusted_origins) "trusted_origins"

  -- `extracted` is what the library makes of the defaults and the settings.
  unfoldable pub load : User → Result ConfigError Config → Result ConfigError Config
  load user extracted = profile user >>= λ p. check_hydra_set user p >>= λ (_ : Unit {0}).
      extracted >>= λ c.
      require_https_in_prod parse p
        (("WA_BFF_URL", c.bff_url, base) ∷ ("WA_HYDRA_PUBLIC_URL", c.hydra_public_url, base) ∷ [])
      >>= λ (_ : Unit {0}). check_all p (trimmed c) >>= λ (_ : Unit {0}).
          ok (with_dev_limits user p (with_origins (trimmed c)))
