-- ===== src/Hooks/Config/Tests.antt =====
-- Settings of hooks, and the theorems at them.
use weave_auth.Texts.{trim_end, byte_len}
use weave_auth.Prelude.{
  arith, ◌≡◌, refl, if◌then◌else◌, ◌==◌, text_key, number_key, String, true, Option, some, ok, err,
}
use weave_auth.Common.Config.{Profile, prod, Url, User, refused, domain, profile}
use weave_auth.Hooks.Config.{
  is_local, check_fits, twice, check_all_apis, require_https_or_loopback, check_handlers,
  check_upstream, validate, check_urls_set, none, Config, WebhookConfig, default, load,
  require_api_keys,
}
use weave_auth.Hooks.Config.Accepted.{IsServed, load-IsServed}

abbrev plain_url : Url
plain_url = record {
  scheme = "http";
  host = some (domain "kratos");
  username = "";
  password = none;
  path = "/";
  query = none;
  fragment = none;
  origin = "";
}

abbrev parse : String → Option Url
parse s =
    some
      (if s == "https://example.com/hook" then record plain_url { scheme = "https" } else plain_url)

abbrev deployer : User
deployer = record { contains = λ key. true; profile_named = some prod }

abbrev handler_at : String → WebhookConfig
handler_at place = record { url = place; timeout_secs = 15; bearer_token = none }

abbrev settings : Config
settings = record default {
  hooks_api_key = "0123456789abcdef";
  bff_internal_api_key = "key";
  request_timeout_secs = 30;
  kratos_admin_url = "http://kratos:4434/";
  registration_handler = some (handler_at "https://example.com/hook");
}

abbrev served : Config
served = record settings { kratos_admin_url = "http://kratos:4434" }

loaded : load parse deployer (ok settings) ≡ ok served
unfolding load profile check_urls_set byte_len validate check_upstream default check_handlers
    require_https_or_loopback check_all_apis twice check_fits trim_end is_local
loaded = refl

has_keys : require_api_keys served ≡ ok tt
unfolding require_api_keys load profile check_urls_set byte_len validate check_upstream default
    check_handlers require_https_or_loopback is_local check_all_apis twice
has_keys = refl

plain_handler_refused :
    load parse deployer
      (ok (record settings { registration_handler = some (handler_at "http://example.com/hook") }))
    ≡ err (refused "registration_handler")
unfolding load profile check_urls_set byte_len validate check_upstream default check_handlers
    require_https_or_loopback is_local check_all_apis twice
plain_handler_refused = refl

long_upstream_refused :
    load parse deployer (ok (record settings { upstream_timeout_secs = 15 }))
    ≡ err (refused "upstream_timeout_secs")
unfolding load profile check_urls_set byte_len validate check_upstream default check_handlers
    require_https_or_loopback check_all_apis twice
long_upstream_refused = refl

load-IsServed_example : (p : Profile) × (profile deployer ≡ ok p) × IsServed parse p served
load-IsServed_example =
    load-IsServed parse deployer (ok settings) served loaded has_keys (ground arith)
