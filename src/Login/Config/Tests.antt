-- ===== src/Login/Config/Tests.antt =====
-- Settings of login, and the theorem at them.
use weave_auth.Texts.{trim_end, is_whitespace}
use weave_auth.Prelude.{◌≡◌, refl, String, true, Option, none, some, [], ◌∷◌, ok, err}
use weave_auth.Common.Config.{
  require_https, require_https_in_prod, Profile, prod, Url, User, refused, domain, profile, v4,
}
use weave_auth.Login.Config.{
  with_dev_limits, too_wide_to_trust, has_break, check_limits, trimmed, with_default, check_default,
  with_port, check_internal_set, Config, default, load,
}
use weave_auth.Login.Config.Accepted.{IsReady, load-IsReady}

abbrev https_url : Url
https_url = record {
  scheme = "https";
  host = some (domain "example.com");
  username = "";
  password = none;
  path = "/";
  query = none;
  fragment = none;
  origin = "";
}

abbrev parse : String → Option Url
parse s = some https_url

abbrev deployer : User
deployer = record { contains = λ key. true; profile_named = some prod }

abbrev settings : Config
settings = record default {
  own_origin = "https://login.example.com/";
  bff_url = "https://app.example.com";
  default_redirect_uri = some "https://app.example.com/home";
  trusted_proxies = v4 8 ∷ [];
}

abbrev ready : Config
ready = record settings { own_origin = "https://login.example.com"; port = 9999 }

loaded : load parse deployer (some (some 9999)) (ok settings) ≡ ok ready
unfolding load profile check_internal_set require_https_in_prod require_https with_port
    check_default with_default trimmed check_limits default has_break is_whitespace
    too_wide_to_trust with_dev_limits trim_end
loaded = refl

broken_name_refused :
    load parse deployer none (ok (record settings { kratos_session_cookie = "a=b" }))
    ≡ err (refused "kratos_session_cookie")
unfolding load profile check_internal_set require_https_in_prod require_https with_port
    check_default with_default trimmed check_limits has_break is_whitespace default
    too_wide_to_trust
broken_name_refused = refl

wide_network_refused :
    load parse deployer none (ok (record settings { trusted_proxies = v4 7 ∷ [] }))
    ≡ err (refused "trusted_proxies")
unfolding load profile check_internal_set require_https_in_prod require_https with_port
    check_default with_default trimmed check_limits default has_break is_whitespace
    too_wide_to_trust
wide_network_refused = refl

load-IsReady_example : (p : Profile) × (profile deployer ≡ ok p) × IsReady parse p ready
load-IsReady_example = load-IsReady parse deployer (some (some 9999)) (ok settings) ready loaded
