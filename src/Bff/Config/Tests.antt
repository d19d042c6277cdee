-- ===== src/Bff/Config/Tests.antt =====
-- A configuration that bff starts with, and settings that it refuses.
use weave_auth.Bff.Cookies.{has_name_prefix, cookie_name, login_cookie}
use weave_auth.Texts.{byte_len, ◌<>◌, trim_end, split, has_prefix, has_prefix_in_any_case}
use weave_auth.Bff.Config.{
  secure_cookies, session_cookie, is_token_char, is_cookie_token, too_wide_to_trust,
  is_trusted_origin, is_route_segment, is_route_prefix, is_allowed_entry, check_routes_after,
  check_routes, check_redirect_uri_allowlist, default, Config, RouteConfig,
}
use weave_auth.Bff.Config.Load.{
  check_session_cookie, trimmed, check_secrets, check_all, check_hydra_set, with_origins,
  with_dev_limits, check_limits, load,
}
use weave_auth.Bff.Config.Accepted.{IsSound, load-IsSound}
use weave_auth.Common.Config.{
  domain, require_https, require_https_in_prod, Profile, prod, Url, User, refused, profile,
}
use weave_auth.Prelude.{String, true, Option, none, some, [], ◌∷◌, ◌≡◌, refl, ok, err}

abbrev https_url : String → Url
https_url s = record {
  scheme = "https";
  host = some (domain "example.com");
  username = "";
  password = none;
  path = "/";
  query = none;
  fragment = none;
  origin = s;
}

abbrev parse : String → Option Url
parse s = some (https_url s)

abbrev route_at : String → RouteConfig
route_at prefix = record { path_prefix = prefix; upstream_url = "https://api.example.com" }

abbrev deployer : User
deployer = record { contains = λ key. true; profile_named = some prod }

abbrev settings : Config
settings = record default {
  bff_url = "https://app.example.com";
  hydra_public_url = "https://login.example.com/";
  bff_client_secret = "a-client-secret";
  internal_api_key = "0123456789abcdef";
  redirect_uri_allowlist = "https://app.example.com/" ∷ [];
  routes = route_at "/api" ∷ [];
  trusted_origins = "https://shop.example.com/" ∷ [];
}

abbrev accepted : Config
accepted = record settings {
  hydra_public_url = "https://login.example.com";
  trusted_origins = "https://shop.example.com" ∷ [];
}

config_accepted : load parse deployer (ok settings) ≡ ok accepted
unfolding load has_prefix_in_any_case check_limits with_dev_limits with_origins
    check_redirect_uri_allowlist check_routes check_routes_after is_allowed_entry is_route_prefix
    is_route_segment is_trusted_origin too_wide_to_trust login_cookie has_prefix split trim_end ◌<>◌
    profile check_hydra_set require_https_in_prod require_https check_all check_secrets trimmed
    default byte_len check_session_cookie is_cookie_token is_token_char session_cookie cookie_name
    secure_cookies has_name_prefix
config_accepted = refl

short_key_refused :
    load parse deployer (ok (record settings { internal_api_key = "0123456789abcde" }))
    ≡ err (refused "internal_api_key")
unfolding load profile check_hydra_set require_https_in_prod require_https check_all check_secrets
    trimmed default byte_len has_prefix_in_any_case check_limits with_dev_limits with_origins
    check_redirect_uri_allowlist check_routes check_routes_after is_allowed_entry is_route_prefix
    is_route_segment is_trusted_origin too_wide_to_trust login_cookie has_prefix split trim_end ◌<>◌
    check_session_cookie is_cookie_token is_token_char session_cookie cookie_name secure_cookies
    has_name_prefix
short_key_refused = refl

reserved_refused :
    load parse deployer (ok (record settings { routes = route_at "/health" ∷ [] }))
    ≡ err (refused "path_prefix")
unfolding load has_prefix_in_any_case check_limits with_dev_limits with_origins
    check_redirect_uri_allowlist check_routes check_routes_after is_allowed_entry is_route_prefix
    is_route_segment is_trusted_origin too_wide_to_trust login_cookie has_prefix split trim_end ◌<>◌
    profile check_hydra_set require_https_in_prod require_https check_all check_secrets trimmed
    default byte_len check_session_cookie is_cookie_token is_token_char session_cookie cookie_name
    secure_cookies has_name_prefix
reserved_refused = refl

load-IsSound_example : (p : Profile) × (profile deployer ≡ ok p) × IsSound parse p accepted
load-IsSound_example = load-IsSound parse deployer (ok settings) accepted config_accepted
