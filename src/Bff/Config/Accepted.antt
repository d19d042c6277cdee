-- ===== src/Bff/Config/Accepted.antt =====
-- What holds of a configuration that bff starts with.
use weave_auth.Common.Config.Checks.{ensured_last, ensured, all_ok}
use weave_auth.Texts.{byte_len}
use weave_auth.Prelude.{
  ok_same, subst, ◌≤◌, String, true, false, not, Option, [], ◌∷◌, map, ◌≡◌, ◌≢◌, refl, arith, ◌==◌,
  ◌||◌, leb, contains, Distinct, All, is_some_and, Result, ok, steps_ok, text_key, number_key,
}
use weave_auth.Common.Config.{
  Profile, dev, prod, is_prod, Url, User, ConfigError, profile, base, require_https_in_prod,
}
use weave_auth.Bff.Cookies.{login_cookie, has_name_prefix, host_cookie_prefix, secure_cookie_prefix}
use weave_auth.Bff.Cookies.Reading.{is_sent_name}
use weave_auth.Bff.Config.{
  is_cookie_token, is_web, Config, min_prod_api_key_len, committed_dev_secrets, check_routes,
  check_redirect_uri_allowlist, is_allowed_entry, is_trusted_origin, secure_cookies, session_cookie,
  is_ttl, is_nil,
}
use weave_auth.Bff.Config.Load.{
  check_default, check_secrets, check_session_cookie, check_limits, check_all, with_dev_limits,
  with_origins, trimmed, load, check_hydra_set,
}
use weave_auth.Bff.Config.Names.{cookie_name-is_sent_name}
use weave_auth.Bff.Config.Routes.{IsSafeRoute, check_routes_ok, check_allowlist_ok}

-- What a configuration that bff starts with guarantees.
pub record IsSound (parse : String → Option Url) (p : Profile) (c : Config) : Type 0 where
  pub sent : is_sent_name (session_cookie parse c) ≡ true
  pub apart : session_cookie parse c ≢ login_cookie (secure_cookies parse c)
  pub kept :
      secure_cookies parse c ≡ false
      → (has_name_prefix c.session_cookie_name host_cookie_prefix ≡ false)
        × (has_name_prefix c.session_cookie_name secure_cookie_prefix ≡ false)
  pub routes : All (IsSafeRoute parse p) c.routes
  pub distinct : Distinct (map (λ r. r.path_prefix) c.routes)
  pub allowlist : All (λ uri. is_allowed_entry parse p uri ≡ true) c.redirect_uri_allowlist
  pub listed : is_prod p ≡ true → is_nil c.redirect_uri_allowlist ≡ false
  pub origins : All (λ o. is_trusted_origin parse p o ≡ true) c.trusted_origins
  pub ttl : is_ttl c.hydra_refresh_token_ttl_secs ≡ true
  pub ports : c.port ≢ c.internal_port
  pub limits : (1 ≤ c.rate_limit_max_attempts) × (1 ≤ c.rate_limit_proxy_max_attempts)
  pub key :
      is_prod p ≡ true
      → (min_prod_api_key_len ≤ byte_len c.internal_api_key)
        × (contains c.internal_api_key committed_dev_secrets ≡ false)
        × (contains c.bff_client_secret committed_dev_secrets ≡ false)

module _ (parse : String → Option Url) (p : Profile) (c : Config) where
  secrets_ok :
      check_secrets parse p c ≡ ok tt
      → is_prod p ≡ true
      → (min_prod_api_key_len ≤ byte_len c.internal_api_key)
        × (contains c.internal_api_key committed_dev_secrets ≡ false)
        × (contains c.bff_client_secret committed_dev_secrets ≡ false)
  unfolding check_secrets
  secrets_ok h q =
      let (_, h1) = ensured (is_some_and is_web (parse c.hydra_internal_url)) _ _ h in
      let (_, h2) = ensured (not (c.bff_client_id == "")) _ _ h1 in
      let (_, h3) = ensured (not (c.bff_client_secret == "")) _ _ h2 in
      let (_, h4) = ensured (leb 1 (byte_len c.internal_api_key)) _ _ h3 in
      let (a, h5) =
        ensured (not (is_prod p) || leb min_prod_api_key_len (byte_len c.internal_api_key)) _ _
          h4 in
      let last = ensured_last _ _ h5 in
      (ground (arith, a, q), ground (arith, last, q), ground (arith, last, q))

  limits_ok :
      check_limits parse p c ≡ ok tt
      → (is_ttl c.hydra_refresh_token_ttl_secs ≡ true)
        × (c.port ≢ c.internal_port)
        × All (λ uri. is_allowed_entry parse p uri ≡ true) c.redirect_uri_allowlist
        × (is_prod p ≡ true → is_nil c.redirect_uri_allowlist ≡ false)
        × (1 ≤ c.rate_limit_max_attempts)
        × (1 ≤ c.rate_limit_proxy_max_attempts)
  unfolding check_limits
  limits_ok h =
      let (ttl, h1) = ensured (is_ttl c.hydra_refresh_token_ttl_secs) _ _ h in
      let (ports, h2) = ensured (not (c.port == c.internal_port)) _ _ h1 in
      let (_, uris, h3) =
        steps_ok (check_redirect_uri_allowlist parse c.redirect_uri_allowlist p) _ h2 in
      let (_, _, h4) = steps_ok (check_default parse c.default_redirect_uri p) _ h3 in
      let (auth, h5) = ensured (not (c.rate_limit_max_attempts == 0)) _ _ h4 in
      let (proxy, _) = ensured (not (c.rate_limit_proxy_max_attempts == 0)) _ _ h5 in
      let (every, some_uri) = check_allowlist_ok parse p c.redirect_uri_allowlist uris in
      (
        ttl,
        λ e. ground (arith, ports, e, number_key.same_iff c.port c.internal_port),
        every,
        some_uri,
        ground (arith, auth),
        ground (arith, proxy),
      )

  session_cookie-is_sent_name :
      is_cookie_token c.session_cookie_name ≡ true → is_sent_name (session_cookie parse c) ≡ true
  unfolding session_cookie
  session_cookie-is_sent_name h =
      cookie_name-is_sent_name (secure_cookies parse c) c.session_cookie_name h

  cookie_ok :
      check_session_cookie parse c ≡ ok tt
      → (is_sent_name (session_cookie parse c) ≡ true)
        × (session_cookie parse c ≢ login_cookie (secure_cookies parse c))
        × (secure_cookies parse c ≡ false
            → (has_name_prefix c.session_cookie_name host_cookie_prefix ≡ false)
              × (has_name_prefix c.session_cookie_name secure_cookie_prefix ≡ false))
  unfolding check_session_cookie
  cookie_ok h =
      let secure = secure_cookies parse c in
      let (token, h1) = ensured (is_cookie_token c.session_cookie_name) _ _ h in
      let (apart, h2) = ensured (not (session_cookie parse c == login_cookie secure)) _ _ h1 in
      let last = ensured_last _ _ h2 in
      (
        session_cookie-is_sent_name token,
        λ e.
            ground
              (arith, apart, e, text_key.same_iff (session_cookie parse c) (login_cookie secure)),
        λ q. (ground (arith, last, q), ground (arith, last, q)),
      )

  check_all-IsSound : check_all parse p c ≡ ok tt → IsSound parse p (with_origins c)
  unfolding check_all with_origins check_routes session_cookie secure_cookies
  check_all-IsSound h =
      let (_, secrets, h1) = steps_ok (check_secrets parse p c) _ h in
      let (_, cookie, h2) = steps_ok (check_session_cookie parse c) _ h1 in
      let (_, routes, h3) = steps_ok (check_routes parse c.routes p) _ h2 in
      let (_, limits, h4) = steps_ok (check_limits parse p c) _ h3 in
      let (sent, apart, kept) = cookie_ok cookie in
      let (safe, distinct, _) = check_routes_ok parse p [] c.routes routes in
      let (ttl, ports, uris, some_uri, auth, proxy) = limits_ok limits in
      record {
        sent = sent;
        apart = apart;
        kept = kept;
        routes = safe;
        distinct = distinct;
        allowlist = uris;
        listed = some_uri;
        origins = all_ok (is_trusted_origin parse p) _ (ensured_last _ _ h4);
        ttl = ttl;
        ports = ports;
        limits = (auth, proxy);
        key = secrets_ok secrets;
      }

with_dev_limits-IsSound :
    (parse : String → Option Url) (user : User) (p : Profile) (c : Config)
    → IsSound parse p c
    → IsSound parse p (with_dev_limits user p c)
unfolding with_dev_limits session_cookie secure_cookies
with_dev_limits-IsSound parse user prod c h = h
with_dev_limits-IsSound parse user dev c h = record {
  sent = h.sent;
  apart = h.apart;
  kept = h.kept;
  routes = h.routes;
  distinct = h.distinct;
  allowlist = h.allowlist;
  listed = h.listed;
  origins = h.origins;
  ttl = h.ttl;
  ports = h.ports;
  limits = (ground (arith, h.limits), ground (arith, h.limits));
  key = h.key;
}

-- A configuration that bff starts with has: a session cookie that a browser sends back as it is, apart
-- from the login cookie and with no prefix that would make a browser drop it; routes at distinct places
-- that are not bff's own, whose upstreams may get a bearer token; allowed destinations and trusted
-- origins that are what they must be; a positive life of refresh tokens and positive limits; two ports;
-- and in prod a long key, none of the committed secrets and a destination.
pub load-IsSound :
    (parse : String → Option Url) (user : User) (extracted : Result ConfigError Config) (c : Config)
    → load parse user extracted ≡ ok c
    → (p : Profile) × (profile user ≡ ok p) × IsSound parse p c
unfolding load
load-IsSound parse user extracted c h =
    let (p, named, h1) = steps_ok (profile user) _ h in
    let (_, _, h2) = steps_ok (check_hydra_set user p) _ h1 in
    let (d, _, h3) = steps_ok extracted _ h2 in
    let (_, _, h4) =
      steps_ok
        (require_https_in_prod parse p (
          ("WA_BFF_URL", d.bff_url, base) ∷ ("WA_HYDRA_PUBLIC_URL", d.hydra_public_url, base) ∷ []))
        _ h3 in
    let (_, checked, h5) = steps_ok (check_all parse p (trimmed d)) _ h4 in
    let sound =
      with_dev_limits-IsSound parse user p (with_origins (trimmed d))
        (check_all-IsSound parse p (trimmed d) checked) in
    (p, named, subst (IsSound parse p) (ok_same refl h5) sound)
