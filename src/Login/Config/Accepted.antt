-- ===== src/Login/Config/Accepted.antt =====
-- What holds of a configuration that login starts with.
use weave_auth.Prelude.{
  ℕ, ◌≤◌, String, true, false, not, Option, none, some, [], ◌∷◌, ◌==◌, ◌||◌, ◌≡◌, ◌≢◌, refl, arith,
  subst, any, is_some_and, Result, ok, steps_ok, ok_same, text_key, number_key,
}
use weave_auth.Common.Config.{
  Profile, dev, prod, is_prod, Url, User, ConfigError, profile, is_https, base, origin,
  require_https, require_https_in_prod,
}
use weave_auth.Common.Config.Checks.{ensured, ensured_last}
use weave_auth.Login.Config.{
  Config, too_wide_to_trust, filled, is_web_scheme, check_default, has_break, check_limits,
  check_internal_set, with_port, with_default, with_dev_limits, trimmed, load,
}

module _ (parse : String → Option Url) (p : Profile) where
  -- Where a page sends a browser that names no destination.
  abbrev pub IsDestination : Option String → Type 0
  IsDestination none = Unit {0}
  IsDestination (some raw) =
      (raw ≢ "")
      × (is_some_and is_web_scheme (parse raw) ≡ true)
      × (is_prod p ≡ true → is_some_and is_https (parse raw) ≡ true)

  https_of :
      (name raw : String)
      → require_https_in_prod parse p ((name, raw, base) ∷ []) ≡ ok tt
      → is_prod p ≡ true
      → is_some_and is_https (parse raw) ≡ true
  unfolding require_https_in_prod require_https
  https_of name raw h prod_profile = ground (arith, h, prod_profile)

  not_empty : (uri : Option String) (raw : String) → filled uri ≡ some raw → raw ≢ ""
  not_empty none raw h e = cc
  not_empty (some other) raw h e =
      ground (arith, h, e, text_key.same_iff other "", text_key.same_iff raw "")

  usable_default :
      (o : Option String)
      → ((raw : String) → o ≡ some raw → raw ≢ "")
      → check_default parse p o ≡ ok tt
      → IsDestination o
  unfolding check_default
  usable_default none full h = tt
  usable_default (some raw) full h =
      let (a, h1) = ensured (is_some_and is_web_scheme (parse raw)) _ _ h in
      (full raw refl, a, https_of "WA_DEFAULT_REDIRECT_URI" raw h1)

  checked_default :
      (uri : Option String)
      → check_default parse p (filled uri) ≡ ok tt
      → IsDestination (filled uri)
  checked_default uri h = usable_default (filled uri) (not_empty uri) h

-- What a configuration that login starts with guarantees.
pub record IsReady (parse : String → Option Url) (p : Profile) (c : Config) : Type 0 where
  pub cookie : (c.kratos_session_cookie ≢ "") × (has_break c.kratos_session_cookie ≡ false)
  pub limits : (1 ≤ c.rate_limit_max_attempts) × (1 ≤ c.rate_limit_proxy_max_attempts)
  pub proxies : is_prod p ≡ true → any too_wide_to_trust c.trusted_proxies ≡ false
  pub redirect : IsDestination parse p c.default_redirect_uri

limits_ok :
    (parse : String → Option Url) (p : Profile) (c : Config)
    → check_limits p c ≡ ok tt
    → IsDestination parse p c.default_redirect_uri
    → IsReady parse p c
unfolding check_limits
limits_ok parse p c h redirect =
    let (name, h1) =
      ensured (not (c.kratos_session_cookie == "" || has_break c.kratos_session_cookie)) _ _ h in
    let (auth, h2) = ensured (not (c.rate_limit_max_attempts == 0)) _ _ h1 in
    let (proxy, h3) = ensured (not (c.rate_limit_proxy_max_attempts == 0)) _ _ h2 in
    let last =
      ensured_last (not (is_prod p) || not (any too_wide_to_trust c.trusted_proxies)) _ h3 in
    record {
      cookie = (
        λ e. ground (arith, name, e, text_key.same_iff c.kratos_session_cookie ""),
        ground (arith, name),
      );
      limits = (ground (arith, auth), ground (arith, proxy));
      proxies = λ q. ground (arith, last, q);
      redirect = redirect;
    }

with_dev_limits-IsReady :
    (parse : String → Option Url) (user : User) (p : Profile) (c : Config)
    → IsReady parse p c
    → IsReady parse p (with_dev_limits user p c)
unfolding with_dev_limits
with_dev_limits-IsReady parse user prod c h = h
with_dev_limits-IsReady parse user dev c h = record {
  cookie = h.cookie;
  limits = (ground (arith, h.limits), ground (arith, h.limits));
  proxies = h.proxies;
  redirect = h.redirect;
}

-- A configuration that login starts with has: a name of Kratos' cookie that is not empty and has no
-- whitespace, `=` or `;`; positive limits; in prod no network of proxies wider than /8 or, for IPv6, /32;
-- and a default destination, if any, that is not empty, an http or https URL, and in prod https.
pub load-IsReady :
    (parse : String → Option Url) (user : User) (port : Option (Option ℕ))
    (extracted : Result ConfigError Config) (c : Config)
    → load parse user port extracted ≡ ok c
    → (p : Profile) × (profile user ≡ ok p) × IsReady parse p c
unfolding load with_default
load-IsReady parse user port extracted c h =
    let (d, _, h1) = steps_ok extracted _ h in
    let (p, named, h2) = steps_ok (profile user) _ h1 in
    let (_, _, h3) = steps_ok (check_internal_set user p) _ h2 in
    let (_, _, h4) =
      steps_ok
        (require_https_in_prod parse p
          (("WA_BFF_URL", d.bff_url, base) ∷ ("WA_LOGIN_PUBLIC_URL", d.own_origin, origin) ∷ []))
        _ h3 in
    let (e, _, h5) = steps_ok (with_port port (trimmed d)) _ h4 in
    let (_, uri, h6) =
      steps_ok (check_default parse p (with_default e).default_redirect_uri) _ h5 in
    let (_, limits, h7) = steps_ok (check_limits p (with_default e)) _ h6 in
    let ready =
      limits_ok parse p (with_default e) limits
        (checked_default parse p e.default_redirect_uri uri) in
    (
      p,
      named,
      subst (IsReady parse p) (ok_same refl h7)
          (with_dev_limits-IsReady parse user p (with_default e) ready),
    )
