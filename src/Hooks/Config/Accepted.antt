-- ===== src/Hooks/Config/Accepted.antt =====
-- What holds of a configuration that hooks serves with.
use weave_auth.Prelude.{
  ap, sym, ok_same, ◌*◌, ℕ, ◌≤◌, ◌<◌, String, true, not, Option, none, some, List, [], ◌∷◌, ◌==◌,
  ◌&&◌, ◌||◌, ◌≡◌, ◌≢◌, refl, arith, subst, leb, ltb, All, is_some_and, Result, ok, steps_ok,
  text_key, number_key,
}
use Prim.Native.String.{[] as ε, ◌∷◌ as ◌▸◌}
use weave_auth.Texts.{byte_len}
use weave_auth.Maps.{Map}
use weave_auth.Common.Config.{Profile, is_prod, Url, User, ConfigError, profile}
use weave_auth.Common.Config.Checks.{ensured, ensured_last}
use weave_auth.Hooks.ProfileApi.{ProfileApiConfig}
use weave_auth.Hooks.Config.{
  WebhookConfig, Config, min_prod_api_key_len, u64_max, twice, handlers, is_private, fits,
  check_fits, require_api_keys, check_urls_set, require_https_or_loopback, check_upstream,
  check_handlers, check_apis, check_all_apis, validate, load,
}

byte_len_zero : (s : String) → byte_len s ≡ 0 → s ≡ ""
unfolding byte_len
byte_len_zero ε h = refl
byte_len_zero (c ▸ s) h = ground (arith, h)

twice_le : (n m : ℕ) → m < u64_max → leb (twice n) m ≡ true → 2 * n ≤ m
unfolding twice
twice_le n m bound h = ground (arith, bound, h)

twice_lt : (n m : ℕ) → m < u64_max → ltb (twice n) m ≡ true → 2 * n < m
unfolding twice
twice_lt n m bound h = ground (arith, bound, h)

-- The handler answers within half the time of a request, or is given up.
abbrev pub FitsIn : ℕ → Option WebhookConfig → Type 0
FitsIn request none = Unit {0}
FitsIn request (some handler) = (1 ≤ handler.timeout_secs) × (2 * handler.timeout_secs ≤ request)

fits_ok :
    (request : ℕ) (hs : List (String × Option WebhookConfig))
    → request < u64_max
    → check_fits request hs ≡ ok tt
    → All (λ h. FitsIn request h.1) hs
unfolding check_fits
fits_ok request [] bound h = tt
fits_ok request ((what, none) ∷ rest) bound h = (tt, fits_ok request rest bound h)
fits_ok request ((what, some handler) ∷ rest) bound h =
    let (a, h1) = ensured (fits request handler) _ _ h in
    (
      (ground (arith, a), twice_le handler.timeout_secs request bound (ground (arith, a))),
      fits_ok request rest bound h1,
    )

module _ (parse : String → Option Url) where
  -- What is sent there is encrypted, or stays on the host.
  abbrev pub IsPrivateUrl : String → Type 0
  IsPrivateUrl url = is_some_and is_private (parse url) ≡ true

  abbrev pub HasPrivateUrl : Option WebhookConfig → Type 0
  HasPrivateUrl none = Unit {0}
  HasPrivateUrl (some handler) = IsPrivateUrl handler.url

  handlers_ok :
      (hs : List (String × Option WebhookConfig))
      → check_handlers parse hs ≡ ok tt
      → All (λ h. HasPrivateUrl h.1) hs
  unfolding check_handlers require_https_or_loopback
  handlers_ok [] h = tt
  handlers_ok ((what, none) ∷ rest) h = (tt, handlers_ok rest h)
  handlers_ok ((what, some handler) ∷ rest) h =
      let (a, h1) = ensured (is_some_and is_private (parse handler.url)) _ _ h in
      (a, handlers_ok rest h1)

  apis_ok :
      (apis : List ProfileApiConfig)
      → check_apis parse apis ≡ ok tt
      → All (λ a. IsPrivateUrl a.url) apis
  unfolding check_apis require_https_or_loopback
  apis_ok [] h = tt
  apis_ok (api ∷ apis) h =
      let (a, h1) = ensured (is_some_and is_private (parse api.url)) _ _ h in (a, apis_ok apis h1)

  every_api_ok :
      (m : Map String (List ProfileApiConfig))
      → check_all_apis parse m ≡ ok tt
      → All (λ e. All (λ a. IsPrivateUrl a.url) e.1) m
  unfolding check_all_apis
  every_api_ok [] h = tt
  every_api_ok ((provider, apis) ∷ rest) h =
      let (_, a, h1) = steps_ok (check_apis parse apis) _ h in
      (apis_ok apis a, every_api_ok rest h1)

-- What a configuration that hooks serves with guarantees.
pub record IsServed (parse : String → Option Url) (p : Profile) (c : Config) : Type 0 where
  pub urls : All (λ h. HasPrivateUrl parse h.1) (handlers c)
  pub apis : All (λ e. All (λ a. IsPrivateUrl parse a.url) e.1) c.profile_apis
  pub upstream :
      (1 ≤ c.upstream_timeout_secs) × (2 * c.upstream_timeout_secs < c.request_timeout_secs)
  pub fit : All (λ h. FitsIn c.request_timeout_secs h.1) (handlers c)
  pub keys : (c.hooks_api_key ≢ "") × (c.bff_internal_api_key ≢ "")
  pub key : is_prod p ≡ true → min_prod_api_key_len ≤ byte_len c.hooks_api_key

api_key_ok :
    (p : Profile) (key : String)
    → (not (is_prod p) || byte_len key == 0 || leb min_prod_api_key_len (byte_len key)) ≡ true
    → key ≢ ""
    → is_prod p ≡ true
    → min_prod_api_key_len ≤ byte_len key
api_key_ok p key h full prod_profile = ground (arith, h, full, prod_profile, byte_len_zero key)

keys_ok :
    (c : Config)
    → require_api_keys c ≡ ok tt
    → (c.hooks_api_key ≢ "") × (c.bff_internal_api_key ≢ "")
unfolding require_api_keys
keys_ok c h =
    let (a, h1) = ensured (not (c.hooks_api_key == "")) _ _ h in
    let b = ensured_last (not (c.bff_internal_api_key == "")) _ h1 in
    (
      λ e. ground (arith, a, e, text_key.same_iff c.hooks_api_key ""),
      λ e. ground (arith, b, e, text_key.same_iff c.bff_internal_api_key ""),
    )

module _ (parse : String → Option Url) (p : Profile) (c : Config) where
  -- What `validate` checks, of the configuration that it gives back.
  validate_ok :
      (d : Config)
      → d.request_timeout_secs < u64_max
      → (not (is_prod p)
          || byte_len c.hooks_api_key == 0
          || leb min_prod_api_key_len (byte_len c.hooks_api_key))
        ≡ true
      → validate parse c ≡ ok d
      → require_api_keys d ≡ ok tt
      → IsServed parse p d
  unfolding validate
  validate_ok d bound long h served =
      let (kratos, _, h1) =
        steps_ok (check_upstream parse "WA_KRATOS_ADMIN_URL" c.kratos_admin_url) _ h in
      let (hydra, _, h2) =
        steps_ok (check_upstream parse "WA_HYDRA_ADMIN_URL" c.hydra_admin_url) _ h1 in
      let (bff, _, h3) =
        steps_ok (check_upstream parse "WA_BFF_INTERNAL_URL" c.bff_internal_url) _ h2 in
      let (_, urls, h4) = steps_ok (check_handlers parse (handlers c)) _ h3 in
      let (_, apis, h5) = steps_ok (check_all_apis parse c.profile_apis) _ h4 in
      let (positive, h6) =
        ensured (ltb 0 c.request_timeout_secs && ltb 0 c.upstream_timeout_secs) _ _ h5 in
      let (half, h7) =
        ensured (ltb (twice c.upstream_timeout_secs) c.request_timeout_secs) _ _ h6 in
      let (_, fit, h8) = steps_ok (check_fits c.request_timeout_secs (handlers c)) _ h7 in
      let same : record c {
        kratos_admin_url = kratos;
        hydra_admin_url = hydra;
        bff_internal_url = bff;
      }
          ≡ d =
        ok_same refl h8 in
      let small : c.request_timeout_secs < u64_max =
        subst (λ x. x < u64_max) (sym (ap (λ e. e.request_timeout_secs) same)) bound in
      let full = keys_ok _ (subst (λ e. require_api_keys e ≡ ok tt) (sym same) served) in
      subst (IsServed parse p) same (record {
        urls = handlers_ok parse (handlers c) urls;
        apis = every_api_ok parse c.profile_apis apis;
        upstream = (
          ground (arith, positive),
          twice_lt c.upstream_timeout_secs c.request_timeout_secs small half,
        );
        fit = fits_ok c.request_timeout_secs (handlers c) small fit;
        keys = full;
        key = api_key_ok p c.hooks_api_key long full.0;
      })

-- A configuration that hooks loads and serves with, and that gives requests less than the largest time:
-- the handlers and the profile APIs are called over https or on a loopback host; a call to Kratos, Hydra
-- or bff is given up within less than half the time of a request, and a handler within half of it; both
-- API keys are set, and in prod hooks' own has at least 16 bytes.
pub load-IsServed :
    (parse : String → Option Url) (user : User) (extracted : Result ConfigError Config) (c : Config)
    → load parse user extracted ≡ ok c
    → require_api_keys c ≡ ok tt
    → c.request_timeout_secs < u64_max
    → (p : Profile) × (profile user ≡ ok p) × IsServed parse p c
unfolding load
load-IsServed parse user extracted c h served bound =
    let (p, named, h1) = steps_ok (profile user) _ h in
    let (_, _, h2) = steps_ok (check_urls_set user p) _ h1 in
    let (d, _, h3) = steps_ok extracted _ h2 in
    let (long, h4) =
      ensured
        (not (is_prod p)
          || byte_len d.hooks_api_key == 0
          || leb min_prod_api_key_len (byte_len d.hooks_api_key))
        _ _ h3 in
    (p, named, validate_ok parse p d c bound long h4 served)
