-- ===== src/Bff/Config/Routes.antt =====
-- What holds of the routes and the destinations of an accepted configuration.
use weave_auth.Common.Config.Checks.{all_ok, ensured}
use weave_auth.Prelude.{
  String, Bool, true, false, not, Option, none, some, List, [], ◌∷◌, map, ◌≡◌, refl, arith, ◌||◌,
  all, contains, Distinct, All, is_some_and, ok, Bool-cases, text_key, number_key,
}
use weave_auth.Common.Config.{Profile, is_prod, Url}
use weave_auth.Bff.Config.{
  RouteConfig, reserved_prefixes, is_upstream, check_routes_after, check_redirect_uri_allowlist,
  is_allowed_entry, is_nil, is_route_prefix,
}

module _ (parse : String → Option Url) (p : Profile) where
  -- A route is at a place of its own, and its upstream may get a bearer token.
  abbrev pub IsSafeRoute : RouteConfig → Type 0
  IsSafeRoute route =
      (is_route_prefix route.path_prefix ≡ true)
      × (contains route.path_prefix reserved_prefixes ≡ false)
      × (url : Url) × (parse route.upstream_url ≡ some url)
      × (is_upstream p url ≡ true)

  some_and :
      (test : Url → Bool) (o : Option Url)
      → is_some_and test o ≡ true
      → (url : Url) × (o ≡ some url) × (test url ≡ true)
  some_and test (some url) h = (url, refl, h)
  some_and test none h = cc

  not_among :
      (prefix : String) (earlier : List String) (routes : List RouteConfig)
      → All (λ r. contains r.path_prefix (prefix ∷ earlier) ≡ false) routes
      → (contains prefix (map (λ r. r.path_prefix) routes) ≡ false)
        × All (λ r. contains r.path_prefix earlier ≡ false) routes
  not_among prefix earlier [] h = (refl, tt)
  not_among prefix earlier (r ∷ routes) h =
      let (a, b) = not_among prefix earlier routes h.1 in
      (
        ground (
          arith,
          h.0,
          a,
          text_key.same_iff prefix r.path_prefix,
          text_key.same_iff r.path_prefix prefix,
        ),
        (ground (arith, h.0), b),
      )

  pub check_routes_ok :
      (earlier : List String) (routes : List RouteConfig)
      → check_routes_after parse p earlier routes ≡ ok tt
      → All IsSafeRoute routes
        × Distinct (map (λ r. r.path_prefix) routes)
        × All (λ r. contains r.path_prefix earlier ≡ false) routes
  unfolding check_routes_after
  check_routes_ok earlier [] h = (tt, tt, tt)
  check_routes_ok earlier (r ∷ routes) h =
      let (a, h1) = ensured (is_route_prefix r.path_prefix) _ _ h in
      let (b, h2) = ensured (not (contains r.path_prefix reserved_prefixes)) _ _ h1 in
      let (c, h3) = ensured (not (contains r.path_prefix earlier)) _ _ h2 in
      let (d, h4) = ensured (is_some_and (is_upstream p) (parse r.upstream_url)) _ _ h3 in
      let (safe, apart, fresh) = check_routes_ok (r.path_prefix ∷ earlier) routes h4 in
      let (url, e, f) = some_and (is_upstream p) (parse r.upstream_url) d in
      let (other, rest) = not_among r.path_prefix earlier routes fresh in
      (((a, ground (arith, b), url, e, f), safe), (other, apart), (ground (arith, c), rest))

  pub check_allowlist_ok :
      (uris : List String)
      → check_redirect_uri_allowlist parse uris p ≡ ok tt
      → All (λ uri. is_allowed_entry parse p uri ≡ true) uris
        × (is_prod p ≡ true → is_nil uris ≡ false)
  unfolding check_redirect_uri_allowlist
  check_allowlist_ok uris h =
      let (a, h1) = ensured (not (is_prod p) || not (is_nil uris)) _ _ h in
      let every : all (is_allowed_entry parse p) uris ≡ true =
        ground (arith, h1, Bool-cases (all (is_allowed_entry parse p) uris)) in
      (all_ok (is_allowed_entry parse p) uris every, λ q. ground (arith, a, q))
