-- ===== src/Bff/Redirects/Allowlist.antt =====
-- The browser is only sent on to a destination that the deployer listed, and a logout ends the
-- session whatever destination it asks for.
use weave_auth.Prelude.{
  steps_ok, not, String, true, Option, none, some, List, [], ◌∷◌, any, contains, ◌≡◌, ◌⊎◌, arith,
  ◌==◌, only_if, ok, ok_or, Option-cases, text_key, refl,
}
use mathlib.Core.Option
use weave_auth.Bff.Storage.{get_session}
use weave_auth.Bff.Server.{AppState}
use weave_auth.Bff.Server.Ended.{end_session_lem}
use weave_auth.Bff.Redirects.{
  Config, allows_redirect_uri, or, PendingLogin, invalid_redirect_uri, start, destination,
  end_named, logout,
}

pub allows_redirect_uri_lem :
    (c : Config) (uri : String) → allows_redirect_uri c uri ≡ contains uri c.redirect_uri_allowlist
unfolding allows_redirect_uri
allows_redirect_uri_lem c uri = listed c.redirect_uri_allowlist
  where
    listed : (uris : List String) → any (λ allowed. allowed == uri) uris ≡ contains uri uris
    listed [] = refl
    listed (u ∷ uris) = ground (arith, listed uris)

-- A login starts only towards a destination on the allowlist, and it is the one that was asked for
-- or the default.
start-allowed :
    (c : Config) (state verifier nonce : String) (requested : Option String) (p : PendingLogin)
    → start c state verifier nonce requested ≡ ok p
    → (contains p.redirect_uri c.redirect_uri_allowlist ≡ true)
      × ((requested ≡ some p.redirect_uri) ⊎ (c.default_redirect_uri ≡ some p.redirect_uri))
unfolding start
start-allowed c state verifier nonce requested p h =
    let (uri, e, h1) =
      steps_ok
        (ok_or invalid_redirect_uri
          (or (only_if (λ uri. not (uri == "")) requested) c.default_redirect_uri))
        _ h in
    let allowed = allows_redirect_uri_lem c uri in
    (
      ground (arith, h1, allowed),
      ground (arith, e, h1, Option-cases requested, Option-cases c.default_redirect_uri),
    )

-- After a logout the browser goes to a listed destination or to the default one, never elsewhere.
destination-allowed :
    (c : Config) (requested : Option String) (uri : String)
    → destination c requested ≡ ok uri
    → ((requested ≡ some uri) × (contains uri c.redirect_uri_allowlist ≡ true))
      ⊎ (c.default_redirect_uri ≡ some uri)
unfolding destination
destination-allowed c requested uri h = ground (
  arith,
  h,
  Option-cases requested,
  Option-cases c.default_redirect_uri,
  allows_redirect_uri_lem c uri,
)

-- A logout ends the session of the cookie whatever destination it asks for, hands Hydra the
-- id_token of that session as the hint, and names only a listed destination.
pub logout-ends :
    (c : Config) (s : AppState) (id : String) (requested : Option String)
    → (get_session (logout c s (some id) requested).0.sessions id ≡ none)
      × ((logout c s (some id) requested).1.id_token_hint
          ≡ Option.map (λ d. d.id_token) (get_session s.sessions id))
      × ((uri : String)
          → (logout c s (some id) requested).1.state ≡ some uri
          → contains uri c.redirect_uri_allowlist ≡ true)
unfolding logout end_named
logout-ends c s id requested = (
  ground (arith, end_session_lem s id id, text_key.same_iff id id),
  ground (arith, end_session_lem s id id),
  λ uri e. ground (arith, e, Option-cases requested, allows_redirect_uri_lem c uri),
)
