-- ===== src/Bff/Origin/Trust.antt =====
-- When a request passes the check of its origin.
use weave_auth.Prelude.{
  String, true, Option, none, some, List, [], ◌∷◌, any, contains, ◌≡◌, ◌↔◌, ◌⊎◌, inl, inr, refl,
  arith, ◌==◌, ok, steps_ok, Option-cases, text_key,
}
use weave_auth.Bff.Origin.{OriginHeaders, referer_origin, request_origin, require_trusted_origin}

listed : (t : String) (trusted : List String) → any (λ x. x == t) trusted ≡ contains t trusted
listed t [] = refl
listed t (u ∷ trusted) = ground (arith, listed t trusted)

request_origin_ok :
    (origin_of : String → Option String) (origin referer : Option (Option String)) (o : String)
    → request_origin origin_of (record { origin = origin; referer = referer }) ≡ ok o
    → (origin ≡ some (some o))
      ⊎ ((origin ≡ none) × (url : String) × (referer ≡ some (some url)) × (origin_of url ≡ some o))
unfolding request_origin referer_origin
request_origin_ok origin_of (some (some o')) referer o h = inl (ground (arith, h))
request_origin_ok origin_of (some none) referer o h = cc
request_origin_ok origin_of none (some (some url)) o h =
    inr (refl, url, refl, ground (arith, h, Option-cases (origin_of url)))
request_origin_ok origin_of none (some none) o h = cc
request_origin_ok origin_of none none o h = cc

-- A request passes exactly when its `Origin` is trusted, or it has none and the origin of its
-- `Referer` is trusted. An `Origin` that is there is the only one that counts, readable or not.
pub require_trusted_origin_iff :
    (origin_of : String → Option String) (h : OriginHeaders) (trusted : List String)
    → (require_trusted_origin origin_of h trusted ≡ ok tt) ↔ (
        (o : String) × (contains o trusted ≡ true)
        × ((h.origin ≡ some (some o))
            ⊎ ((h.origin ≡ none)
                × (url : String) × (h.referer ≡ some (some url))
                × (origin_of url ≡ some o))))
unfolding require_trusted_origin request_origin referer_origin
require_trusted_origin_iff origin_of h trusted = (
  (λ p.
      let (o, e, c) = steps_ok (request_origin origin_of h) _ p in
      (o, ground (arith, c, listed o trusted), request_origin_ok origin_of h.origin h.referer o e)),
  λ p. let (o, c, from) = p in ground (arith, from, c, listed o trusted),
)
