-- ===== src/Bff/Origin/Tests.antt =====
-- The check of a request with a trusted referer and an unreadable origin.
use weave_auth.Prelude.{String, true, none, some, [], ◌∷◌, contains, ◌≡◌, ◌⊎◌, ◌↔◌, ok, text_key}
use weave_auth.Bff.Origin.{OriginHeaders, require_trusted_origin}
use weave_auth.Bff.Origin.Trust.{require_trusted_origin_iff}

abbrev unreadable_origin : OriginHeaders
unreadable_origin = record { origin = some none; referer = some (some "http://login.test") }

require_trusted_origin_iff_example :
    (require_trusted_origin some unreadable_origin ("http://login.test" ∷ []) ≡ ok tt) ↔ (
      (o : String) × (contains o ("http://login.test" ∷ []) ≡ true)
      × ((unreadable_origin.origin ≡ some (some o))
          ⊎ ((unreadable_origin.origin ≡ none)
              × (url : String) × (unreadable_origin.referer ≡ some (some url))
              × (some url ≡ some o))))
require_trusted_origin_iff_example =
    require_trusted_origin_iff some unreadable_origin ("http://login.test" ∷ [])
