-- ===== src/Bff/Origin.antt =====
-- bff/src/server/origin_check.rs: requests that can change state come from a trusted origin. A header
-- is absent, unreadable as text, or a text; the origin of a URL is the URL library's to find.
pub mod Trust
mod Tests
use weave_auth.Prelude.{
  String, Option, none, some, List, any, ◌==◌, if◌then◌else◌, and_then, Result, ok, err, ok_or,
  ◌>>=◌, text_key,
}

pub data OriginError : Type 0 where
  missing unreadable : OriginError
  untrusted : String → OriginError

-- A header's value, `none` in the inner option if it is not text.
pub record OriginHeaders : Type 0 where
  pub origin : Option (Option String)
  pub referer : Option (Option String)

module _ (origin_of : String → Option String) where
  unfoldable pub referer_origin : Option (Option String) → Result OriginError String
  referer_origin referer = ok_or missing (and_then (and_then referer (λ text. text)) origin_of)

  unfoldable pub request_origin : OriginHeaders → Result OriginError String
  request_origin h = elim h.origin [
    | some origin ↦ ok_or unreadable origin
    | none ↦ referer_origin h.referer
  ]

  unfoldable pub require_trusted_origin :
      OriginHeaders → List String → Result OriginError (Unit {0})
  require_trusted_origin h trusted = request_origin h >>= λ origin.
      if any (λ t. t == origin) trusted then ok tt else err (untrusted origin)
