-- ===== src/Bff/Cookies.antt =====
-- bff/src/server/cookie.rs and login_cookie.rs, with the cookies' names of bff/src/config.rs: the
-- cookies that carry a session and a login. Percent encoding, base64 and JSON are libraries and so
-- parameters, as is the printing of a number; a header is absent, unreadable as text, or a text.
pub mod Reading
pub mod RoundTrip
mod Tests
use weave_auth.Prelude.{
  ℕ, String, Bool, not, Option, none, some, List, [], ◌∷◌, filter_map, ◌==◌, ◌&&◌, and_then,
  if◌then◌else◌, text_key,
}
use weave_auth.Texts.{split, split_once, trim, has_prefix_in_any_case, ◌<>◌}
use weave_auth.Bff.Redirects.{PendingLogin}

abbrev pub semicolon : ℕ
semicolon = 59

abbrev pub equals_sign : ℕ
equals_sign = 61

abbrev if_named : (String → String) → String → Option (String × String) → Option String
if_named decode name none = none
if_named decode name (some (n, value)) = if n == name then some (decode value) else none

-- The value of one pair of the header, if the pair has the name.
unfoldable pub named_value : (String → String) → String → String → Option String
named_value decode name pair = if_named decode name (split_once equals_sign (trim pair))

-- The first value, unless a second follows.
unfoldable pub only_one : List String → Option String
only_one [] = none
only_one (value ∷ []) = some value
only_one (value ∷ next ∷ values) = none

unfoldable pub extract_cookie : (String → String) → Option (Option String) → String → Option String
extract_cookie decode cookie name =
    and_then (and_then cookie (λ text. text))
      λ text. only_one (filter_map (named_value decode name) (split semicolon text))

unfoldable pub build_cookie :
    (String → String) → (ℕ → String) → String → String → String → ℕ → Bool → String
build_cookie encode shown name value path max_age_secs secure =
    name
    <> "="
    <> encode value
    <> "; HttpOnly; Path="
    <> path
    <> "; SameSite=Lax"
    <> (if secure then "; Secure" else "")
    <> "; Max-Age="
    <> shown max_age_secs

unfoldable pub clear_cookie : (String → String) → (ℕ → String) → String → String → Bool → String
clear_cookie encode shown name path secure = build_cookie encode shown name "" path 0 secure

abbrev pub host_cookie_prefix : String
host_cookie_prefix = "__Host-"

abbrev pub secure_cookie_prefix : String
secure_cookie_prefix = "__Secure-"

-- Browsers match cookie prefixes case-insensitively.
unfoldable pub has_name_prefix : String → String → Bool
has_name_prefix name prefix = has_prefix_in_any_case prefix name

unfoldable pub cookie_name : Bool → String → String
cookie_name secure name =
    if secure && not (has_name_prefix name host_cookie_prefix)
    then host_cookie_prefix <> name
    else name

abbrev pub login_cookie_base : String
login_cookie_base = "wa_login"

unfoldable pub login_cookie : Bool → String
login_cookie secure = cookie_name secure login_cookie_base

abbrev pub login_cookie_max_age_secs : ℕ
login_cookie_max_age_secs = 600

-- The libraries that write a login down as text and read it back.
pub record Codec : Type 1 where
  pub Bytes : Type 0
  pub to_json : PendingLogin → Bytes
  pub from_json : Bytes → Option PendingLogin
  pub encode64 : Bytes → String
  pub decode64 : String → Option Bytes

unfoldable pub to_cookie_value : Codec → PendingLogin → String
to_cookie_value k pending = k.encode64 (k.to_json pending)

unfoldable pub from_cookie_value : Codec → String → Option PendingLogin
from_cookie_value k value = and_then (k.decode64 value) k.from_json
