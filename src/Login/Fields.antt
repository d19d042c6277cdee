-- ===== src/Login/Fields.antt =====
-- login/src/proxy.rs, `LoginFields`: what a login submission says, read for the throttle. The bodies
-- are parsed by the libraries: a form into its pairs, a JSON object into its members, each in the
-- order that they stand in, repeated ones included.
pub mod Reading
pub mod Counted
mod Tests
use weave_auth.Prelude.{
  String, Bool, true, false, not, Option, none, some, List, [], ◌∷◌, any, contains, ◌==◌, ◌&&◌,
  ◌||◌, if◌then◌else◌, is_some, is_none_or, only_if, Result, ok, err, text_key,
}
use weave_auth.Json.{Json, Members, no_members, member, as_text}
use weave_auth.Texts.{eq_ignore_ascii_case, is_ascii, is_blank}

pub record LoginFields : Type 0 where
  pub method : Option String
  pub identifier : Option String
  pub repeated : Bool

abbrev pub no_fields : LoginFields
no_fields = record { method = none; identifier = none; repeated = false }

unfoldable pub set_method : LoginFields → String → LoginFields
set_method f value = record f { repeated = f.repeated || is_some f.method; method = some value }

unfoldable pub set_identifier : LoginFields → String → LoginFields
set_identifier f value = record f {
  repeated = f.repeated || is_some f.identifier;
  identifier = some value;
}

abbrev names_identifier : String → Bool
names_identifier name = name == "identifier" || name == "password_identifier"

unfoldable pub read_pair : LoginFields → String → String → LoginFields
read_pair f name value =
    if name == "method"
    then set_method f value
    else if names_identifier name
    then set_identifier f value
    else f

unfoldable pub from_pairs : LoginFields → List (String × String) → LoginFields
from_pairs f [] = f
from_pairs f ((name, value) ∷ pairs) = from_pairs (read_pair f name value) pairs

unfoldable pub from_form : List (String × String) → LoginFields
from_form pairs = from_pairs no_fields pairs

abbrev pub known_keys : List String
known_keys = "method" ∷ "identifier" ∷ "password_identifier" ∷ []

-- A key that Kratos may read as a known one.
abbrev may_be_known : String → Bool
may_be_known name = not (is_ascii name) || any (λ key. eq_ignore_ascii_case key name) known_keys

unfoldable pub read_member : LoginFields → String → Json → Option LoginFields
read_member f name value =
    if contains name known_keys
    then elim (as_text value) [
      | none ↦ none
      | some text ↦ some (if name == "method" then set_method f text else set_identifier f text)
    ]
    else if may_be_known name
    then none
    else some f

abbrev read_next : Option LoginFields → (LoginFields → Option LoginFields) → Option LoginFields
read_next none next = none
read_next (some f) next = next f

unfoldable pub from_members : Members → LoginFields → Option LoginFields
from_members no_members f = some f
from_members (member name value ms) f = read_next (read_member f name value) (from_members ms)

-- `none` is a body that is not a JSON object, or one that is refused.
unfoldable pub from_json : Option Members → Option LoginFields
from_json none = none
from_json (some ms) = from_members ms no_fields

-- Only a password submission has a secret to guess.
unfoldable pub throttled_identifier : LoginFields → Option String
throttled_identifier f =
    only_if (λ identifier. is_none_or (λ m. m == "password") f.method && not (is_blank identifier))
      f.identifier
