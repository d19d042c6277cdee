-- ===== src/Json.antt =====
-- serde_json's `Value`, as far as the handlers read it. Parsing is the library's. An object has one
-- member for each name.
use weave_auth.Prelude.{
  ℕ, String, Bool, true, false, Option, none, some, ◌==◌, text_key, if◌then◌else◌,
}

-- An integer: `pos n` is n, `negsuc n` is −1 − n.
pub data ℤ : Type 0 where
  pos negsuc : ℕ → ℤ

mutual
  pub data Json : Type 0 where
    null : Json
    boolean : Bool → Json
    integer : ℤ → Json
    fraction : Json
    text : String → Json
    array : Elements → Json
    object : Members → Json

  pub data Elements : Type 0 where
    no_elements : Elements
    element : Json → Elements → Elements

  pub data Members : Type 0 where
    no_members : Members
    member : String → Json → Members → Members

unfoldable pub find_member : String → Members → Option Json
find_member name no_members = none
find_member name (member n v ms) = if n == name then some v else find_member name ms

-- `Value::get` by a name, `none` on anything but an object.
unfoldable pub get_member : String → Json → Option Json
get_member name (object ms) = find_member name ms
get_member name _ = none

abbrev pub as_text : Json → Option String
as_text (text s) = some s
as_text _ = none

abbrev pub is_object : Json → Bool
is_object (object ms) = true
is_object _ = false
