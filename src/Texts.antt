-- ===== src/Texts.antt =====
-- What Rust's `str` does to a text, character by character. A pattern is a character's number.
pub mod Laws
use weave_auth.Prelude.{
  ℕ, ◌+◌, String, Bool, true, false, Option, none, some, List, [], ◌∷◌, ◌==◌, ◌&&◌, ◌||◌, leb, ltb,
  if◌then◌else◌, number_key,
}
use Prim.Native.String.{[] as ε, ◌∷◌ as ◌▸◌}
use Prim.Native.Char.{Char, code}

abbrev pub slash : ℕ
slash = 47

abbrev pub dot : ℕ
dot = 46

abbrev pub percent : ℕ
percent = 37

abbrev pub backslash : ℕ
backslash = 92

-- A first word, with a character in front of it.
abbrev pub front : Char → List String → List String
front c [] = (c ▸ ε) ∷ []
front c (w ∷ ws) = (c ▸ w) ∷ ws

-- `str::split`.
unfoldable pub split : ℕ → String → List String
split p ε = ε ∷ []
split p (c ▸ s) = let rest = split p s in if code c == p then ε ∷ rest else front c rest

-- `str::contains`, of a character.
unfoldable pub has : ℕ → String → Bool
has p ε = false
has p (c ▸ s) = code c == p || has p s

abbrev starts_with_char : ℕ → String → Bool
starts_with_char p ε = false
starts_with_char p (c ▸ s) = code c == p

-- `str::contains`, of a character twice in a row.
unfoldable pub has_twice : ℕ → String → Bool
has_twice p ε = false
has_twice p (c ▸ s) = (code c == p && starts_with_char p s) || has_twice p s

abbrev is_empty : String → Bool
is_empty ε = true
is_empty (c ▸ s) = false

-- `str::trim_end_matches`, of a character.
unfoldable pub trim_end : ℕ → String → String
trim_end p ε = ε
trim_end p (c ▸ s) = let rest = trim_end p s in if code c == p && is_empty rest then ε else c ▸ rest

abbrev lower : ℕ → ℕ
lower n = if leb 65 n && leb n 90 then n + 32 else n

-- `str::eq_ignore_ascii_case`.
unfoldable pub eq_ignore_ascii_case : String → String → Bool
eq_ignore_ascii_case ε ε = true
eq_ignore_ascii_case ε (d ▸ t) = false
eq_ignore_ascii_case (c ▸ s) ε = false
eq_ignore_ascii_case (c ▸ s) (d ▸ t) = lower (code c) == lower (code d) && eq_ignore_ascii_case s t

-- `str::starts_with`.
unfoldable pub has_prefix : String → String → Bool
has_prefix ε s = true
has_prefix (c ▸ p) ε = false
has_prefix (c ▸ p) (d ▸ s) = code c == code d && has_prefix p s

-- `str::is_ascii`.
unfoldable pub is_ascii : String → Bool
is_ascii ε = true
is_ascii (c ▸ s) = ltb (code c) 128 && is_ascii s

-- `char::is_whitespace`.
unfoldable pub is_whitespace : ℕ → Bool
is_whitespace n =
    (leb 9 n && leb n 13)
    || n == 32
    || n == 133
    || n == 160
    || n == 5760
    || (leb 8192 n && leb n 8202)
    || n == 8232
    || n == 8233
    || n == 8239
    || n == 8287
    || n == 12288

-- Whether `str::trim` leaves nothing.
unfoldable pub is_blank : String → Bool
is_blank ε = true
is_blank (c ▸ s) = is_whitespace (code c) && is_blank s

-- `str::trim_start` and `str::trim_end`.
unfoldable pub trim_start : String → String
trim_start ε = ε
trim_start (c ▸ s) = let rest = trim_start s in if is_whitespace (code c) then rest else c ▸ s

unfoldable pub trim_blank_end : String → String
trim_blank_end ε = ε
trim_blank_end (c ▸ s) = let rest = trim_blank_end s in if is_blank (c ▸ s) then ε else c ▸ rest

-- `str::trim`.
abbrev pub trim : String → String
trim s = trim_blank_end (trim_start s)

abbrev in_front : Char → Option (String × String) → Option (String × String)
in_front c none = none
in_front c (some (a, b)) = some (c ▸ a, b)

-- `str::split_once`.
unfoldable pub split_once : ℕ → String → Option (String × String)
split_once p ε = none
split_once p (c ▸ s) =
    let rest = split_once p s in if code c == p then some (ε, s) else in_front c rest

-- Whether the text in lower case starts with a pattern.
unfoldable pub has_lower_prefix : String → String → Bool
has_lower_prefix ε s = true
has_lower_prefix (c ▸ p) ε = false
has_lower_prefix (c ▸ p) (d ▸ s) = code c == lower (code d) && has_lower_prefix p s

-- Whether a text starts with a pattern, in whatever case of ASCII letters.
unfoldable pub has_prefix_in_any_case : String → String → Bool
has_prefix_in_any_case ε s = true
has_prefix_in_any_case (c ▸ p) ε = false
has_prefix_in_any_case (c ▸ p) (d ▸ s) =
    lower (code c) == lower (code d) && has_prefix_in_any_case p s

-- The first word of a split text, and the last.
abbrev pub first_word : List String → String
first_word [] = ε
first_word (w ∷ ws) = w

abbrev pub last_word : List String → String
last_word [] = ε
last_word (w ∷ []) = w
last_word (w ∷ v ∷ ws) = last_word (v ∷ ws)

-- A text and one after it, as `format!` and `+` put them.
infixr 60 ◌<>◌
unfoldable pub ◌<>◌ : String → String → String
ε <> t = t
(c ▸ s) <> t = c ▸ (s <> t)

abbrev utf8_width : ℕ → ℕ
utf8_width n = if ltb n 128 then 1 else if ltb n 2048 then 2 else if ltb n 65536 then 3 else 4

-- The length of a text in bytes.
unfoldable pub byte_len : String → ℕ
byte_len ε = 0
byte_len (c ▸ s) = utf8_width (code c) + byte_len s
