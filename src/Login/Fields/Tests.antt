-- ===== src/Login/Fields/Tests.antt =====
-- JSON bodies of a login, and the theorem at one.
use weave_auth.Prelude.{
  String, Bool, true, false, none, some, ◌≡◌, ◌≢◌, ◌⊎◌, refl, arith, ap, ◌==◌, if◌then◌else◌,
  number_key, text_key,
}
use Prim.Native.String.{[] as ε, ◌∷◌ as ◌▸◌}
use Prim.Native.Char.{code}
use weave_auth.Json.{text, Members, no_members, member}
use weave_auth.Texts.{◌<>◌, eq_ignore_ascii_case, is_ascii, is_blank}
use weave_auth.Login.Fields.{
  set_method, set_identifier, read_member, from_members, LoginFields, from_json,
  throttled_identifier,
}
use weave_auth.Login.Fields.Reading.{NoneRead, OneReads}
use weave_auth.Login.Fields.Counted.{
  FoldsAscii, reads_as_method, reads_as_identifier, from_json_unambiguous,
}

-- The long s and the Kelvin sign fold to ASCII letters.
folded : String → String
folded ε = ε
folded (c ▸ s) =
    let rest = folded s in
    if code c == 383 then "s" <> rest else if code c == 8490 then "k" <> rest else c ▸ rest

folds : String → String → Bool
folds key name = eq_ignore_ascii_case key (folded name)

folded_ascii : (name : String) → is_ascii name ≡ true → folded name ≡ name
unfolding folded is_ascii
folded_ascii ε h = refl
folded_ascii (c ▸ s) h = ground (arith, h, folded_ascii s)

folds-FoldsAscii : FoldsAscii folds
unfolding folds
folds-FoldsAscii key name h = ap (eq_ignore_ascii_case key) (folded_ascii name h)

abbrev body : Members
body =
    member "method" (text "password")
      (member "csrf_token" (text "c") (member "identifier" (text "a@b.test") no_members))

abbrev read_body : LoginFields
read_body = record { method = some "password"; identifier = some "a@b.test"; repeated = false }

reads_body : from_json (some body) ≡ some read_body
unfolding from_json from_members read_member set_method set_identifier eq_ignore_ascii_case is_ascii
reads_body = refl

-- Go takes the second member for the identifier.
folded_key_refused :
    from_json
      (some (member "identifier" (text "a") (member "paſſword_identifier" (text "b") no_members)))
    ≡ none
unfolding from_json from_members read_member set_method set_identifier eq_ignore_ascii_case is_ascii
folded_key_refused = refl

folds_long_s : reads_as_identifier folds "paſſword_identifier" ≡ true
unfolding folds folded eq_ignore_ascii_case ◌<>◌
folds_long_s = refl

from_json_unambiguous_example :
    ((i : String)
      → throttled_identifier read_body ≡ some i
      → OneReads (reads_as_identifier folds) body i
        × (is_blank i ≡ false)
        × (NoneRead (reads_as_method folds) body
            ⊎ OneReads (reads_as_method folds) body "password"))
    × (throttled_identifier read_body ≡ none
        → NoneRead (reads_as_identifier folds) body
          ⊎ (((i : String) × (is_blank i ≡ true) × OneReads (reads_as_identifier folds) body i)
              ⊎ ((m : String) × (m ≢ "password") × OneReads (reads_as_method folds) body m)))
from_json_unambiguous_example =
    from_json_unambiguous folds folds-FoldsAscii body read_body reads_body refl
