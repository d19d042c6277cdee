-- ===== src/Bff/Cookies/Reading.antt =====
-- What `extract_cookie` reads off the header that a browser makes of its cookies.
use weave_auth.Prelude.{
  String, Bool, true, false, not, List, [], ◌∷◌, map, none, some, ◌≡◌, refl, ap, arith, ◌==◌, ◌&&◌,
  number_key, text_key, if◌then◌else◌, All, filter_map,
}
use weave_auth.Texts.{split, split_once, has, trim_start, trim_blank_end, is_whitespace, ◌<>◌}
use weave_auth.Texts.Laws.{
  is_unspaced, split_absent, split_first, split_once_first, has-join, is_unspaced-join,
  trim_unspaced,
}
use weave_auth.Bff.Cookies.{semicolon, equals_sign, named_value, only_one, extract_cookie}
use Prim.Native.String.{[] as ε, ◌∷◌ as ◌▸◌}

-- A pair as a browser sends it, and the header that it makes of several.
unfoldable pub pair_text : String × String → String
pair_text (name, value) = name <> "=" <> value

abbrev more_pairs : List String → String
more_pairs [] = ""
more_pairs (t ∷ ts) = "; " <> t <> more_pairs ts

unfoldable pub cookie_header : List String → String
cookie_header [] = ""
cookie_header (t ∷ ts) = t <> more_pairs ts

-- What a cookie's name and its value are made of: no separator and no white space.
abbrev pub is_sent_name : String → Bool
is_sent_name name = not (has semicolon name) && not (has equals_sign name) && is_unspaced name

abbrev pub is_sent_value : String → Bool
is_sent_value value = not (has semicolon value) && is_unspaced value

abbrev pub IsSent : String × String → Type 0
IsSent (name, value) = (is_sent_name name ≡ true) × (is_sent_value value ≡ true)

join_empty : (s : String) → s <> "" ≡ s
unfolding ◌<>◌
join_empty ε = refl
join_empty (c ▸ s) = ap (λ t. c ▸ t) (join_empty s)

pub pair_text-has : (p : String × String) → IsSent p → has semicolon (pair_text p) ≡ false
unfolding pair_text has ◌<>◌
pair_text-has (name, value) h =
    has-join semicolon name ("=" <> value) (ground (arith, h)) (ground (arith, h))

split-cookie_header :
    (t : String) (ts : List String)
    → All (λ u. has semicolon u ≡ false) (t ∷ ts)
    → split semicolon (cookie_header (t ∷ ts)) ≡ t ∷ map (λ u. " " <> u) ts
unfolding cookie_header split ◌<>◌
split-cookie_header t [] h = rw (join_empty t) (split_absent semicolon t h.0)
split-cookie_header t (u ∷ ts) h =
    let rest = cookie_header (u ∷ ts) in
    let first : split semicolon (t <> "; " <> rest) ≡ t ∷ split semicolon (" " <> rest) =
      split_first semicolon t _ (" " <> rest) h.0 refl in
    ground (arith, first, split-cookie_header u ts h.1)

named_value-pair_text :
    (decode : String → String) (name : String) (p : String × String)
    → IsSent p
    → named_value decode name (pair_text p) ≡ (if p.0 == name then some (decode p.1) else none)
unfolding named_value pair_text is_unspaced is_whitespace ◌<>◌
named_value-pair_text decode name (n, value) h =
    let parts : split_once equals_sign (n <> "=" <> value) ≡ some (n, value) =
      split_once_first equals_sign n _ value (ground (arith, h)) refl in
    ground (
      arith,
      trim_unspaced (n <> "=" <> value)
          (is_unspaced-join n ("=" <> value) (ground (arith, h)) (ground (arith, h))),
      parts,
    )

named_value-spaced :
    (decode : String → String) (name : String) (t : String)
    → named_value decode name (" " <> t) ≡ named_value decode name t
unfolding named_value ◌<>◌ trim_start is_whitespace
named_value-spaced decode name t = refl

filter_map-spaced :
    (decode : String → String) (name : String) (ts : List String)
    → filter_map (named_value decode name) (map (λ u. " " <> u) ts)
      ≡ filter_map (named_value decode name) ts
filter_map-spaced decode name [] = refl
filter_map-spaced decode name (t ∷ ts) =
    ground (arith, named_value-spaced decode name t, filter_map-spaced decode name ts)

-- The values that pairs give a name.
abbrev pub values_of : String → List (String × String) → List String
values_of name [] = []
values_of name (p ∷ ps) = let rest = values_of name ps in if p.0 == name then p.1 ∷ rest else rest

filter_map-pair_text :
    (decode : String → String) (name : String) (ps : List (String × String))
    → All IsSent ps
    → filter_map (named_value decode name) (map pair_text ps) ≡ map decode (values_of name ps)
filter_map-pair_text decode name [] h = refl
filter_map-pair_text decode name (p ∷ ps) h =
    ground (arith, named_value-pair_text decode name p h.0, filter_map-pair_text decode name ps h.1)

All-pair_text :
    (ps : List (String × String))
    → All IsSent ps
    → All (λ u. has semicolon u ≡ false) (map pair_text ps)
All-pair_text [] h = tt
All-pair_text (p ∷ ps) h = (pair_text-has p h.0, All-pair_text ps h.1)

-- Whatever cookies a browser sends in one header, `extract_cookie` gives the decoded value of the
-- one that has the name, and nothing if none or several have it.
pub extract_cookie-cookie_header :
    (decode : String → String) (name : String) (ps : List (String × String))
    → All IsSent ps
    → extract_cookie decode (some (some (cookie_header (map pair_text ps)))) name
      ≡ only_one (map decode (values_of name ps))
unfolding extract_cookie cookie_header split split_once named_value trim_start trim_blank_end
extract_cookie-cookie_header decode name [] h = refl
extract_cookie-cookie_header decode name (p ∷ ps) h = ground (
  arith,
  split-cookie_header (pair_text p) (map pair_text ps) (All-pair_text (p ∷ ps) h),
  filter_map-spaced decode name (map pair_text ps),
  filter_map-pair_text decode name (p ∷ ps) h,
)
