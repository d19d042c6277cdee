-- ===== src/Bff/Cookies/RoundTrip.antt =====
-- What a browser sends back is what bff wrote.
use weave_auth.Prelude.{
  ℕ, String, Bool, true, false, List, [], ◌∷◌, ◌++◌, map, some, ◌≡◌, refl, ap, sym, ◌∙◌, arith,
  ◌==◌, number_key, text_key, if◌then◌else◌, All,
}
use weave_auth.Texts.{split, first_word, ◌<>◌}
use weave_auth.Texts.Laws.{split_first}
use weave_auth.Bff.Cookies.Reading.{
  pair_text, pair_text-has, cookie_header, is_sent_name, is_sent_value, IsSent, values_of,
  extract_cookie-cookie_header,
}
use weave_auth.Bff.Cookies.{semicolon, only_one, extract_cookie, build_cookie}
use Prim.Native.String.{[] as ε, ◌∷◌ as ◌▸◌}

-- A pair as a browser sends it, an-- What a browser keeps of a `Set-Cookie` to send it back: the name and the value.
unfoldable pub sent_back : String → String
sent_back set_cookie = first_word (split semicolon set_cookie)

join_assoc : (s t u : String) → (s <> t) <> u ≡ s <> t <> u
unfolding ◌<>◌
join_assoc ε t u = refl
join_assoc (c ▸ s) t u = ap (λ v. c ▸ v) (join_assoc s t u)

sent_back-build_cookie :
    (encode : String → String) (shown : ℕ → String) (name value path : String) (max_age : ℕ)
    (secure : Bool)
    → IsSent (name, encode value)
    → sent_back (build_cookie encode shown name value path max_age secure)
      ≡ pair_text (name, encode value)
unfolding sent_back build_cookie pair_text ◌<>◌
sent_back-build_cookie encode shown name value path max_age secure h =
    let attributes =
      " HttpOnly; Path="
      <> path
      <> "; SameSite=Lax"
      <> (if secure then "; Secure" else "")
      <> "; Max-Age="
      <> shown max_age in
    let first : split semicolon (pair_text (name, encode value) <> ";" <> attributes)
        ≡ pair_text (name, encode value) ∷ split semicolon attributes =
      split_first semicolon (pair_text (name, encode value)) _ attributes
        (pair_text-has (name, encode value) h) refl in
    ap (λ u. first_word (split semicolon u))
      (sym (join_assoc name ("=" <> encode value) (";" <> attributes)))
    ∙ ap first_word first

values_of_absent :
    (name : String) (ps : List (String × String))
    → All (λ p. (p.0 == name) ≡ false) ps
    → values_of name ps ≡ []
values_of_absent name [] h = refl
values_of_absent name (p ∷ ps) h = ground (arith, h, values_of_absent name ps h.1)

values_of-others :
    (name : String) (before after : List (String × String)) (value : String)
    → All (λ p. (p.0 == name) ≡ false) before
    → All (λ p. (p.0 == name) ≡ false) after
    → values_of name (before ++ (name, value) ∷ after) ≡ value ∷ []
values_of-others name [] after value h e =
    ground (arith, values_of_absent name after e, text_key.same_iff name name)
values_of-others name (p ∷ before) after value h e =
    ground (arith, h, values_of-others name before after value h.1 e)

-- The cookies of other names that a browser may send along.
abbrev pub AreOthers : String → List (String × String) → Type 0
AreOthers name ps = All IsSent ps × All (λ p. (p.0 == name) ≡ false) ps

append-All :
    (P : String × String → Type 0) (ps qs : List (String × String))
    → All P ps
    → All P qs
    → All P (ps ++ qs)
append-All P [] qs h e = e
append-All P (p ∷ ps) qs h e = (h.0, append-All P ps qs h.1 e)

map-append :
    (ps qs : List (String × String))
    → map pair_text (ps ++ qs) ≡ map pair_text ps ++ map pair_text qs
map-append [] qs = refl
map-append (p ∷ ps) qs = ap (λ l. pair_text p ∷ l) (map-append ps qs)

-- The library's encoding of a value is undone by its decoding, and leaves no separator and no white
-- space.
pub record Survives (encode decode : String → String) (value : String) : Type 0 where
  pub undone : decode (encode value) ≡ value
  pub clean : is_sent_value (encode value) ≡ true

-- A cookie that bff sets comes back with its value, whatever that holds and whatever other cookies
-- the browser sends around it, if the value survives its percent encoding.
pub extract_cookie-build_cookie :
    (encode decode : String → String) (shown : ℕ → String) (name value path : String) (max_age : ℕ)
    (secure : Bool)
    → Survives encode decode value
    → (before after : List (String × String)) → is_sent_name name ≡ true
    → AreOthers name before
    → AreOthers name after
    → extract_cookie decode
        (some (
          some (
            cookie_header (
              map pair_text before
              ++ sent_back (build_cookie encode shown name value path max_age secure)
                ∷ map pair_text after))))
        name
      ≡ some value
unfolding only_one
extract_cookie-build_cookie encode decode shown name value path max_age secure kept before after
      named b a =
    let pairs = before ++ (name, encode value) ∷ after in
    let texts : map pair_text pairs
        ≡ map pair_text before ++ pair_text (name, encode value) ∷ map pair_text after =
      map-append before ((name, encode value) ∷ after) in
    let read : extract_cookie decode (some (some (cookie_header (map pair_text pairs)))) name
        ≡ only_one (map decode (values_of name pairs)) =
      extract_cookie-cookie_header decode name pairs
        (append-All IsSent before ((name, encode value) ∷ after) b.0 ((named, kept.clean), a.0)) in
    let own =
      sent_back-build_cookie encode shown name value path max_age secure (named, kept.clean) in
    rw own (
      rw (← texts) (
        read
        ∙ ap (λ l. only_one (map decode l))
            (values_of-others name before after (encode value) b.1 a.1)
        ∙ ap some (kept.undone)))
