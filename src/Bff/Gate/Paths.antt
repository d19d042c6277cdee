-- ===== src/Bff/Gate/Paths.antt =====
-- bff/src/server/api/proxy.rs: which paths go on. Percent decoding is a parameter.
use weave_auth.Prelude.{
  ◌⊎◌, ◌≤◌, ℕ, String, Bool, true, false, not, List, [], ◌∷◌, ◌≡◌, refl, ap, ◌∙◌, arith, ◌==◌, ◌&&◌,
  ◌||◌, any, All, leb, text_key, number_key,
}
use weave_auth.Texts.Laws.{split_first, split_absent}
use weave_auth.Texts.{◌<>◌, slash, backslash, dot, split, has, first_word}
use Prim.Native.String.{[] as ε, ◌∷◌ as ◌▸◌}
use Prim.Native.Char.{code}

-- `char::is_control`.
abbrev is_control : ℕ → Bool
is_control n = leb n 31 || (leb 127 n && leb n 159)

abbrev has_control : String → Bool
has_control ε = false
has_control (c ▸ t) = is_control (code c) || has_control t

-- Whether trimming dots and spaces at the end leaves nothing.
abbrev only_dots_and_spaces : String → Bool
only_dots_and_spaces ε = true
only_dots_and_spaces (c ▸ t) = (code c == dot || code c == 32) && only_dots_and_spaces t

abbrev starts_with_dot : String → Bool
starts_with_dot ε = false
starts_with_dot (c ▸ t) = code c == dot

-- Whether a decoded segment climbs or hides a separator; path parameters are cut off.
unfoldable pub is_unclean_text : String → Bool
is_unclean_text t =
    let name = first_word (split 59 t) in
    (starts_with_dot name && only_dots_and_spaces name)
    || has slash t
    || has backslash t
    || has_control t

unfoldable pub is_clean_path : (String → String) → String → Bool
is_clean_path decode path = not (
    any (λ segment. is_unclean_text (decode segment) || is_unclean_text (decode (decode segment)))
      (split slash path))

-- The control characters of Unicode.
abbrev pub IsControl : ℕ → Type 0
IsControl n = (n ≤ 31) ⊎ ((127 ≤ n) × (n ≤ 159))

-- All characters of a text are dots or spaces.
abbrev pub AllDots : String → Type 0
AllDots ε = Unit {0}
AllDots (c ▸ t) = ((code c ≡ dot) ⊎ (code c ≡ 32)) × AllDots t

-- What an upstream may read as a step up: a dot, and then only dots and spaces.
abbrev pub IsDots : String → Type 0
IsDots ε = ⊥
IsDots (c ▸ t) = (code c ≡ dot) × AllDots t

-- A text that neither steps up, cut off at a `;` or not, nor hides a separator or a control character.
pub record StaysPut (t : String) : Type 0 where
  pub whole : IsDots t → ⊥
  pub cut : (name parameters : String) → t ≡ name <> ";" <> parameters → IsDots name → ⊥
  pub separators : (has slash t ≡ false) × (has backslash t ≡ false)
  pub controls : (n : ℕ) → IsControl n → has n t ≡ false

only_dots : (t : String) → AllDots t → (only_dots_and_spaces t ≡ true) × (has 59 t ≡ false)
unfolding has
only_dots ε h = (refl, refl)
only_dots (c ▸ t) h = ground (arith, h.0, only_dots t h.1)

dots :
    (t : String)
    → IsDots t
    → ((starts_with_dot t && only_dots_and_spaces t) ≡ true) × (has 59 t ≡ false)
unfolding has
dots ε h = absurd h
dots (c ▸ t) h = ground (arith, h.0, only_dots t h.1)

no_control : (t : String) (n : ℕ) → has_control t ≡ false → IsControl n → has n t ≡ false
unfolding has
no_control ε n h control = refl
no_control (c ▸ t) n h control = ground (arith, h, control, no_control t n)

named :
    (name rest : String) → has 59 name ≡ false → first_word (split 59 (name <> ";" <> rest)) ≡ name
unfolding split ◌<>◌
named name rest h = rw (split_first 59 name) refl

clean_text : (t : String) → is_unclean_text t ≡ false → StaysPut t
unfolding is_unclean_text
clean_text t h = record {
  whole = λ d. let (a, b) = dots t d in ground (arith, h, a, ap first_word (split_absent 59 t b));
  cut = λ name parameters e d.
      let (a, b) = dots name d in
      let same : first_word (split 59 t) ≡ name =
        ap (λ x. first_word (split 59 x)) e ∙ named name parameters b in
      ground (arith, h, a, same);
  separators = (ground (arith, h), ground (arith, h));
  controls = λ n c. no_control t n (ground (arith, h)) c;
}

-- Of a path that goes on, no segment, decoded once or twice, is a step up, before a `;` or whole, or
-- holds a separator or a control character.
pub is_clean_path_lem :
    (decode : String → String) (path : String)
    → is_clean_path decode path ≡ true
    → All
        (λ segment. StaysPut (decode segment) × StaysPut (decode (decode segment)))
        (split slash path)
unfolding is_clean_path
is_clean_path_lem decode path h = stay (split slash path) (ground (arith, h))
  where
    stay :
        (segments : List String)
        → any
            (λ segment.
              is_unclean_text (decode segment) || is_unclean_text (decode (decode segment)))
            segments
          ≡ false
        → All (λ segment. StaysPut (decode segment) × StaysPut (decode (decode segment))) segments
    stay [] h = tt
    stay (s ∷ segments) h = (
      (
        clean_text (decode s) (ground (arith, h)),
        clean_text (decode (decode s)) (ground (arith, h)),
      ),
      stay segments (ground (arith, h)),
    )
