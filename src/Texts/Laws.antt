-- ===== src/Texts/Laws.antt =====
-- How splitting and trimming act on texts put together.
use weave_auth.Prelude.{
  ℕ, String, Bool, true, false, not, [], ◌∷◌, some, ◌≡◌, refl, arith, ◌==◌, ◌&&◌, number_key,
}
use weave_auth.Texts.{
  split, split_once, has, is_whitespace, is_blank, trim, trim_start, trim_blank_end, ◌<>◌,
}
use Prim.Native.String.{[] as ε, ◌∷◌ as ◌▸◌}
use Prim.Native.Char.{Char, code}

-- Whether no character of a text is white space.
unfoldable pub is_unspaced : String → Bool
is_unspaced ε = true
is_unspaced (c ▸ s) = not (is_whitespace (code c)) && is_unspaced s

pub split_absent : (p : ℕ) (s : String) → has p s ≡ false → split p s ≡ s ∷ []
unfolding split has
split_absent p ε h = refl
split_absent p (c ▸ s) h = ground (arith, split_absent p s)

pub split_first :
    (p : ℕ) (s : String) (c : Char) (t : String)
    → has p s ≡ false
    → (code c == p) ≡ true
    → split p (s <> c ▸ t) ≡ s ∷ split p t
unfolding split has ◌<>◌
split_first p ε c t h e = ground (arith, e)
split_first p (d ▸ s) c t h e = ground (arith, split_first p s c t)

pub split_once_first :
    (p : ℕ) (s : String) (c : Char) (t : String)
    → has p s ≡ false
    → (code c == p) ≡ true
    → split_once p (s <> c ▸ t) ≡ some (s, t)
unfolding split_once has ◌<>◌
split_once_first p ε c t h e = ground (arith, e)
split_once_first p (d ▸ s) c t h e = ground (arith, split_once_first p s c t)

pub has-join : (p : ℕ) (s t : String) → has p s ≡ false → has p t ≡ false → has p (s <> t) ≡ false
unfolding has ◌<>◌
has-join p ε t h e = e
has-join p (c ▸ s) t h e = ground (arith, has-join p s t)

pub is_unspaced-join :
    (s t : String) → is_unspaced s ≡ true → is_unspaced t ≡ true → is_unspaced (s <> t) ≡ true
unfolding is_unspaced ◌<>◌
is_unspaced-join ε t h e = e
is_unspaced-join (c ▸ s) t h e = ground (arith, is_unspaced-join s t)

trim_blank_end_unspaced : (s : String) → is_unspaced s ≡ true → trim_blank_end s ≡ s
unfolding is_unspaced trim_blank_end is_blank
trim_blank_end_unspaced ε h = refl
trim_blank_end_unspaced (c ▸ s) h = ground (arith, trim_blank_end_unspaced s)

pub trim_unspaced : (s : String) → is_unspaced s ≡ true → trim s ≡ s
unfolding is_unspaced trim_start
trim_unspaced ε h = trim_blank_end_unspaced ε h
trim_unspaced (c ▸ s) h = ground (arith, trim_blank_end_unspaced (c ▸ s) h)
