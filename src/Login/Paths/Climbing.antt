-- ===== src/Login/Paths/Climbing.antt =====
-- A path that is let through means what it says: resolving its dot segments changes nothing.
use weave_auth.Prelude.{
  append_assoc, append_nil, sym, ◌++◌, String, true, false, List, [], ◌∷◌, any, ◌≡◌, arith, ◌==◌,
  if◌then◌else◌, text_key,
}
use weave_auth.Texts.{slash, split, has, percent}
use weave_auth.Login.Paths.{is_unclean_segment, is_clean_path}

abbrev drop_last : List String → List String
drop_last [] = []
drop_last (s ∷ []) = []
drop_last (s ∷ t ∷ segments) = s ∷ drop_last (t ∷ segments)

-- RFC 3986 5.2.4 on the segments of a path: `.` goes, and `..` takes the segment before it along. The
-- segments kept so far are carried.
unfoldable pub resolve : List String → List String → List String
resolve kept [] = kept
resolve kept (s ∷ segments) =
    if s == "."
    then resolve kept segments
    else if s == ".."
    then resolve (drop_last kept) segments
    else resolve (kept ++ s ∷ []) segments

resolve_clean :
    (segments kept : List String)
    → any is_unclean_segment segments ≡ false
    → resolve kept segments ≡ kept ++ segments
unfolding resolve
resolve_clean [] kept h = sym (append_nil kept)
resolve_clean (s ∷ segments) kept h =
    ground (arith, h, resolve_clean segments (kept ++ s ∷ []), append_assoc kept (s ∷ []) segments)

-- A path that is let through is unchanged by the resolution of its dot segments, and it has no
-- percent sign that a decoder could read.
pub is_clean_path-resolve :
    (path : String)
    → is_clean_path path ≡ true
    → (resolve [] (split slash path) ≡ split slash path) × (has percent path ≡ false)
unfolding is_clean_path
is_clean_path-resolve path h =
    (resolve_clean (split slash path) [] (ground (arith, h)), ground (arith, h))
