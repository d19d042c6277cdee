-- ===== src/Headers/Laws.antt =====
-- What a header map holds after a change.
use weave_auth.Prelude.{
  String, true, [], ◌∷◌, ◌++◌, ◌≡◌, refl, arith, ◌==◌, any, if◌then◌else◌, text_key,
}
use weave_auth.Headers.{HeaderValue, Headers, get_all, contains_key, append, insert}

pub get_all-append :
    (h : Headers) (name n : String) (v : HeaderValue)
    → get_all (append h name v) n ≡ get_all h n ++ (if name == n then v ∷ [] else [])
unfolding get_all append
get_all-append [] name n v = ground arith
get_all-append (e ∷ h) name n v = ground (arith, get_all-append h name n v)

pub get_all-insert :
    (h : Headers) (name n : String) (v : HeaderValue)
    → get_all (insert h name v) n ≡ (if name == n then v ∷ [] else get_all h n)
unfolding get_all insert
get_all-insert [] name n v = ground arith
get_all-insert (e ∷ h) name n v = ground (
  arith,
  get_all-insert h name n v,
  text_key.same_iff e.0 name,
  text_key.same_iff e.0 n,
  text_key.same_iff name n,
)

pub contains_key-get_all :
    (h : Headers) (name : String) → contains_key h name ≡ any (λ v. true) (get_all h name)
unfolding get_all contains_key
contains_key-get_all [] name = refl
contains_key-get_all (x ∷ h) name = ground (arith, contains_key-get_all h name)
