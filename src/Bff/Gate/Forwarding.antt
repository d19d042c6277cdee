-- ===== src/Bff/Gate/Forwarding.antt =====
-- Which headers go on to an upstream, and which of its answer come back.
use weave_auth.Prelude.{
  subst, ◌≢◌, String, Bool, true, false, List, [], ◌∷◌, ◌++◌, ◌≡◌, refl, arith, ◌==◌, ◌||◌, any,
  contains, append_assoc, append_nil, Distinct, if◌then◌else◌, text_key, Bool-cases, inl, inr,
}
use weave_auth.Texts.{
  is_whitespace, is_blank, trim_blank_end, trim_start, split, split_once, eq_ignore_ascii_case,
}
use weave_auth.Headers.{HeaderValue, text, Headers, get_all, contains_key, append, insert, to_str}
use weave_auth.Headers.Laws.{get_all-append, get_all-insert, contains_key-get_all}
use weave_auth.Bff.Gate.{
  request_headers, response_headers, default_content_security_policy, settles, is_settled,
  keep_out_of_shared_caches, keep_values, keep, allowed, upstream_headers, passed_back, with_policy,
  settles_text,
}

get_all-keep_values :
    (kept : Headers) (name n : String) (vs : List HeaderValue)
    → get_all (keep_values kept name vs) n ≡ get_all kept n ++ (if name == n then vs else [])
get_all-keep_values kept name n [] = ground (arith, append_nil (get_all kept n))
get_all-keep_values kept name n (v ∷ vs) = ground (
  arith,
  get_all-keep_values (append kept name v) name n vs,
  get_all-append kept name n v,
  append_nil (get_all kept n),
  append_assoc (get_all kept n) (v ∷ []) vs,
)

get_all-keep :
    (kept h : Headers) (names : List String) (n : String)
    → Distinct names
    → get_all (keep kept h names) n
      ≡ get_all kept n ++ (if contains n names then get_all h n else [])
get_all-keep kept h [] n d = ground (arith, append_nil (get_all kept n))
get_all-keep kept h (name ∷ names) n d = ground (
  arith,
  d,
  get_all-keep (keep_values kept name (get_all h name)) h names n d.1,
  get_all-keep_values kept name n (get_all h name),
  append_nil (get_all kept n),
  append_nil (get_all h n),
  append_nil (get_all kept n ++ get_all h n),
  text_key.same_iff name n,
)

pub get_all-allowed :
    (h : Headers) (names : List String) (n : String)
    → Distinct names
    → get_all (allowed h names) n ≡ (if contains n names then get_all h n else [])
unfolding allowed get_all
get_all-allowed h names n d = get_all-keep [] h names n d

request_headers-Distinct : Distinct request_headers
request_headers-Distinct = (refl, (refl, (refl, (refl, (refl, (refl, (refl, tt)))))))

-- An upstream gets the bearer token as the only authorization, of the client's headers only the
-- listed ones, and those with all their values.
pub upstream_headers_lem :
    (h : Headers) (auth_value : HeaderValue) (n : String)
    → get_all (upstream_headers h auth_value) n ≡ (
        if n == "authorization"
        then auth_value ∷ []
        else if contains n request_headers
        then get_all h n
        else [])
unfolding upstream_headers
upstream_headers_lem h auth_value n = ground (
  arith,
  get_all-insert (allowed h request_headers) "authorization" n auth_value,
  get_all-allowed h request_headers n request_headers-Distinct,
  text_key.same_iff "authorization" n,
  text_key.same_iff n "authorization",
)

response_headers-Distinct : Distinct response_headers
response_headers-Distinct =
    (refl, (refl, (refl, (refl, (refl, (refl, (refl, (refl, (refl, (refl, (refl, tt)))))))))))

any-append :
    (p : HeaderValue → Bool) (vs ws : List HeaderValue) → any p (vs ++ ws) ≡ (any p vs || any p ws)
any-append p [] ws = refl
any-append p (v ∷ vs) ws = ground (arith, any-append p vs ws)

no-store_settles : settles_text (to_str (text "no-store")) ≡ true
unfolding settles split split_once trim_start trim_blank_end is_blank is_whitespace
    eq_ignore_ascii_case
no-store_settles = refl

private_settles : settles_text (to_str (text "private")) ≡ true
unfolding settles split split_once trim_start trim_blank_end is_blank is_whitespace
    eq_ignore_ascii_case
private_settles = refl

keep_out_of_shared_caches-settled : (h : Headers) → is_settled (keep_out_of_shared_caches h) ≡ true
unfolding keep_out_of_shared_caches is_settled
keep_out_of_shared_caches-settled h = ground (
  arith,
  no-store_settles,
  private_settles,
  get_all-insert h "cache-control" "cache-control" (text "no-store"),
  get_all-append h "cache-control" "cache-control" (text "private"),
  any-append (λ v. settles_text (to_str v)) (get_all h "cache-control") (text "private" ∷ []),
)

get_all-keep_out :
    (h : Headers) (n : String)
    → ("cache-control" == n) ≡ false
    → get_all (keep_out_of_shared_caches h) n ≡ get_all h n
unfolding keep_out_of_shared_caches
get_all-keep_out h n ne = ground (
  arith,
  ne,
  get_all-insert h "cache-control" n (text "no-store"),
  get_all-append h "cache-control" n (text "private"),
  append_nil (get_all h n),
)

unlisted :
    (n : String) → contains n response_headers ≡ true → ("x-content-type-options" == n) ≡ false
unlisted n h = elim (Bool-cases ("x-content-type-options" == n)) [
  | inr e ↦ e
  | inl e ↦
      let out : contains n response_headers ≡ false =
        subst (λ m. contains m response_headers ≡ false)
          ((text_key.same_iff "x-content-type-options" n).0 e) refl in
      ground (arith, h, out)
]

-- Of an upstream's headers the browser gets the listed ones, as they are but for the policies and the
-- caching; no other, but that it always gets `nosniff`; and always a content security policy and
-- something that settles what a shared cache may do.
pub passed_back_lem :
    (h : Headers)
    → ((n : String)
        → contains n response_headers ≡ false
        → get_all (passed_back h) n
          ≡ (if n == "x-content-type-options" then text "nosniff" ∷ [] else []))
      × ((n : String)
          → contains n response_headers ≡ true
          → n ≢ "content-security-policy"
          → n ≢ "cache-control"
          → get_all (passed_back h) n ≡ get_all h n)
      × (get_all (passed_back h) "content-security-policy" ≡ (
          if contains_key h "content-security-policy"
          then get_all h "content-security-policy"
          else text default_content_security_policy ∷ []))
      × (is_settled (passed_back h) ≡ true)
unfolding passed_back
passed_back_lem h =
    let csp : String = "content-security-policy" in
    let kept = allowed h response_headers in
    let marked = insert kept "x-content-type-options" (text "nosniff") in
    let guarded = with_policy marked in
    let same : (n : String)
        → ("cache-control" == n) ≡ false
        → get_all (passed_back h) n ≡ get_all guarded n =
      get_all-keep_out guarded in
    let policed : (n : String)
        → ("content-security-policy" == n) ≡ false
        → get_all guarded n ≡ get_all marked n =
      λ n ne. ground (
        arith,
        ne,
        get_all-insert marked "content-security-policy" n (text default_content_security_policy),
      ) in
    let sniffed = λ (n : String). get_all-insert kept "x-content-type-options" n (text "nosniff") in
    let listed = λ (n : String). get_all-allowed h response_headers n response_headers-Distinct in
    (
      λ n out. ground (
        arith,
        out,
        same n,
        policed n,
        sniffed n,
        listed n,
        text_key.same_iff "cache-control" n,
        text_key.same_iff n "cache-control",
        text_key.same_iff "content-security-policy" n,
        text_key.same_iff n "content-security-policy",
        text_key.same_iff "x-content-type-options" n,
        text_key.same_iff n "x-content-type-options",
      ),
      λ n out ne nc.
          let other : ("x-content-type-options" == n) ≡ false = unlisted n out in
          ground (
            arith,
            other,
            out,
            ne,
            nc,
            same n,
            policed n,
            sniffed n,
            listed n,
            text_key.same_iff "cache-control" n,
            text_key.same_iff "content-security-policy" n,
          ),
      ground (
        arith,
        same csp refl,
        sniffed csp,
        listed csp,
        contains_key-get_all h csp,
        contains_key-get_all marked csp,
        get_all-insert marked csp csp (text default_content_security_policy),
      ),
      keep_out_of_shared_caches-settled guarded,
    )
