-- ===== src/Bff/Cookies/Tests.antt =====
-- The cookies, run on the source's own examples.
use weave_auth.Texts.{
  ◌<>◌, trim_start, trim_blank_end, split_once, split, is_whitespace, is_blank,
  has_prefix_in_any_case, has,
}
use weave_auth.Texts.Laws.{is_unspaced}
use weave_auth.Prelude.{ℕ, String, true, List, [], ◌∷◌, ◌++◌, map, none, some, ◌≡◌, refl}
use weave_auth.Bff.Cookies.{
  only_one, named_value, has_name_prefix, cookie_name, extract_cookie, build_cookie, login_cookie,
}
use weave_auth.Bff.Cookies.Reading.{pair_text, cookie_header}
use weave_auth.Bff.Cookies.RoundTrip.{sent_back, extract_cookie-build_cookie}

abbrev as_is : String → String
as_is s = s

abbrev sixty : ℕ → String
sixty n = "60"

cookies_runs : ℕ
unfolding extract_cookie build_cookie cookie_name has_name_prefix login_cookie named_value only_one
    is_unspaced has has_prefix_in_any_case is_blank is_whitespace split split_once trim_blank_end
    trim_start ◌<>◌
cookies_runs = 0

finds_among_several :
    extract_cookie as_is (some (some "other=1; wa_session=abc123; another=2")) "wa_session"
    ≡ some "abc123"
unfolding cookies_runs
finds_among_several = refl

refuses_a_name_sent_twice :
    extract_cookie as_is (some (some "wa_session=planted; wa_session=real")) "wa_session" ≡ none
unfolding cookies_runs
refuses_a_name_sent_twice = refl

adds_secure_flag :
    build_cookie as_is sixty "wa_session" "abc" "/" 60 true
    ≡ "wa_session=abc; HttpOnly; Path=/; SameSite=Lax; Secure; Max-Age=60"
unfolding cookies_runs
adds_secure_flag = refl

prefixes_the_name : login_cookie true ≡ "__Host-wa_login"
unfolding cookies_runs
prefixes_the_name = refl

abbrev others : List (String × String)
others = ("theme", "dark") ∷ []

extract_cookie-build_cookie_example :
    extract_cookie as_is
      (some (
        some (
          cookie_header (
            map pair_text others
            ++ sent_back (build_cookie as_is sixty "wa_session" "abc" "/" 60 true)
              ∷ map pair_text others))))
      "wa_session"
    ≡ some "abc"
unfolding cookies_runs
extract_cookie-build_cookie_example =
    extract_cookie-build_cookie as_is as_is sixty "wa_session" "abc" "/" 60 true
      (record { undone = refl; clean = refl }) others others refl (((refl, refl), tt), (refl, tt))
      (((refl, refl), tt), (refl, tt))
