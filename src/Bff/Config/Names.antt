-- ===== src/Bff/Config/Names.antt =====
-- The names of the cookies of an accepted configuration are ones that a browser sends as they are.
use weave_auth.Prelude.{ℕ, String, Bool, true, false, ◌≡◌, refl, arith, ◌==◌, text_key, number_key}
use Prim.Native.String.{[] as ε, ◌∷◌ as ◌▸◌}
use Prim.Native.Char.{code}
use weave_auth.Texts.{has, is_whitespace, ◌<>◌}
use weave_auth.Texts.Laws.{is_unspaced, has-join, is_unspaced-join}
use weave_auth.Bff.Cookies.{semicolon, equals_sign, cookie_name, host_cookie_prefix}
use weave_auth.Bff.Cookies.Reading.{is_sent_name}
use weave_auth.Bff.Config.{all_chars, is_token_char, is_cookie_token}

token_char :
    (n : ℕ)
    → is_token_char n ≡ true
    → ((n == semicolon) ≡ false) × ((n == equals_sign) ≡ false) × (is_whitespace n ≡ false)
unfolding is_token_char is_whitespace
token_char n h = ground (arith, h)

token_text : (s : String) → all_chars is_token_char s ≡ true → is_sent_name s ≡ true
unfolding has is_unspaced
token_text ε h = refl
token_text (c ▸ s) h = ground (arith, h, token_char (code c), token_text s)

host_prefix_sent : is_sent_name host_cookie_prefix ≡ true
unfolding has is_unspaced is_whitespace
host_prefix_sent = refl

-- The cookie of a name that is a token is one that a browser sends as it is, prefixed or not.
pub cookie_name-is_sent_name :
    (secure : Bool) (name : String)
    → is_cookie_token name ≡ true
    → is_sent_name (cookie_name secure name) ≡ true
unfolding cookie_name is_cookie_token
cookie_name-is_sent_name secure name h =
    let own = token_text name (ground (arith, h)) in
    let prefixed : is_sent_name (host_cookie_prefix <> name) ≡ true = ground (
      arith,
      own,
      host_prefix_sent,
      has-join semicolon host_cookie_prefix name (ground (arith, host_prefix_sent))
          (ground (arith, own)),
      has-join equals_sign host_cookie_prefix name (ground (arith, host_prefix_sent))
          (ground (arith, own)),
      is_unspaced-join host_cookie_prefix name (ground (arith, host_prefix_sent))
          (ground (arith, own)),
    ) in
    ground (arith, own, prefixed)
