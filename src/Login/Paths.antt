-- ===== src/Login/Paths.antt =====
-- login/src/proxy.rs: which paths of Kratos a browser reaches through login.
pub mod Climbing
use weave_auth.Prelude.{
  String, Bool, not, List, [], ◌∷◌, any, ◌==◌, ◌&&◌, ◌||◌, if◌then◌else◌, text_key,
}
use weave_auth.Texts.{
  slash, backslash, percent, split, has, has_twice, trim_end, last_word, eq_ignore_ascii_case,
}

abbrev pub login_submit_path : String
login_submit_path = "/self-service/login"

abbrev pub is_unclean_segment : String → Bool
is_unclean_segment segment = segment == ".." || segment == "." || has backslash segment

unfoldable pub is_clean_path : String → Bool
is_clean_path path =
    not (has percent path)
    && not (has_twice slash path)
    && not (any is_unclean_segment (split slash path))

unfoldable pub is_native_api_path : String → Bool
is_native_api_path path = last_word (split slash (trim_end slash path)) == "api"

unfoldable pub is_login_submit_variant : String → Bool
is_login_submit_variant path =
    not (path == login_submit_path) && eq_ignore_ascii_case (trim_end slash path) login_submit_path
