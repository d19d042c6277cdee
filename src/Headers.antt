-- ===== src/Headers.antt =====
-- The headers of a message, as the http library's `HeaderMap` keeps them: names in lower case, several
-- values to a name in the order in which they came. A value that is not text is its bytes.
pub mod Laws
use weave_auth.Prelude.{
  ℕ, String, Bool, not, Option, none, some, List, [], ◌∷◌, ◌++◌, ◌==◌, any, map, filter, filter_map,
  is_some, text_key,
}

pub data HeaderValue : Type 0 where
  text : String → HeaderValue
  bytes : List ℕ → HeaderValue

abbrev pub Headers : Type 0
Headers = List (String × HeaderValue)

-- `HeaderValue::to_str`.
abbrev pub to_str : HeaderValue → Option String
to_str (text t) = some t
to_str (bytes b) = none

-- `HeaderMap::get_all`.
unfoldable pub get_all : Headers → String → List HeaderValue
get_all h name = map (λ e. e.1) (filter (λ e. e.0 == name) h)

abbrev first : List HeaderValue → Option HeaderValue
first [] = none
first (v ∷ vs) = some v

-- `HeaderMap::get`: the first value.
unfoldable pub get : Headers → String → Option HeaderValue
get h name = first (get_all h name)

-- `HeaderMap::contains_key`.
unfoldable pub contains_key : Headers → String → Bool
contains_key h name = any (λ e. e.0 == name) h

-- `HeaderMap::append`.
unfoldable pub append : Headers → String → HeaderValue → Headers
append h name value = h ++ (name, value) ∷ []

-- `HeaderMap::insert`: in place of the values that the name had.
unfoldable pub insert : Headers → String → HeaderValue → Headers
insert h name value = filter (λ e. not (e.0 == name)) h ++ (name, value) ∷ []
