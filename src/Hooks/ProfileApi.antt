-- ===== src/Hooks/ProfileApi.antt =====
-- hooks/src/profile_api.rs: the fields that a provider's APIs give of a sign-up. What each call
-- answers is a parameter, as are the library's JSON: parsing, the reading at a pointer and the printing
-- of a number or a truth value. The causes of errors, which are only logged, are left out.
pub mod Required
pub mod Pointers
mod Tests
use weave_auth.Prelude.{
  String, Bool, false, not, Option, none, some, List, [], ◌∷◌, ◌++◌, ◌==◌, any, if◌then◌else◌,
  only_if, is_none_or, and_then, Result, ok, err, ok_or, map_ok, map_err, ◌>>=◌, text_key,
}
use weave_auth.Json.{Json, text, boolean, integer, fraction}
use weave_auth.Maps.{Map, insert}
use weave_auth.Hooks.Webhook.{Byte, HttpAnswer, is_success, read_limited}

pub record ProfileApiConfig : Type 0 where
  pub url : String
  pub claims : List (String × String)
  pub scope : Option String
  pub required : Bool

abbrev pub Fields : Type 0
Fields = Map String String

pub data ProfileError : Type 0 where
  consent_required : (scope : String) → ProfileError
  failed : ProfileError

pub record Library : Type 0 where
  pub parse : List Byte → Option Json
  pub pointer : Json → String → Option Json
  pub printed : Json → String

unfoldable pub scope_granted : Option (List String) → String → Bool
scope_granted granted scope = is_none_or (λ scopes. any (λ s. s == scope) scopes) granted

-- The scope of an entry that the user declined.
abbrev pub declined : Option (List String) → ProfileApiConfig → Option String
declined granted api = only_if (λ scope. not (scope_granted granted scope)) api.scope

-- The entries to call. A required one whose scope was declined fails before any call.
unfoldable pub select :
    Option (List String) → List ProfileApiConfig → Result ProfileError (List ProfileApiConfig)
select granted [] = ok []
select granted (api ∷ apis) =
    let rest = select granted apis in
    elim (declined granted api) [
      | some scope ↦ if api.required then err (consent_required scope) else rest
      | none ↦ map_ok (λ selected. api ∷ selected) rest
    ]

-- Scalars are stringified; objects, arrays and null have no field form.
unfoldable pub scalar_to_string : Library → Json → Option String
scalar_to_string l (text value) = some value
scalar_to_string l (boolean b) = some (l.printed (boolean b))
scalar_to_string l (integer n) = some (l.printed (integer n))
scalar_to_string l fraction = some (l.printed fraction)
scalar_to_string l _ = none

pub data ProfileApiFields : Type 0 where
  complete : Fields → ProfileApiFields
  partial : Fields → List String → ProfileApiFields

abbrev pub found_all : Fields → List String → ProfileApiFields
found_all found [] = complete found
found_all found (pointer ∷ pointers) = partial found (pointer ∷ pointers)

unfoldable pub find_claims :
    Library → Json → List (String × String) → Fields → List String → ProfileApiFields
find_claims l value [] found missing = found_all found missing
find_claims l value ((field, pointer) ∷ claims) found missing =
    elim (and_then (l.pointer value pointer) (scalar_to_string l)) [
      | some given ↦ find_claims l value claims (insert field given found) missing
      | none ↦ find_claims l value claims found (missing ++ pointer ∷ [])
    ]

pub data CallFailed : Type 0 where
  call_failed : CallFailed

abbrev pub answered : Option HttpAnswer → Result CallFailed HttpAnswer
answered none = err call_failed
answered (some r) = if is_success r.status then ok r else err call_failed

unfoldable pub fetch_profile_api :
    Library → ProfileApiConfig → Option HttpAnswer → Result CallFailed ProfileApiFields
fetch_profile_api l api answer = answered answer >>= λ response.
    map_err (λ e. call_failed) (read_limited response) >>= λ body.
    ok_or call_failed (l.parse body) >>= λ value. ok (find_claims l value api.claims [] [])

abbrev pub extend : Fields → Fields → Fields
extend fields [] = fields
extend fields ((name, value) ∷ found) = extend (insert name value fields) found

-- The fields after one more result: a later entry wins a clash of names.
unfoldable pub merged :
    Bool → Fields → Result CallFailed ProfileApiFields → Result ProfileError Fields
merged required fields (ok (complete found)) = ok (extend fields found)
merged required fields (ok (partial found missing)) =
    if required then err failed else ok (extend fields found)
merged required fields (err cause) = if required then err failed else ok fields

unfoldable pub merge_all :
    (ProfileApiConfig → Result CallFailed ProfileApiFields)
    → Fields
    → List ProfileApiConfig
    → Result ProfileError Fields
merge_all fetch fields [] = ok fields
merge_all fetch fields (api ∷ apis) =
    merged api.required fields (fetch api) >>= λ more. merge_all fetch more apis

unfoldable pub collect_with :
    (ProfileApiConfig → String → Result CallFailed ProfileApiFields)
    → List ProfileApiConfig
    → Option String
    → Result ProfileError Fields
collect_with fetch selected none = if any (λ api. api.required) selected then err failed else ok []
collect_with fetch selected (some access_token) =
    merge_all (λ api. fetch api access_token) [] selected

unfoldable pub collect :
    (ProfileApiConfig → String → Result CallFailed ProfileApiFields)
    → List ProfileApiConfig
    → Option String
    → Option (List String)
    → Result ProfileError Fields
collect fetch apis access_token granted =
    select granted apis >>= λ selected. collect_with fetch selected access_token
