-- ===== src/Hooks/ProfileApi/Pointers.antt =====
-- What an API that answers in full has answered, and so what a sign-up has of the APIs it requires.
use weave_auth.Prelude.{
  String, true, Option, none, some, List, [], ◌∷◌, ◌++◌, ◌≡◌, ◌≤◌, ◌<◌, refl, arith, All, is_some,
  and_then, Result, ok, err, ok_or, map_err, ok_or_ok, ok_same, steps_ok, Option-cases, inl, inr,
  text_key,
}
use weave_auth.Json.{Json, text, boolean, integer, fraction}
use weave_auth.Maps.{get, insert}
use weave_auth.Maps.Laws.{get-insert}
use weave_auth.Hooks.Webhook.{Byte, HttpAnswer, read_limited}
use weave_auth.Hooks.ProfileApi.{
  ProfileApiConfig, Fields, Library, declined, complete, call_failed, answered, scalar_to_string,
  find_claims, fetch_profile_api, collect,
}
use weave_auth.Hooks.ProfileApi.Required.{All-map, Carried, insert-Carried, collect-required}

-- A text, a number or a truth value.
abbrev pub IsScalar : Json → Type 0
IsScalar (text s) = Unit {0}
IsScalar (boolean b) = Unit {0}
IsScalar (integer n) = Unit {0}
IsScalar fraction = Unit {0}
IsScalar _ = ⊥

module _ (l : Library) where
  scalar : (v : Json) (t : String) → scalar_to_string l v ≡ some t → IsScalar v
  unfolding scalar_to_string
  scalar (text s) t h = tt
  scalar (boolean b) t h = tt
  scalar (integer n) t h = tt
  scalar fraction t h = tt
  scalar Json.null t h = cc
  scalar (Json.array es) t h = cc
  scalar (Json.object ms) t h = cc

  -- The pointer of a claim leads to a scalar, and its field is among the fields.
  abbrev pub IsGiven : Json → Fields → String × String → Type 0
  IsGiven value fields claim =
      ((v : Json) × (l.pointer value claim.1 ≡ some v) × IsScalar v)
      × (is_some (get claim.0 fields) ≡ true)

  not_complete :
      (value : Json) (claims : List (String × String)) (found fs : Fields) (missing : List String)
      (pointer : String)
      → find_claims l value claims found (missing ++ pointer ∷ []) ≡ complete fs
      → ⊥
  unfolding find_claims
  not_complete value [] found fs [] pointer h = cc
  not_complete value [] found fs (p ∷ missing) pointer h = cc
  not_complete value ((field, p) ∷ claims) found fs missing pointer h =
      elim (Option-cases (and_then (l.pointer value p) (scalar_to_string l))) [
        | inr (given, e) ↦
            not_complete value claims (insert field given found) fs missing pointer
              (ground (arith, h, e))
        | inl e ↦
            not_complete value claims found fs (missing ++ pointer ∷ []) p (ground (arith, h, e))
      ]

  read_value :
      (o : Option Json) (t : String)
      → and_then o (scalar_to_string l) ≡ some t
      → (v : Json) × (o ≡ some v) × IsScalar v
  read_value none t h = cc
  read_value (some v) t h = (v, refl, scalar v t h)

  find_claims_ok :
      (value : Json) (claims : List (String × String)) (found fs : Fields)
      → find_claims l value claims found [] ≡ complete fs
      → Carried found fs × All (IsGiven value fs) claims
  unfolding find_claims
  find_claims_ok value [] found fs h = ((λ k q. ground (arith, h, q)), tt)
  find_claims_ok value ((field, pointer) ∷ claims) found fs h =
      elim (Option-cases (and_then (l.pointer value pointer) (scalar_to_string l))) [
        | inl e ↦ absurd (not_complete value claims found fs [] pointer (ground (arith, h, e)))
        | inr (given, e) ↦
            let (carried, rest) =
              find_claims_ok value claims (insert field given found) fs (ground (arith, h, e)) in
            (
              λ k q. carried k (insert-Carried field given found k q),
              (
                (
                  read_value (l.pointer value pointer) given e,
                  carried field (
                      ground
                        (arith, get-insert field field given found, text_key.same_iff field field)),
                ),
                rest,
              ),
            )
      ]

  map_err_ok : {E F A : Type 0} (f : E → F) (r : Result E A) (a : A) → map_err f r ≡ ok a → r ≡ ok a
  map_err_ok f (ok b) a h = ground (arith, h)
  map_err_ok f (err e) a h = cc

  -- A success whose body was read in full, with a value for every pointer.
  abbrev pub AnswersInFull : ProfileApiConfig → Option HttpAnswer → Fields → Type 0
  AnswersInFull api answer fields =
      (response : HttpAnswer) × (answer ≡ some response)
      × (200 ≤ response.status)
      × (response.status < 300)
      × (body : List Byte) × (read_limited response ≡ ok body)
      × (value : Json) × (l.parse body ≡ some value)
      × All (IsGiven value fields) api.claims

  claims_kept :
      (value : Json) (found fields : Fields) (claims : List (String × String))
      → Carried found fields
      → All (IsGiven value found) claims
      → All (IsGiven value fields) claims
  claims_kept value found fields [] carried h = tt
  claims_kept value found fields (claim ∷ claims) carried h =
      ((h.0.0, carried claim.0 h.0.1), claims_kept value found fields claims carried h.1)

  success :
      (answer : Option HttpAnswer) (response : HttpAnswer)
      → answered answer ≡ ok response
      → (answer ≡ some response) × (200 ≤ response.status) × (response.status < 300)
  success none response h = cc
  success (some r) response h = (ground (arith, h), ground (arith, h), ground (arith, h))

  fetch_profile_api_ok :
      (api : ProfileApiConfig) (answer : Option HttpAnswer) (found fields : Fields)
      → fetch_profile_api l api answer ≡ ok (complete found)
      → Carried found fields
      → AnswersInFull api answer fields
  unfolding fetch_profile_api
  fetch_profile_api_ok api answer found fields h carried =
      let (response, a, h1) = steps_ok (answered answer) _ h in
      let (body, b, h2) = steps_ok (map_err (λ e. call_failed) (read_limited response)) _ h1 in
      let (value, c, h3) = steps_ok (ok_or call_failed (l.parse body)) _ h2 in
      let (there, low, high) = success answer response a in
      let (_, given) = find_claims_ok value api.claims [] found (ok_same refl h3) in
      (
        response,
        there,
        low,
        high,
        body,
        map_err_ok (λ e. call_failed) (read_limited response) body b,
        value,
        ok_or_ok call_failed (l.parse body) value c,
        claims_kept value found fields api.claims carried given,
      )

  -- If the fields of a sign-up were collected, then each API that the configuration requires had its
  -- scope granted and was called with the token that Kratos stored; its answer was a success that could
  -- be read and parsed and has a text, a number or a truth value at every pointer of its claims; and the
  -- field of every claim is among the collected ones.
  pub collect-fetch_profile_api :
      (answers : ProfileApiConfig → String → Option HttpAnswer) (apis : List ProfileApiConfig)
      (access_token : Option String) (granted : Option (List String)) (fields : Fields)
      → collect (λ api token. fetch_profile_api l api (answers api token)) apis access_token granted
        ≡ ok fields
      → All
          (λ api.
            api.required ≡ true
            → (declined granted api ≡ none)
              × (token : String) × (access_token ≡ some token)
              × AnswersInFull api (answers api token) fields)
          apis
  collect-fetch_profile_api answers apis access_token granted fields h =
      All-map _ _ apis
        (λ api served q.
          let (undeclined, called) = served q in
          let (token, same, found, full, carried) = called in
          (
            undeclined,
            token,
            same,
            fetch_profile_api_ok api (answers api token) found fields full carried,
          ))
        (collect-required (λ api token. fetch_profile_api l api (answers api token)) apis
          access_token granted fields h)
