-- ===== src/Hooks/ProfileApi/Tests.antt =====
-- Sign-ups with a required and an optional API, run.
use weave_auth.Maps.{remove, insert}
use weave_auth.Prelude.{
  if◌then◌else◌, Option, Result, ℕ, String, true, false, none, some, [], ◌∷◌, ◌≡◌, refl, ok, err,
  All,
}
use weave_auth.Hooks.ProfileApi.{
  Library, declined, fetch_profile_api, find_claims, scalar_to_string, merged, merge_all,
  collect_with, scope_granted, select, ProfileApiConfig, consent_required, ProfileApiFields,
  complete, CallFailed, call_failed, collect,
}
use weave_auth.Json.{text}
use weave_auth.Hooks.Webhook.{HttpAnswer, read_limited, read_chunks}
use weave_auth.Hooks.ProfileApi.Pointers.{AnswersInFull, collect-fetch_profile_api}

abbrev phone : ProfileApiConfig
phone = record {
  url = "https://people.test/phone";
  claims = ("phone", "/phone") ∷ [];
  scope = some "phone";
  required = true;
}

abbrev birthday : ProfileApiConfig
birthday = record {
  url = "https://people.test/birthday";
  claims = ("birthday", "/date") ∷ [];
  scope = none;
  required = false;
}

abbrev fetch : ProfileApiConfig → String → Result CallFailed ProfileApiFields
fetch api token = if api.required then ok (complete (("phone", "1") ∷ [])) else err call_failed

profile_runs : ℕ
unfolding collect select scope_granted collect_with merge_all merged insert remove
profile_runs = 0

collects : collect fetch (phone ∷ birthday ∷ []) (some "t") none ≡ ok (("phone", "1") ∷ [])
unfolding profile_runs
collects = refl

needs_consent :
    collect fetch (birthday ∷ phone ∷ []) (some "t") (some ("email" ∷ []))
    ≡ err (consent_required "phone")
unfolding profile_runs
needs_consent = refl

-- The API for the phone answers with a number at its one pointer; the other cannot be reached.
abbrev library : Library
library = record {
  parse = λ bytes. some (text "1");
  pointer = λ value pointer. some value;
  printed = λ value. "";
}

abbrev answers : ProfileApiConfig → String → Option HttpAnswer
answers api token =
    if api.required
    then some (record { status = 200; content_length = none; chunks = some (49 ∷ []) ∷ [] })
    else none

collects_phone :
    collect
      (λ api token. fetch_profile_api library api (answers api token))
      (phone ∷ birthday ∷ [])
      (some "t")
      none
    ≡ ok (("phone", "1") ∷ [])
unfolding profile_runs fetch_profile_api find_claims scalar_to_string read_limited read_chunks
collects_phone = refl

collect-fetch_profile_api_example :
    All
      (λ api.
        api.required ≡ true
        → (declined none api ≡ none)
          × (token : String) × (some "t" ≡ some token)
          × AnswersInFull library api (answers api token) (("phone", "1") ∷ []))
      (phone ∷ birthday ∷ [])
collect-fetch_profile_api_example =
    collect-fetch_profile_api library answers (phone ∷ birthday ∷ []) (some "t") none
      (("phone", "1") ∷ []) collects_phone
