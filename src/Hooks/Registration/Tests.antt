-- ===== src/Hooks/Registration/Tests.antt =====
-- Sign-ups, run: one that the handler accepts, and one that it refuses.
use weave_auth.Texts.{eq_ignore_ascii_case}
use weave_auth.Prelude.{
  number_key, ℕ, true, false, Option, none, some, [], ◌∷◌, ◌++◌, ◌≡◌, ◌≢◌, refl, ok, err,
}
use weave_auth.Json.{find_member, get_member, object, member, no_members, text}
use weave_auth.Maps.{remove, insert, get}
use weave_auth.Hooks.Kratos.{oidc_access_token, find_entry, email, Identity, email_verified}
use weave_auth.Hooks.Webhook.{is_refusal, post, HttpAnswer, status, registration}
use weave_auth.Hooks.ProfileApi.{
  select, scope_granted, merged, merge_all, collect_with, collect, scalar_to_string, call_failed,
}
use weave_auth.Hooks.Registration.{
  tell, delete_identity, trait_fields, apis_of, provider_fields, notice_of, lookup,
  collect_and_forward, within_budget, undo, AfterRegistrationRequest, registration_rejected, Notice,
  World, Surroundings, register,
}
use weave_auth.Hooks.Registration.Undone.{register-undone, register-accepted}

abbrev newcomer : Identity
newcomer = record {
  state = some "active";
  traits = object (member "email" (text "a@b.test") no_members);
  verifiable_addresses = record { value = "A@b.test"; verified = true } ∷ [];
  credentials = [];
}

abbrev world : World
world = record { identities = (7, newcomer) ∷ []; notices = [] }

abbrev request : AfterRegistrationRequest
request = record {
  identity_id = 7;
  email = "a@b.test";
  traits = member "email" (text "a@b.test") (member "name" (text "A") no_members);
  provider = none;
  granted_scopes = none;
}

abbrev answering : ℕ → Notice → Option HttpAnswer
answering code notice = some (record { status = code; content_length = none; chunks = [] })

abbrev given : ℕ → Surroundings
given code = record {
  profile_apis = [];
  handler = some (answering code);
  fetch = λ api token. err call_failed;
  library = record {
    parse = λ bytes. none;
    pointer = λ value pointer. none;
    printed = λ value. "";
  };
  lookup_fails = false;
  delete_fails = false;
  in_time = true;
  told_before = false;
}

registration_runs : ℕ
unfolding register undo within_budget collect_and_forward lookup get notice_of provider_fields
    apis_of tell registration post email_verified trait_fields email scalar_to_string get_member
    insert find_member remove eq_ignore_ascii_case find_entry oidc_access_token collect collect_with
    merge_all merged scope_granted select is_refusal delete_identity
registration_runs = 0

abbrev told : Notice
told = record {
  user_id = 7;
  email = "a@b.test";
  email_verified = true;
  fields = ("name", "A") ∷ [];
}

accepts : register (given 200) world request ≡ (record world { notices = told ∷ [] }, ok tt)
unfolding registration_runs
accepts = refl

refused :
    register (given 403) world request
    ≡ (record { identities = []; notices = told ∷ [] }, err (registration_rejected (status 403)))
unfolding registration_runs
refused = refl

accepted : (register (given 200) world request).1 ≡ ok tt
unfolding registration_runs
accepted = refl

rejected : (register (given 403) world request).1 ≡ err (registration_rejected (status 403))
unfolding registration_runs
rejected = refl

register-accepted_example :
    (identity : Identity) × (get 7 world.identities ≡ some identity)
    × ((register (given 200) world request).0.identities ≡ world.identities)
    × (n : Notice) × (n.user_id ≡ 7)
    × (n.email_verified ≡ email_verified identity)
    × (registration (answering 200 n) ≡ ok tt)
    × ((register (given 200) world request).0.notices ≡ world.notices ++ n ∷ [])
register-accepted_example =
    register-accepted (given 200) world request (answering 200) refl accepted

register-undone_example :
    (get 7 (register (given 403) world request).0.identities ≡ none)
    × ((j : ℕ)
        → j ≢ 7
        → get j (register (given 403) world request).0.identities ≡ get j world.identities)
    × ((w' : Surroundings)
        → (register w' (register (given 403) world request).0 request).0.notices
          ≡ (register (given 403) world request).0.notices)
register-undone_example =
    register-undone (given 403) world request (registration_rejected (status 403)) refl rejected
