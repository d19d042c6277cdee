-- ===== src/Hooks/TokenHook/Tests.antt =====
-- The claims for a user with a verified email, and a role from the claims handler.
use weave_auth.Texts.{eq_ignore_ascii_case}
use weave_auth.Prelude.{
  ℕ, String, true, false, not, none, some, [], ◌∷◌, contains, ◌≡◌, refl, ◌==◌, ◌&&◌, ok, err,
  text_key,
}
use weave_auth.Json.{get_member, find_member, text, boolean, object, member, no_members}
use weave_auth.Maps.{remove, insert, get}
use weave_auth.Hooks.Kratos.{Identity, is_active, email, email_verified}
use weave_auth.Hooks.TokenHook.{
  reject_reserved, handler_claims, find_reserved, reserved_claim_names, reserved_claim_overridden,
  Surroundings, with_email, IssuedClaims, issue_claims,
}
use weave_auth.Hooks.TokenHook.Claims.{issue_claims_lem}

abbrev alice : Identity
alice = record {
  state = some "active";
  traits = object (member "email" (text "a@b.test") no_members);
  verifiable_addresses = record { value = "A@b.test"; verified = true } ∷ [];
  credentials = [];
}

abbrev claiming : String → Surroundings
claiming name = record {
  as_uuid = λ subject. some 7;
  get_identity = λ user. ok alice;
  require_verified_email = true;
  login_claims = some (λ user address verified client scopes. some ((name, text "admin") ∷ []));
}

token_hook_runs : ℕ
unfolding issue_claims email email_verified is_active find_reserved handler_claims reject_reserved
    with_email find_member get_member insert remove eq_ignore_ascii_case
token_hook_runs = 0

abbrev issued : IssuedClaims
issued = record {
  access_token =
      ("email_verified", boolean true) ∷ ("email", text "a@b.test") ∷ ("role", text "admin") ∷ [];
  id_token = ("email_verified", boolean true) ∷ ("email", text "a@b.test") ∷ [];
}

issues : issue_claims (claiming "role") "7" "client" [] ≡ ok issued
unfolding token_hook_runs
issues = refl

refuses_audience :
    issue_claims (claiming "aud") "7" "client" [] ≡ err (reserved_claim_overridden "aud")
unfolding token_hook_runs
refuses_audience = refl

issue_claims_lem_example :
    (user : ℕ) × (identity : Identity) × (address : String) × (some 7 ≡ some user)
    × ((claiming "role").get_identity user ≡ ok identity)
    × (is_active identity ≡ true)
    × (email identity ≡ some address)
    × ((true && not (email_verified identity)) ≡ false)
    × (get "email" issued.access_token ≡ some (text address))
    × (get "email" issued.id_token ≡ some (text address))
    × (get "email_verified" issued.access_token ≡ some (boolean (email_verified identity)))
    × (get "email_verified" issued.id_token ≡ some (boolean (email_verified identity)))
    × ((name : String)
        → contains name reserved_claim_names ≡ true
        → ("email_verified" == name) ≡ false
        → ("email" == name) ≡ false
        → get name issued.access_token ≡ none)
issue_claims_lem_example = issue_claims_lem (claiming "role") "7" "client" [] issued issues
