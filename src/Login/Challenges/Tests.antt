-- ===== src/Login/Challenges/Tests.antt =====
-- A consent challenge of the configured client, and the theorem at it.
use weave_auth.Prelude.{true, none, some, [], ◌∷◌, contains, All, ◌≡◌, refl, text_key}
use weave_auth.Login.Challenges.{
  allowed_scopes, ConsentRequest, granted, Surroundings, consent, consent_found, check_grantable,
  find_not_allowed,
}
use weave_auth.Login.Challenges.Granting.{consent-granted}

abbrev asked : ConsentRequest
asked = record {
  client_id = "bff";
  requested_scope = "openid" ∷ [];
  requested_access_token_audience = "api" ∷ [];
}

abbrev surroundings : Surroundings
surroundings = record {
  consent_request = λ challenge. some (some asked);
  logout_request = λ challenge. none;
  tell = λ challenge told. some "https://login.test/";
  end_kratos_session = none;
  bff_client_id = "bff";
}

grants : (consent surroundings (some "c")).0 ≡ granted ("openid" ∷ []) ("api" ∷ [])
unfolding consent consent_found check_grantable find_not_allowed
grants = refl

consent-granted_example :
    (r : ConsentRequest) × (some (some asked) ≡ some (some r))
    × (r.client_id ≡ "bff")
    × ("openid" ∷ [] ≡ r.requested_scope)
    × ("api" ∷ [] ≡ r.requested_access_token_audience)
    × All (λ scope. contains scope allowed_scopes ≡ true) r.requested_scope
consent-granted_example = consent-granted surroundings "c" ("openid" ∷ []) ("api" ∷ []) grants
