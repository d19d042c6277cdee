-- ===== src/Login/Challenges/Granting.antt =====
-- What is granted, and which logouts are accepted.
use weave_auth.Prelude.{
  String, true, Option, none, some, List, [], ◌∷◌, contains, All, ◌≡◌, refl, arith, ◌==◌,
  Option-cases, Bool-cases, inl, inr, text_key,
}
use weave_auth.Login.Challenges.{
  allowed_scopes, ConsentRequest, find_not_allowed, check_grantable, granted, Surroundings,
  answer_for, consent_found, consent,
}

find_not_allowed-none :
    (scopes : List String)
    → find_not_allowed scopes ≡ none
    → All (λ scope. contains scope allowed_scopes ≡ true) scopes
unfolding find_not_allowed
find_not_allowed-none [] h = tt
find_not_allowed-none (scope ∷ scopes) h = elim (Bool-cases (contains scope allowed_scopes)) [
  | inl c ↦ (c, find_not_allowed-none scopes (ground (arith, h, c)))
  | inr c ↦ ground (arith, h, c)
]

grantable :
    (r : ConsentRequest) (client_id : String) (scopes audience : List String)
    → answer_for r (check_grantable r client_id) ≡ granted scopes audience
    → (r.client_id ≡ client_id)
      × (scopes ≡ r.requested_scope)
      × (audience ≡ r.requested_access_token_audience)
      × All (λ scope. contains scope allowed_scopes ≡ true) r.requested_scope
unfolding check_grantable
grantable r client_id scopes audience h = elim (Bool-cases (r.client_id == client_id)) [
  | inr e ↦ ground (arith, h, e)
  | inl e ↦ elim (Option-cases (find_not_allowed r.requested_scope)) [
    | inr (scope, f) ↦ ground (arith, h, e, f)
    | inl f ↦ (
      (text_key.same_iff r.client_id client_id).0 e,
      ground (arith, h, e, f),
      ground (arith, h, e, f),
      find_not_allowed-none r.requested_scope f,
    )
  ]
]

-- Consent grants exactly what was asked for, to the configured client alone, and only scopes out of
-- `openid` and `offline_access`.
pub consent-granted :
    (w : Surroundings) (challenge : String) (scopes audience : List String)
    → (consent w (some challenge)).0 ≡ granted scopes audience
    → (r : ConsentRequest) × (w.consent_request challenge ≡ some (some r))
      × (r.client_id ≡ w.bff_client_id)
      × (scopes ≡ r.requested_scope)
      × (audience ≡ r.requested_access_token_audience)
      × All (λ scope. contains scope allowed_scopes ≡ true) r.requested_scope
unfolding consent
consent-granted w challenge scopes audience h = found (w.consent_request challenge) refl h
  where
    found :
        (o : Option (Option ConsentRequest))
        → w.consent_request challenge ≡ o
        → (consent_found w challenge o).0 ≡ granted scopes audience
        → (r : ConsentRequest) × (w.consent_request challenge ≡ some (some r))
          × (r.client_id ≡ w.bff_client_id)
          × (scopes ≡ r.requested_scope)
          × (audience ≡ r.requested_access_token_audience)
          × All (λ scope. contains scope allowed_scopes ≡ true) r.requested_scope
    found none e g = unfold consent_found in ground (arith, g)
    found (some none) e g = unfold consent_found in ground (arith, g)
    found (some (some r)) e g =
        unfold consent_found in
        let (client, s, a, allowed) = grantable r w.bff_client_id scopes audience g in
        (r, e, client, s, a, allowed)
