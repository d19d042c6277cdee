-- ===== src/Hooks/TokenHook/Claims.antt =====
-- What a token says, and who may say it.
use weave_auth.Prelude.{
  ℕ, String, Bool, true, false, not, Option, none, some, List, [], ◌∷◌, contains, ◌≡◌, inl, inr,
  refl, arith, ◌==◌, ◌&&◌, if◌then◌else◌, ok, ok_or, ok_or_ok, map_err_ok, map_err, steps_ok,
  Bool-cases, Option-cases, text_key,
}
use weave_auth.Json.{text, boolean}
use weave_auth.Maps.{get, insert, keys}
use weave_auth.Maps.Laws.{get-insert}
use weave_auth.Hooks.Kratos.{Identity, is_active, email, email_verified}
use weave_auth.Hooks.TokenHook.{
  invalid_subject, identity_without_email, downstream_service_failed, lookup_error,
  reserved_claim_names, Claims, find_reserved, reject_reserved, Surroundings, handler_claims,
  with_email, IssuedClaims, issue_claims,
}

find_reserved-none :
    (claims : Claims) (name : String)
    → find_reserved (keys claims) ≡ none
    → contains name reserved_claim_names ≡ true
    → get name claims ≡ none
unfolding find_reserved get
find_reserved-none [] name h r = refl
find_reserved-none ((k, v) ∷ claims) name h r =
    elim (Bool-cases (contains k reserved_claim_names)) [
      | inl c ↦ ground (arith, h, c)
      | inr c ↦ elim (Bool-cases (k == name)) [
        | inl e ↦ ground (arith, c, r, (text_key.same_iff k name).0 e)
        | inr e ↦ ground (arith, h, c, e, r, find_reserved-none claims name)
      ]
    ]

reject_reserved_ok :
    (claims : Claims) (name : String)
    → reject_reserved claims ≡ ok tt
    → contains name reserved_claim_names ≡ true
    → get name claims ≡ none
unfolding reject_reserved
reject_reserved_ok claims name h r = elim (Option-cases (find_reserved (keys claims))) [
  | inl e ↦ find_reserved-none claims name e r
  | inr (k, e) ↦ ground (arith, h, e)
]

handler_claims_ok :
    (handler : Option (ℕ → String → Bool → String → List String → Option Claims)) (user : ℕ)
    (address : String) (verified : Bool) (client : String) (scopes : List String) (claims : Claims)
    (name : String)
    → handler_claims handler user address verified client scopes ≡ ok claims
    → contains name reserved_claim_names ≡ true
    → get name claims ≡ none
unfolding handler_claims get
handler_claims_ok none user address verified client scopes claims name h r = ground (arith, h)
handler_claims_ok (some handler) user address verified client scopes claims name h r =
    let (given, e, h1) =
      steps_ok (ok_or downstream_service_failed (handler user address verified client scopes)) _
        h in
    let (_, allowed, h2) = steps_ok (reject_reserved given) _ h1 in
    ground (arith, h2, reject_reserved_ok given name allowed r)

get-with_email :
    (address : String) (verified : Bool) (claims : Claims) (name : String)
    → get name (with_email address verified claims) ≡ (
        if "email_verified" == name
        then some (boolean verified)
        else if "email" == name
        then some (text address)
        else get name claims)
unfolding with_email
get-with_email address verified claims name = ground (
  arith,
  get-insert "email_verified" name (boolean verified) (insert "email" (text address) claims),
  get-insert "email" name (text address) claims,
)

-- Claims are issued only for an identity that Kratos has and lets sign in, with an email, verified
-- if that is required. Both tokens carry that email and its flag, and no handler can set any other
-- reserved claim: the access token has none.
pub issue_claims_lem :
    (w : Surroundings) (subject client : String) (scopes : List String) (issued : IssuedClaims)
    → issue_claims w subject client scopes ≡ ok issued
    → (user : ℕ) × (identity : Identity) × (address : String) × (w.as_uuid subject ≡ some user)
      × (w.get_identity user ≡ ok identity)
      × (is_active identity ≡ true)
      × (email identity ≡ some address)
      × ((w.require_verified_email && not (email_verified identity)) ≡ false)
      × (get "email" issued.access_token ≡ some (text address))
      × (get "email" issued.id_token ≡ some (text address))
      × (get "email_verified" issued.access_token ≡ some (boolean (email_verified identity)))
      × (get "email_verified" issued.id_token ≡ some (boolean (email_verified identity)))
      × ((name : String)
          → contains name reserved_claim_names ≡ true
          → ("email_verified" == name) ≡ false
          → ("email" == name) ≡ false
          → get name issued.access_token ≡ none)
unfolding issue_claims
issue_claims_lem w subject client scopes issued h =
    let (user, e1, h1) = steps_ok (ok_or invalid_subject (w.as_uuid subject)) _ h in
    let (identity, e2, h2) = steps_ok (map_err lookup_error (w.get_identity user)) _ h1 in
    let (_, e3, h3) = steps_ok (if is_active identity then ok tt else _) _ h2 in
    let (address, e4, h4) = steps_ok (ok_or identity_without_email (email identity)) _ h3 in
    let (_, e5, h5) =
      steps_ok (if w.require_verified_email && not (email_verified identity) then _ else ok tt) _
        h4 in
    let (claims, e6, h6) =
      steps_ok (handler_claims w.login_claims user address (email_verified identity) client scopes)
        _ h5 in
    let said = get-with_email address (email_verified identity) in
    (
      user,
      identity,
      address,
      ok_or_ok invalid_subject (w.as_uuid subject) user e1,
      map_err_ok lookup_error (w.get_identity user) identity e2,
      ground (arith, e3),
      ok_or_ok identity_without_email (email identity) address e4,
      ground (arith, e5),
      ground (arith, h6, said claims "email"),
      ground (arith, h6, said [] "email"),
      ground (arith, h6, said claims "email_verified"),
      ground (arith, h6, said [] "email_verified"),
      λ name r not_verified not_email. ground (
        arith,
        h6,
        said claims name,
        not_verified,
        not_email,
        handler_claims_ok w.login_claims user address (email_verified identity) client scopes claims
            name e6 r,
      ),
    )
