-- ===== src/Hooks/Registration/Undone.antt =====
-- What a sign-up leaves behind: a failed one nothing, so that its retry tells the handler nothing.
use weave_auth.Prelude.{
  ℕ, String, false, Option, none, some, List, [], ◌∷◌, ◌++◌, ◌≡◌, ◌≢◌, inl, inr, refl, arith, ◌==◌,
  if◌then◌else◌, ok, err, ◌>>=◌, steps_ok, Result-cases, Option-cases, number_key,
}
use weave_auth.Maps.{get}
use weave_auth.Maps.Laws.{get-remove}
use weave_auth.Hooks.Kratos.{oidc_access_token, Identity, email_verified}
use weave_auth.Hooks.Webhook.{HttpAnswer, registration}
use weave_auth.Hooks.ProfileApi.{ProfileApiConfig, collect}
use weave_auth.Hooks.Registration.{
  provider_of, apis_of, AfterRegistrationRequest, AfterRegistrationServiceError, identity_gone,
  Notice, World, Surroundings, provider_fields, lookup, tell, notice_of, collect_and_forward,
  within_budget, delete_identity, undo, register,
}

tell_identities :
    (handler : Option (Notice → Option HttpAnswer)) (world : World) (n : Notice)
    → ((tell handler world n).0.identities ≡ world.identities)
      × ((tell handler world n).1 ≢ err identity_gone)
unfolding tell
tell_identities none world n = (refl, λ e. cc)
tell_identities (some handler) world n =
    (refl, λ e. ground (arith, e, Result-cases (registration (handler n))))

module _ (w : Surroundings) (world : World) (req : AfterRegistrationRequest) where
  collect_identities : (collect_and_forward w world req).0.identities ≡ world.identities
  unfolding collect_and_forward
  collect_identities = elim (Result-cases (lookup w world req.identity_id >>= notice_of w req)) [
    | inl (n, e) ↦ ground (arith, e, tell_identities w.handler world n)
    | inr (x, e) ↦ ground (arith, e)
  ]

  provider_fields-ne :
      (apis : List ProfileApiConfig) (identity : Identity) (provider : Option String)
      → provider_fields w req apis identity provider ≢ err identity_gone
  unfolding provider_fields
  provider_fields-ne [] identity provider e = cc
  provider_fields-ne (api ∷ apis) identity none e = cc
  provider_fields-ne (api ∷ apis) identity (some provider) e = ground (
    arith,
    e,
    Result-cases
        (collect w.fetch (api ∷ apis) (oidc_access_token identity provider) req.granted_scopes),
  )

  notice_of-ne : (identity : Identity) → notice_of w req identity ≢ err identity_gone
  unfolding notice_of
  notice_of-ne identity e = ground (
    arith,
    e,
    provider_fields-ne (apis_of w req) identity (provider_of req),
    Result-cases (provider_fields w req (apis_of w req) identity (provider_of req)),
  )

  lookup-gone :
      (lookup w world req.identity_id >>= notice_of w req) ≡ err identity_gone
      → get req.identity_id world.identities ≡ none
  unfolding lookup
  lookup-gone h = elim (Option-cases (get req.identity_id world.identities)) [
    | inl e ↦ e
    | inr (identity, e) ↦ ground (arith, h, e, notice_of-ne identity)
  ]

  collect-gone :
      (collect_and_forward w world req).1 ≡ err identity_gone
      → get req.identity_id world.identities ≡ none
  unfolding collect_and_forward
  collect-gone h = elim (Result-cases (lookup w world req.identity_id >>= notice_of w req)) [
    | inl (n, e) ↦ ground (arith, h, e, tell_identities w.handler world n)
    | inr (x, e) ↦ ground (arith, h, e, lookup-gone)
  ]

  collect-absent :
      get req.identity_id world.identities ≡ none
      → (collect_and_forward w world req).0.notices ≡ world.notices
  unfolding collect_and_forward lookup
  collect-absent h = ground (arith, h)

  within_budget_identities : (within_budget w world req).0.identities ≡ world.identities
  unfolding within_budget
  within_budget_identities = ground (arith, collect_identities)

  within_budget-gone :
      (within_budget w world req).1 ≡ err identity_gone
      → get req.identity_id world.identities ≡ none
  unfolding within_budget
  within_budget-gone h = ground (arith, h, collect-gone)

  -- A call for an identity that Kratos does not have tells the handler nothing.
  register-absent :
      get req.identity_id world.identities ≡ none → (register w world req).0.notices ≡ world.notices
  unfolding register within_budget undo delete_identity
  register-absent h = ground (arith, h, collect-absent, Result-cases (within_budget w world req).1)

undo_lem :
    (w : Surroundings) (world : World) (id j : ℕ) (e : AfterRegistrationServiceError)
    → w.delete_fails ≡ false
    → (e ≡ identity_gone → get id world.identities ≡ none)
    → get j (undo w world id (err e)).identities
      ≡ (if id == j then none else get j world.identities)
unfolding undo delete_identity
undo_lem w world id j identity_gone answers gone =
    ground (arith, gone refl, number_key.same_iff id j)
undo_lem w world id j e answers gone = ground (arith, answers, get-remove id j world.identities)

-- After a failed sign-up, if Kratos answers the deletion, the identity is not there, no other identity
-- has changed, and no retry of the call, whatever it meets, tells the handler anything.
pub register-undone :
    (w : Surroundings) (world : World) (req : AfterRegistrationRequest)
    (e : AfterRegistrationServiceError)
    → w.delete_fails ≡ false
    → (register w world req).1 ≡ err e
    → (get req.identity_id (register w world req).0.identities ≡ none)
      × ((j : ℕ)
          → j ≢ req.identity_id
          → get j (register w world req).0.identities ≡ get j world.identities)
      × ((w' : Surroundings)
          → (register w' (register w world req).0 req).0.notices ≡ (register w world req).0.notices)
unfolding register
register-undone w world req e answers h =
    let world' = (within_budget w world req).0 in
    let after = (register w world req).0 in
    let kept = within_budget_identities w world req in
    let undone : (j : ℕ)
        → get j after.identities ≡ (if req.identity_id == j then none else get j world.identities) =
      λ j. ground (
        arith,
        h,
        kept,
        undo_lem w world' req.identity_id j e answers
            (λ g. ground (arith, h, g, kept, within_budget-gone w world req)),
      ) in
    let absent : get req.identity_id after.identities ≡ none =
      ground (arith, undone req.identity_id, number_key.same_iff req.identity_id req.identity_id) in
    (
      absent,
      λ j ne. ground (arith, ne, undone j, number_key.same_iff req.identity_id j),
      λ w'. register-absent w' after req absent,
    )

-- A sign-up that succeeds with a handler configured was for an identity that Kratos has and keeps, and
-- the handler was told of it, once, with whether Kratos has verified its address, and accepted.
pub register-accepted :
    (w : Surroundings) (world : World) (req : AfterRegistrationRequest)
    (handler : Notice → Option HttpAnswer)
    → w.handler ≡ some handler
    → (register w world req).1 ≡ ok tt
    → (identity : Identity) × (get req.identity_id world.identities ≡ some identity)
      × ((register w world req).0.identities ≡ world.identities)
      × (n : Notice) × (n.user_id ≡ req.identity_id)
      × (n.email_verified ≡ email_verified identity)
      × (registration (handler n) ≡ ok tt)
      × ((register w world req).0.notices ≡ world.notices ++ n ∷ [])
unfolding register within_budget collect_and_forward lookup notice_of tell undo
register-accepted w world req handler has h =
    elim (Option-cases (get req.identity_id world.identities)) [
      | inl e ↦ ground (arith, h, has, e)
      | inr (identity, e) ↦ elim (Result-cases (notice_of w req identity)) [
        | inr (x, f) ↦ ground (arith, h, has, e, f)
        | inl (n, f) ↦
            let (found, g, same) =
              steps_ok (provider_fields w req (apis_of w req) identity (provider_of req)) _ f in
            (
              identity,
              e,
              ground (arith, h, has, e, f),
              n,
              ground (arith, same),
              ground (arith, same),
              ground (arith, h, has, e, f, Result-cases (registration (handler n))),
              ground (arith, h, has, e, f),
            )
      ]
    ]
