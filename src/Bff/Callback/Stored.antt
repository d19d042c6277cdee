-- ===== src/Bff/Callback/Stored.antt =====
-- The session that a callback starts is in the store afterwards.
use weave_auth.Prelude.{
  Result-cases, ap, ◌∙◌, Result, ok, ok_or, ok_or_ok, map_err, steps_ok, ◌≤◌, ◌<◌, String, true,
  Option, none, some, List, [], ◌∷◌, contains, length, ◌==◌, if◌then◌else◌, ◌≡◌, ◌≢◌, refl, arith,
  Option-cases, inl, inr, text_key, number_key,
}
use weave_auth.Maps.{get}
use weave_auth.Bff.Session.{SessionData}
use weave_auth.Bff.Storage.{Sessions, ids_of, get_session, insert_session, save_session, excess_ids}
use weave_auth.Bff.Storage.Lookup.{get-insert_session, get-remove_all}
use weave_auth.Bff.Storage.Invariant.{InStep, insert_session-InStep, step, save, step-InStep}
use weave_auth.Bff.Storage.Limit.{save_session-limit, save_session-ends-oldest}
use weave_auth.Bff.Server.{AppState, revoke_refresh_tokens}
use weave_auth.Bff.Server.Ended.{end_session_lem}
use weave_auth.Bff.Hydra.{HydraError, TokenSet}
use weave_auth.Bff.Redirects.{PendingLogin}
use weave_auth.Bff.Hydra.{token_request}
use weave_auth.Bff.Redirects.{Config}
use weave_auth.Bff.Callback.{
  Returned, StartedSession, complete, redeem, redeemable, finish, VerifiedIdToken, started_session,
  exchange, missing_id_token, missing_refresh_token, id_token_rejected, Surroundings, end_previous,
  store_started,
}

-- The user's other sessions began before.
abbrev pub IsLatest : Sessions → String → SessionData → Type 0
IsLatest s id d =
    (j : String) (x : SessionData)
    → get_session s j ≡ some x
    → id ≢ j
    → x.user_id ≡ d.user_id
    → x.created_at < d.created_at

contains-length : (id : String) (ids : List String) → contains id ids ≡ true → 1 ≤ length ids
contains-length id [] h = cc
contains-length id (j ∷ ids) h = ground arith

first_of : (ids : List String) → 1 ≤ length ids → (j : String) × (contains j ids ≡ true)
first_of [] h = absurd (ground (arith, h))
first_of (j ∷ ids) h = (j, ground (arith, text_key.same_iff j j))

module _ (s : Sessions) (id : String) (d : SessionData) (h : InStep s) where
  saved-InStep : InStep (save_session s id d).0
  unfolding step
  saved-InStep = step-InStep s (save id d) h

  -- The user has a session left after a login.
  one_left :
      (j : String) × (y : SessionData) × (get_session (save_session s id d).0 j ≡ some y)
      × (y.user_id ≡ d.user_id)
  unfolding get_session
  one_left =
      let u = d.user_id in
      let stored = insert_session s id d in
      let kept = insert_session-InStep s id h d in
      let listed : contains id (ids_of stored.by_user u) ≡ true = ground (
        arith,
        kept.owned u id,
        get-insert_session s id id d,
        text_key.same_iff id id,
        number_key.same_iff u u,
      ) in
      let many = contains-length id (ids_of stored.by_user u) listed in
      let (small, counted) = save_session-limit s id d h in
      let (j, c) =
        first_of (ids_of (save_session s id d).0.by_user u) (omega (arith, many, counted)) in
      elim (Option-cases (get j (save_session s id d).0.by_id)) [
        | inl e ↦ ground (arith, e, c, saved-InStep.owned u j)
        | inr (y, e) ↦
            (j, y, e, ground (arith, e, c, saved-InStep.owned u j, number_key.same_iff y.user_id u))
      ]

  get_session-inserted :
      (j : String)
      → get_session (insert_session s id d) j ≡ (if id == j then some d else get_session s j)
  unfolding get_session
  get_session-inserted j = get-insert_session s id j d

  get_session-saved :
      (j : String) (x : SessionData)
      → get_session (save_session s id d).0 j ≡ some x
      → get_session (insert_session s id d) j ≡ some x
  unfolding save_session get_session
  get_session-saved j x e =
      let stored = insert_session s id d in
      ground (arith, e, get-remove_all stored (excess_ids stored d.user_id) j)

  -- The latest session is not the one that a login ends.
  pub save_session-kept : IsLatest s id d → get_session (save_session s id d).0 id ≡ some d
  save_session-kept latest = elim (Option-cases (get_session (save_session s id d).0 id)) [
    | inr (x, e) ↦
        ground
          (arith, e, get_session-saved id x e, get_session-inserted id, text_key.same_iff id id)
    | inl gone ↦
        let (j, y, there, own) = one_left in
        let apart : id ≢ j = λ e. ground (arith, gone, there, e) in
        let older =
          latest j y
            (ground (
              arith,
              get_session-saved j y there,
              get_session-inserted j,
              apart,
              text_key.same_iff id j,
            ))
            apart own in
        let begun =
          save_session-ends-oldest s id d h id j d y
            (ground (arith, get_session-inserted id, text_key.same_iff id id)) gone there own in
        ground (arith, older, begun)
  ]

-- What must hold of the rest for a new session to be there when the callback ends: the store's index is in
-- step; every session in it began before; its id is new to the browser; and nobody ends it while the
-- evicted ones are revoked.
pub record IsUndisturbed (w : Surroundings) (s : AppState) (previous : Option String) : Type 0 where
  pub in_step : InStep s.sessions
  pub earlier :
      (j : String) (x : SessionData) → get_session s.sessions j ≡ some x → x.created_at < w.now
  pub fresh : previous ≢ some w.session_id
  pub left :
      (t : AppState)
      → get_session (w.while_revoking t).sessions w.session_id ≡ get_session t.sessions w.session_id

end_previous_lem :
    (s : AppState) (id : String) (previous : Option String)
    → previous ≢ some id
    → get_session (end_previous s previous).sessions id ≡ get_session s.sessions id
unfolding end_previous
end_previous_lem s id none apart = refl
end_previous_lem s id (some p) apart =
    let unlike : p ≢ id = λ e. apart (ap some e) in
    ground (arith, (end_session_lem s p id).1, unlike, text_key.same_iff p id)

pub store_started-kept :
    (w : Surroundings) (s : AppState) (d : SessionData) (previous : Option String)
    → d.created_at ≡ w.now
    → IsUndisturbed w s previous
    → get_session (store_started w s d previous).sessions w.session_id ≡ some d
unfolding store_started revoke_refresh_tokens
store_started-kept w s d previous begun h =
    let (sessions, evicted) = save_session s.sessions w.session_id d in
    let revoked = revoke_refresh_tokens (record s { sessions = sessions }) evicted in
    let latest : IsLatest s.sessions w.session_id d =
      λ j x e apart own. ground (arith, h.earlier j x e, begun) in
    end_previous_lem (w.while_revoking revoked) w.session_id previous h.fresh
    ∙ h.left revoked
    ∙ save_session-kept s.sessions w.session_id d h.in_step latest

pub started_session-fresh :
    (w : Surroundings) (pending : PendingLogin) (answer : Result HydraError TokenSet)
    (d : SessionData)
    → started_session w pending answer ≡ ok d
    → (v : VerifiedIdToken) × (w.verify_id_token d.id_token d.access_token pending.nonce ≡ some v)
      × (d.user_id ≡ v.user_id)
      × (d.created_at ≡ w.now)
unfolding started_session
started_session-fresh w pending answer d h =
    let (t, e, h1) = steps_ok (map_err exchange answer) _ h in
    let (id_token, _, h2) = steps_ok (ok_or missing_id_token t.id_token) _ h1 in
    let (refresh_token, _, h3) = steps_ok (ok_or missing_refresh_token t.refresh_token) _ h2 in
    let (v, e3, h4) =
      steps_ok (ok_or id_token_rejected (w.verify_id_token id_token t.access_token pending.nonce)) _
        h3 in
    (
      v,
      ground (arith, h4, ok_or_ok id_token_rejected _ v e3),
      ground (arith, h4),
      ground (arith, h4),
    )

pub complete_session_id :
    (w : Surroundings) (c : Config) (s : AppState) (pending : PendingLogin) (returned : Returned)
    (previous : Option String) (started : StartedSession)
    → (complete w c s (some pending) returned previous).1 ≡ ok started
    → started.session_id ≡ w.session_id
unfolding complete redeem finish
complete_session_id w c s pending returned previous started h =
    elim (Result-cases (redeemable w c pending returned)) [
      | inr (x, e) ↦ ground (arith, h, e)
      | inl (code, e) ↦
          elim (Result-cases
            (started_session w pending (token_request (w.exchanged code pending.verifier)))) [
              | inr (x, g) ↦ ground (arith, h, e, g)
              | inl (d, g) ↦ ground (arith, h, e, g)
            ]
    ]

-- What a callback that succeeds has stored, if nothing gets in its way.
pub complete-stored :
    (w : Surroundings) (c : Config) (s : AppState) (pending : PendingLogin) (returned : Returned)
    (previous : Option String) (started : StartedSession)
    → IsUndisturbed w (w.while_exchanging s) previous
    → (complete w c s (some pending) returned previous).1 ≡ ok started
    → (d : SessionData) × (v : VerifiedIdToken) × (w.verify_id_token d.id_token d.access_token
          pending.nonce
        ≡ some v)
      × (d.user_id ≡ v.user_id)
      × (get_session (complete w c s (some pending) returned previous).0.sessions w.session_id
          ≡ some d)
unfolding complete redeem finish
complete-stored w c s pending returned previous started undisturbed h =
    elim (Result-cases (redeemable w c pending returned)) [
      | inr (x, e) ↦ ground (arith, h, e)
      | inl (code, e) ↦
          elim (Result-cases
            (started_session w pending (token_request (w.exchanged code pending.verifier)))) [
              | inr (x, g) ↦ ground (arith, h, e, g)
              | inl (d, g) ↦
                  let (v, verified, user, begun) = started_session-fresh w pending _ d g in
                  (
                    d,
                    v,
                    verified,
                    user,
                    ground (
                      arith,
                      e,
                      g,
                      store_started-kept w (w.while_exchanging s) d previous begun undisturbed,
                    ),
                  )
            ]
    ]
