-- ===== src/Bff/Callback/Start.antt =====
-- What a session takes to be started, and whose it then is.
use weave_auth.Prelude.{
  ◌≤◌, String, true, false, Option, none, some, contains, ◌≡◌, inl, inr, refl, arith, is_some_and,
  Result, ok, err, ok_or, steps_ok, Result-cases, ok_or_ok, text_key,
}
use weave_auth.Bff.Session.{SessionData, seconds, max_session_lifetime}
use weave_auth.Bff.Secrets.{constant_time_eq}
use weave_auth.Bff.Hydra.{HydraError, TokenSet, token_request}
use weave_auth.Bff.Server.{AppState}
use weave_auth.Bff.Redirects.{Config, allows_redirect_uri, PendingLogin}
use weave_auth.Bff.Redirects.Allowlist.{allows_redirect_uri_lem}
use weave_auth.Bff.Callback.{
  Surroundings, state_mismatch, Returned, code_returned, refused, empty, missing_id_token,
  missing_refresh_token, id_token_rejected, returned_state, code_of, VerifiedIdToken, redeemable,
  started_session, StartedSession, session_max_age_secs, store_started, finish, redeem, complete,
}

redeemable_ok :
    (w : Surroundings) (c : Config) (pending : PendingLogin) (returned : Returned) (code : String)
    → redeemable w c pending returned ≡ ok code
    → (state : String) × (returned ≡ code_returned code (some state))
      × (constant_time_eq w.digest state pending.state ≡ true)
      × (allows_redirect_uri c pending.redirect_uri ≡ true)
unfolding redeemable code_of
redeemable_ok w c pending (code_returned code' (some state)) code h =
    (state, ground (arith, h), ground (arith, h), ground (arith, h))
redeemable_ok w c pending (code_returned code' none) code h = ground (arith, h)
redeemable_ok w c pending (refused error state) code h = ground (arith, h)
redeemable_ok w c pending (empty state) code h = ground (arith, h)

started_session_ok :
    (w : Surroundings) (pending : PendingLogin) (answer : Result HydraError TokenSet)
    (d : SessionData)
    → started_session w pending answer ≡ ok d
    → (t : TokenSet) × (v : VerifiedIdToken) × (answer ≡ ok t)
      × (w.verify_id_token d.id_token t.access_token pending.nonce ≡ some v)
      × (d.user_id ≡ v.user_id)
unfolding started_session
started_session_ok w pending (err e) d h = cc
started_session_ok w pending (ok t) d h =
    let (id_token, e1, h1) = steps_ok (ok_or missing_id_token t.id_token) _ h in
    let (refresh_token, e2, h2) = steps_ok (ok_or missing_refresh_token t.refresh_token) _ h1 in
    let (v, e3, h3) =
      steps_ok (ok_or id_token_rejected (w.verify_id_token id_token t.access_token pending.nonce)) _
        h2 in
    (t, v, refl, ground (arith, h3, ok_or_ok id_token_rejected _ v e3), ground (arith, h3))

module _ (w : Surroundings) (c : Config) (s : AppState) (pending : PendingLogin)
    (returned : Returned) (previous : Option String) where
  -- A callback whose `state` is not the one of the login in progress redeems no code and changes
  -- nothing.
  complete-mismatch :
      is_some_and (λ state. constant_time_eq w.digest state pending.state) (returned_state returned)
        ≡ false
      → complete w c s (some pending) returned previous ≡ (s, err state_mismatch)
  unfolding complete redeem redeemable
  complete-mismatch h = ground (arith, h)

  -- A session starts only with the `state` of the login in progress, a code, and a listed destination,
  -- where the browser is sent; and only for a user whose id_token verified with the login's nonce.
  -- Its cookie lives no longer than the refresh token and 30 days.
  pub complete-started :
      (started : StartedSession)
      → (complete w c s (some pending) returned previous).1 ≡ ok started
      → ((code state : String) × (returned ≡ code_returned code (some state))
          × (constant_time_eq w.digest state pending.state ≡ true)
          × (t : TokenSet) × (d : SessionData) × (v : VerifiedIdToken) × (token_request
                (w.exchanged code pending.verifier)
              ≡ ok t)
          × (w.verify_id_token d.id_token t.access_token pending.nonce ≡ some v)
          × (d.user_id ≡ v.user_id)
          × ((complete w c s (some pending) returned previous).0
              ≡ store_started w (w.while_exchanging s) d previous))
        × (started.redirect_uri ≡ pending.redirect_uri)
        × (contains started.redirect_uri c.redirect_uri_allowlist ≡ true)
        × (seconds started.session_max_age_secs ≤ w.refresh_ttl)
        × (seconds started.session_max_age_secs ≤ max_session_lifetime)
  unfolding complete redeem finish session_max_age_secs
  complete-started started h = elim (Result-cases (redeemable w c pending returned)) [
    | inr (x, e) ↦ ground (arith, h, e)
    | inl (code, e) ↦
        elim (Result-cases
          (started_session w pending (token_request (w.exchanged code pending.verifier)))) [
            | inr (x, f) ↦ ground (arith, h, e, f)
            | inl (d, f) ↦
                let (state, from, same, listed) = redeemable_ok w c pending returned code e in
                let (t, v, answer, verified, user) = started_session_ok w pending _ d f in
                (
                  (code, state, from, same, t, d, v, answer, verified, user, ground (arith, e, f)),
                  ground (arith, h, e, f),
                  ground (arith, h, e, f, listed, allows_redirect_uri_lem c pending.redirect_uri),
                  ground (arith, h, e, f),
                  ground (arith, h, e, f),
                )
          ]
  ]
