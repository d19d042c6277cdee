-- ===== src/Bff/Proxy/Refresh.antt =====
-- What a refresh does to the session, and what it never does.
use weave_auth.Prelude.{
  Bool-cases, not, ℕ, ◌+◌, ◌≤◌, String, true, false, Option, none, some, [], ◌∷◌, ◌++◌, ◌≡◌, ◌≢◌,
  ◌⊎◌, arith, ◌==◌, leb, if◌then◌else◌, Result, ok, err, Result-cases, Option-cases, inl, inr,
  text_key, refl, is_some_and, is_some,
}
use weave_auth.Bff.Session.{SessionData, ends_at, max_session_lifetime}
use weave_auth.Bff.Storage.{get_session, update_session}
use weave_auth.Bff.Storage.Ending.{update_session_lem, take_session_lem}
use weave_auth.Bff.Hydra.{
  HydraError, unreachable, rejected, misconfigured, unavailable, unreadable, TokenSet,
  token_request,
}
use weave_auth.Bff.Server.{AppState, revoke_token}
use weave_auth.Bff.Proxy.{
  unauthenticated, refresh_refused, refresh_unavailable, Surroundings, is_fresh, refreshed_session,
  stored, store_refreshed, after_answer, refresh_session, with_turn, resolve_found,
  resolve_bearer_token,
}

-- A session that is not there or has come to its end lets no request through, and the state is as it
-- was.
resolve_bearer_token-ended :
    (w : Surroundings) (s : AppState) (id : String)
    → is_some_and (λ d. not (leb (ends_at d) (w.clock 0))) (get_session s.sessions id) ≡ false
    → resolve_bearer_token w s id ≡ (s, err unauthenticated)
unfolding resolve_bearer_token resolve_found
resolve_bearer_token-ended w s id h = ground (arith, Option-cases (get_session s.sessions id))

-- A session that is ended while its refresh is in flight stays ended: the request is refused, no
-- session changes, and Hydra is asked to revoke the refresh token that it has just handed out.
pub refresh_session-ended :
    (w : Surroundings) (s : AppState) (id : String) (d : SessionData) (t : TokenSet)
    → token_request (w.refreshed d.refresh_token) ≡ ok t
    → get_session (w.while_refreshing s).sessions id ≡ none
    → ((refresh_session w s id d).1 ≡ err unauthenticated)
      × ((j : String)
          → get_session (refresh_session w s id d).0.sessions j
            ≡ get_session (w.while_refreshing s).sessions j)
      × ((refresh_session w s id d).0.revoked
          ≡ (w.while_refreshing s).revoked ++ (refreshed_session w d t).refresh_token ∷ [])
unfolding refresh_session after_answer store_refreshed stored revoke_token
refresh_session-ended w s id d t h e =
    let s' = w.while_refreshing s in
    let gone = update_session_lem s'.sessions id id (refreshed_session w d t) in
    (
      ground (arith, h, e, gone),
      λ j.
          ground (arith, h, e, gone, update_session_lem s'.sessions id j (refreshed_session w d t)),
      ground (arith, h, e, gone),
    )

-- Hydra's refusal of the refresh token drops that session and no other. Any other failure leaves the
-- sessions as they were, so that the next request can try again.
pub refresh_session-failed :
    (w : Surroundings) (s : AppState) (id j : String) (d : SessionData) (e : HydraError)
    → token_request (w.refreshed d.refresh_token) ≡ err e
    → ((status : ℕ) × (e ≡ rejected status)
        × ((refresh_session w s id d).1 ≡ err (refresh_refused status))
        × (get_session (refresh_session w s id d).0.sessions j
            ≡ (if id == j then none else get_session (w.while_refreshing s).sessions j)))
      ⊎ (((status : ℕ) → e ≢ rejected status)
          × (refresh_session w s id d ≡ (w.while_refreshing s, err (refresh_unavailable e))))
unfolding refresh_session after_answer
refresh_session-failed w s id j d unreachable h = inr ((λ status p. cc), rw (h, after_answer) refl)
refresh_session-failed w s id j d (rejected status) h = inl (
  status,
  refl,
  rw (h, after_answer) refl,
  ground (arith, h, take_session_lem (w.while_refreshing s).sessions id j),
)
refresh_session-failed w s id j d (misconfigured status) h =
    inr ((λ other p. cc), rw (h, after_answer) refl)
refresh_session-failed w s id j d (unavailable status) h =
    inr ((λ other p. cc), rw (h, after_answer) refl)
refresh_session-failed w s id j d unreadable h = inr ((λ status p. cc), rw (h, after_answer) refl)

module _ (w : Surroundings) (s : AppState) (id : String) (d fresh : SessionData) where
  -- An answer that leads to a session is one with tokens, which were stored.
  after_answer_ok :
      (r : Result HydraError TokenSet)
      → (after_answer w s id d r).1 ≡ ok fresh
      → (t : TokenSet) × (refreshed_session w d t ≡ fresh)
        × (is_some (get_session s.sessions id) ≡ true)
        × ((after_answer w s id d r).0.sessions ≡ (update_session s.sessions id fresh).0)
  unfolding after_answer store_refreshed stored update_session get_session
  after_answer_ok (ok t) h = (t, ground (arith, h), ground (arith, h), ground (arith, h))
  after_answer_ok (err unreachable) h = ground (arith, h)
  after_answer_ok (err (rejected status)) h = ground (arith, h)
  after_answer_ok (err (misconfigured status)) h = ground (arith, h)
  after_answer_ok (err (unavailable status)) h = ground (arith, h)
  after_answer_ok (err unreadable) h = ground (arith, h)

-- A refresh that succeeds stores the tokens under the same id, touches no other session, and keeps
-- the user, the login session, the id_token and the login time, so that the session still ends
-- within 30 days of the login.
pub refresh_session-kept :
    (w : Surroundings) (s : AppState) (id j : String) (d fresh : SessionData)
    → (refresh_session w s id d).1 ≡ ok fresh
    → (get_session (refresh_session w s id d).0.sessions j
        ≡ (if id == j then some fresh else get_session (w.while_refreshing s).sessions j))
      × (fresh.user_id ≡ d.user_id)
      × (fresh.sid ≡ d.sid)
      × (fresh.id_token ≡ d.id_token)
      × (fresh.created_at ≡ d.created_at)
      × (ends_at fresh ≤ d.created_at + max_session_lifetime)
unfolding refresh_session refreshed_session ends_at
refresh_session-kept w s id j d fresh h =
    let s' = w.while_refreshing s in
    let (t, e, there, saved) =
      after_answer_ok w s' id d fresh (token_request (w.refreshed d.refresh_token)) h in
    ground (arith, e, there, saved, update_session_lem s'.sessions id j fresh)

module _ (w : Surroundings) (s : AppState) (id token : String) where
  with_turn-own :
      (found : Option SessionData)
      → get_session s.sessions id ≡ found
      → (with_turn w s id found).1 ≡ ok token
      → (d : SessionData) × (d.access_token ≡ token)
        × (get_session (with_turn w s id found).0.sessions id ≡ some d)
  unfolding with_turn
  with_turn-own none e h = cc
  with_turn-own (some d) e h = elim (Bool-cases (is_fresh d (w.clock 2))) [
    | inl f ↦ (d, ground (arith, h, f), ground (arith, e, f))
    | inr f ↦ elim (Result-cases (refresh_session w s id d).1) [
      | inl (fresh, r) ↦ (
        fresh,
        ground (arith, h, f, r),
        ground (arith, f, r, refresh_session-kept w s id id d fresh r, text_key.same_iff id id),
      )
      | inr (x, r) ↦ ground (arith, h, f, r)
    ]
  ]

-- A request goes on with the access token of its session: of the one it found, or of the one that
-- stands in the store when it is done waiting.
pub resolve_bearer_token-own :
    (w : Surroundings) (s : AppState) (id token : String)
    → (resolve_bearer_token w s id).1 ≡ ok token
    → (d : SessionData) × (d.access_token ≡ token)
      × ((get_session s.sessions id ≡ some d)
          ⊎ (get_session (resolve_bearer_token w s id).0.sessions id ≡ some d))
unfolding resolve_bearer_token resolve_found
resolve_bearer_token-own w s id token h = own (get_session s.sessions id) refl h
  where
    own :
        (found : Option SessionData)
        → get_session s.sessions id ≡ found
        → (resolve_found w s id found).1 ≡ ok token
        → (d : SessionData) × (d.access_token ≡ token)
          × ((get_session s.sessions id ≡ some d)
              ⊎ (get_session (resolve_found w s id found).0.sessions id ≡ some d))
    own none e h = cc
    own (some d) e h = elim (Bool-cases (leb (ends_at d) (w.clock 0))) [
      | inl past ↦ ground (arith, h, past)
      | inr past ↦ elim (Bool-cases (is_fresh d (w.clock 1))) [
        | inl f ↦ (d, ground (arith, h, past, f), inl e)
        | inr f ↦
            let s' = w.while_waiting s in
            let (d', same, kept) =
              with_turn-own w s' id token (get_session s'.sessions id) refl
                (ground (arith, h, past, f)) in
            (d', same, inr (ground (arith, kept, past, f)))
      ]
    ]
