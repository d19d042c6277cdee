-- ===== src/Bff/Proxy/Lost.antt =====
-- Which of Hydra's answers end a session.
use weave_auth.Prelude.{
  ℕ, ◌≤◌, ◌<◌, String, true, none, some, ◌≡◌, ◌≢◌, ◌⊎◌, ◌↔◌, refl, ap, arith, is_some_and, ok, err,
  Result-cases, Option-cases, inl, inr, text_key,
}
use weave_auth.Bff.Session.{SessionData}
use weave_auth.Bff.Storage.{get_session}
use weave_auth.Bff.Storage.Ending.{update_session_lem}
use weave_auth.Bff.Hydra.{unreachable, rejected, TokenSet, Answer, is_dead_token, token_request}
use weave_auth.Bff.Hydra.Laws.{token_request-rejected_iff}
use weave_auth.Bff.Server.{AppState, revoke_token}
use weave_auth.Bff.Proxy.{
  Surroundings, refreshed_session, stored, store_refreshed, after_answer, refresh_session,
}
use weave_auth.Bff.Proxy.Refresh.{refresh_session-failed}

-- Hydra's way to say that a refresh token is of no use any more.
abbrev pub SaysDead : Answer → Type 0
SaysDead a =
    (400 ≤ a.status)
    × (a.status < 500)
    × (e : String) × (a.oauth_error ≡ some e)
    × ((e ≡ "invalid_grant") ⊎ ((e ≡ "token_inactive") ⊎ (e ≡ "access_denied")))

dead_token :
    (e : String)
    → is_dead_token e ≡ true
    → (e ≡ "invalid_grant") ⊎ ((e ≡ "token_inactive") ⊎ (e ≡ "access_denied"))
dead_token e h = ground (
  arith,
  h,
  text_key.same_iff e "invalid_grant",
  text_key.same_iff e "token_inactive",
  text_key.same_iff e "access_denied",
)

rejected-SaysDead :
    (a : Answer) (status : ℕ) → token_request (some a) ≡ err (rejected status) → SaysDead a
rejected-SaysDead a status h =
    let (_, client, dead) = (token_request-rejected_iff a status).0 h in
    elim (Option-cases a.oauth_error) [
      | inl e ↦ ground (arith, dead, e)
      | inr (name, e) ↦ (
        ground (arith, client),
        ground (arith, client),
        name,
        e,
        dead_token name (ground (arith, dead, e)),
      )
    ]

SaysDead-rejected : (a : Answer) → SaysDead a → token_request (some a) ≡ err (rejected a.status)
SaysDead-rejected a (low, high, e, same, named) =
    let says_dead : is_some_and is_dead_token a.oauth_error ≡ true = ground (
      arith,
      same,
      named,
      text_key.same_iff e "invalid_grant",
      text_key.same_iff e "token_inactive",
      text_key.same_iff e "access_denied",
    ) in
    (token_request-rejected_iff a a.status).1 (refl, ground (arith, low, high), says_dead)

module _ (w : Surroundings) (s : AppState) (id : String) (d here : SessionData) where
  unlost_ok :
      (t : TokenSet)
      → token_request (w.refreshed d.refresh_token) ≡ ok t
      → get_session (w.while_refreshing s).sessions id ≡ some here
      → get_session (refresh_session w s id d).0.sessions id ≢ none
  unfolding refresh_session after_answer store_refreshed stored
  unlost_ok t h there gone = ground (
    arith,
    h,
    there,
    gone,
    update_session_lem (w.while_refreshing s).sessions id id (refreshed_session w d t),
    text_key.same_iff id id,
  )

  unanswered : token_request none ≡ err unreachable
  unfolding token_request
  unanswered = refl

  lost_answer :
      get_session (w.while_refreshing s).sessions id ≡ some here
      → get_session (refresh_session w s id d).0.sessions id ≡ none
      → (a : Answer) × (w.refreshed d.refresh_token ≡ some a) × SaysDead a
  lost_answer there gone = elim (Result-cases (token_request (w.refreshed d.refresh_token))) [
    | inl (t, h) ↦ absurd (unlost_ok t h there gone)
    | inr (e, h) ↦ elim (refresh_session-failed w s id id d e h) [
      | inr (_, same) ↦ ground (arith, there, gone, ap (λ r. get_session r.0.sessions id) same)
      | inl (status, same, _, _) ↦ elim (Option-cases (w.refreshed d.refresh_token)) [
        | inl q ↦ ground (arith, h, same, q, unanswered)
        | inr (a, q) ↦ (a, q, rejected-SaysDead a status (ground (arith, h, same, q)))
      ]
    ]
  ]

  answer_lost :
      (a : Answer)
      → w.refreshed d.refresh_token ≡ some a
      → SaysDead a
      → get_session (refresh_session w s id d).0.sessions id ≡ none
  answer_lost a q dead =
      let h = SaysDead-rejected a dead in
      elim (refresh_session-failed w s id id d (rejected a.status) (rw q h)) [
        | inl (_, _, _, gone) ↦ ground (arith, gone, text_key.same_iff id id)
        | inr (other, _) ↦ absurd (other a.status refl)
      ]

  others_kept :
      (j : String)
      → id ≢ j
      → get_session (refresh_session w s id d).0.sessions j
        ≡ get_session (w.while_refreshing s).sessions j
  unfolding refresh_session after_answer store_refreshed stored revoke_token
  others_kept j apart = elim (Result-cases (token_request (w.refreshed d.refresh_token))) [
    | inl (t, h) ↦ ground (
      arith,
      h,
      update_session_lem (w.while_refreshing s).sessions id j (refreshed_session w d t),
      apart,
      text_key.same_iff id j,
    )
    | inr (e, h) ↦ elim (refresh_session-failed w s id j d e h) [
      | inl (_, _, _, same) ↦ ground (arith, same, apart, text_key.same_iff id j)
      | inr (_, same) ↦ ap (λ r. get_session r.0.sessions j) same
    ]
  ]

  -- A refresh ends a session that is still there when Hydra answers exactly if the answer is a 4xx with
  -- one of the three OAuth errors that call the refresh token dead: no 5xx, no unreadable body, no
  -- missing answer and no refusal of bff itself ends it. It ends no other session.
  pub refresh_session-lost_iff :
      get_session (w.while_refreshing s).sessions id ≡ some here
      → ((get_session (refresh_session w s id d).0.sessions id ≡ none)
          ↔ ((a : Answer) × (w.refreshed d.refresh_token ≡ some a) × SaysDead a))
        × ((j : String)
            → id ≢ j
            → get_session (refresh_session w s id d).0.sessions j
              ≡ get_session (w.while_refreshing s).sessions j)
  refresh_session-lost_iff there =
      ((lost_answer there, λ (a, q, dead). answer_lost a q dead), others_kept)
