-- ===== src/Bff/Server/Ended.antt =====
-- An ended session is gone, and its refresh token with it.
use weave_auth.Prelude.{
  String, true, not, Option, none, some, List, [], ◌∷◌, ◌++◌, map, ◌≡◌, arith, ◌==◌, if◌then◌else◌,
  contains, contains-append, only_if, filter_map, text_key,
}
use weave_auth.Bff.Session.{SessionData, SessionSelector, matches}
use weave_auth.Bff.Storage.{get_session, revoke}
use weave_auth.Bff.Storage.Invariant.{InStep}
use weave_auth.Bff.Storage.Ending.{take_session_lem, get_session-revoke, revoke-hands-back}
use weave_auth.Bff.Server.{AppState, end_session, end_sessions, revoke_refresh_tokens, revoke_token}

contains-refresh_tokens :
    (get_one : String → Option SessionData) (ids : List String) (id : String) (d : SessionData)
    → contains id ids ≡ true
    → get_one id ≡ some d
    → contains d.refresh_token (map (λ e. e.refresh_token) (filter_map get_one ids)) ≡ true
contains-refresh_tokens get_one [] id d c e = cc
contains-refresh_tokens get_one (x ∷ ids) id d c e = ground (
  arith,
  contains-refresh_tokens get_one ids id d,
  e,
  c,
  text_key.same_iff x id,
  text_key.same_iff d.refresh_token d.refresh_token,
)

-- After `end_session` the session is gone, every other is as it was, and Hydra was asked to revoke
-- the refresh token of the session that was there, and no other.
pub end_session_lem :
    (s : AppState) (id j : String)
    → ((end_session s id).1 ≡ get_session s.sessions id)
      × (get_session (end_session s id).0.sessions j
          ≡ (if id == j then none else get_session s.sessions j))
      × ((end_session s id).0.revoked ≡ (elim (get_session s.sessions id) [
        | none ↦ s.revoked
        | some d ↦ s.revoked ++ d.refresh_token ∷ []
      ]))
unfolding end_session revoke_token
end_session_lem s id j = ground (arith, take_session_lem s.sessions id j)

-- After `end_sessions`, on a store whose index is in step, exactly the sessions that the selector
-- matches are gone, and Hydra was asked to revoke the refresh token of each.
pub end_sessions_lem :
    (s : AppState) (selector : SessionSelector)
    → InStep s.sessions
    → ((j : String)
        → get_session (end_sessions s selector).sessions j
          ≡ only_if (λ d. not (matches selector d)) (get_session s.sessions j))
      × ((j : String) (d : SessionData)
          → get_session s.sessions j ≡ some d
          → matches selector d ≡ true
          → contains d.refresh_token (end_sessions s selector).revoked ≡ true)
unfolding end_sessions revoke_refresh_tokens
end_sessions_lem s selector h =
    let (ids, _, named, ended) = revoke-hands-back s.sessions h selector in
    (
      get_session-revoke s.sessions h selector,
      λ j d e m. ground (
        arith,
        e,
        m,
        named j,
        contains-refresh_tokens (get_session s.sessions) ids j d,
        contains-append d.refresh_token s.revoked
            (map (λ e. e.refresh_token) (revoke s.sessions selector).1),
        ended,
      ),
    )
