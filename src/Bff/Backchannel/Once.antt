-- ===== src/Bff/Backchannel/Once.antt =====
-- A logout token ends the sessions that it names, once.
use weave_auth.Prelude.{
  String, not, ◌≡◌, ◌⊎◌, inl, inr, refl, arith, only_if, Result, ok, err, Result-cases,
}
use weave_auth.Json.{Json}
use weave_auth.Prelude.{text_key}
use weave_auth.Bff.Session.{SessionSelector, Time, matches}
use weave_auth.Bff.Storage.{get_session}
use weave_auth.Bff.Storage.Invariant.{InStep}
use weave_auth.Bff.Jti.{Recorded, recorded, jti_replayed, record_jti}
use weave_auth.Bff.LogoutToken.{LogoutTokenError, LogoutClaims, Readers}
use weave_auth.Bff.Server.{revoke_refresh_tokens, AppState, end_sessions}
use weave_auth.Bff.Server.Ended.{end_sessions_lem}
use weave_auth.Bff.Backchannel.{
  BackchannelServiceError, verify_logout_token, logout_recorded, logout_verified, logout,
}

Recorded-cases : (a : Recorded) → (a ≡ recorded) ⊎ (a ≡ jti_replayed)
Recorded-cases recorded = inl refl
Recorded-cases jti_replayed = inr refl

logout_jtis_kept :
    (s : AppState) (selector : SessionSelector)
    → (end_sessions s selector).logout_jtis ≡ s.logout_jtis
unfolding end_sessions revoke_refresh_tokens
logout_jtis_kept s selector = refl

module _ (r : Readers) (meanwhile : AppState → AppState) (s : AppState)
    (authentic : Result LogoutTokenError Json) (now later : Time) where
  -- A token that is refused, for whatever reason, ends no session and has no other effect.
  logout-refused :
      (e : BackchannelServiceError)
      → (logout r meanwhile s authentic now later).1 ≡ err e
      → (logout r meanwhile s authentic now later).0 ≡ s
  unfolding logout logout_verified logout_recorded record_jti
  logout-refused e h = elim (Result-cases (verify_logout_token r authentic now)) [
    | inr (x, v) ↦ ground (arith, v)
    | inl (c, v) ↦ ground (arith, v, h)
  ]

  recorded_first :
      (c : LogoutClaims)
      → (logout_verified meanwhile s (ok c) later).1 ≡ ok tt
      → (record_jti s.logout_jtis c.jti c.replay_until later).1 ≡ recorded
  unfolding logout_verified logout_recorded
  recorded_first c h =
      elim (Recorded-cases (record_jti s.logout_jtis c.jti c.replay_until later).1) [
        | inl e ↦ e
        | inr e ↦ ground (arith, h, e)
      ]

  accepted_claims :
      (logout r meanwhile s authentic now later).1 ≡ ok tt
      → (c : LogoutClaims) × (verify_logout_token r authentic now ≡ ok c)
        × ((record_jti s.logout_jtis c.jti c.replay_until later).1 ≡ recorded)
        × ((logout r meanwhile s authentic now later).0
            ≡ end_sessions
                (meanwhile (record s {
                  logout_jtis = (record_jti s.logout_jtis c.jti c.replay_until later).0;
                }))
                c.target)
  unfolding logout logout_verified logout_recorded
  accepted_claims h = elim (Result-cases (verify_logout_token r authentic now)) [
    | inr (x, v) ↦ ground (arith, v, h)
    | inl (c, v) ↦
        let new = recorded_first c (ground (arith, v, h)) in (c, v, new, ground (arith, v, new))
  ]

  -- The state once the `jti` is recorded, and other tasks have run.
  abbrev pub before_ending : LogoutClaims → AppState
  before_ending c =
      meanwhile (record s { logout_jtis = (record_jti s.logout_jtis c.jti c.replay_until later).0 })

  -- A token is accepted only with verified claims and if its `jti` is not remembered, which it then
  -- is. It ends exactly the sessions that its claims name, of those that are there once other tasks have
  -- run, on a store whose index is in step then; and it forgets no `jti`.
  pub logout-accepted :
      ((c : LogoutClaims) → InStep (before_ending c).sessions)
      → (logout r meanwhile s authentic now later).1 ≡ ok tt
      → (c : LogoutClaims) × (verify_logout_token r authentic now ≡ ok c)
        × ((record_jti s.logout_jtis c.jti c.replay_until later).1 ≡ recorded)
        × ((logout r meanwhile s authentic now later).0.logout_jtis ≡ (before_ending c).logout_jtis)
        × ((j : String)
            → get_session (logout r meanwhile s authentic now later).0.sessions j
              ≡ only_if (λ d. not (matches c.target d)) (get_session (before_ending c).sessions j))
  logout-accepted h accepted =
      let (c, v, new, after) = accepted_claims accepted in
      (
        c,
        v,
        new,
        ground (arith, after, logout_jtis_kept (before_ending c) c.target),
        λ j. ground (arith, after, (end_sessions_lem (before_ending c) c.target (h c)).0 j),
      )
