-- ===== src/Bff/Backchannel/Tests.antt =====
-- A logout token that Hydra sends, and the theorems at it.
use weave_auth.Maps.{insert, retain, get}
use weave_auth.Prelude.{
  ℕ, String, true, not, Option, none, some, [], ◌∷◌, contains, ◌≡◌, refl, only_if, ok, err,
  text_key,
}
use weave_auth.Json.{
  ℤ, pos, negsuc, Json, text, integer, object, no_members, member, get_member, find_member,
}
use weave_auth.Bff.Session.{SessionData, Time, user, seconds, matches}
use weave_auth.Bff.Storage.{no_sessions, insert_session, get_session}
use weave_auth.Bff.Storage.Invariant.{InStep, insert_session-InStep, no_sessions-InStep}
use weave_auth.Bff.Jti.{sweep_jtis, recorded, record_jti}
use weave_auth.Bff.Jti.Replay.{after_event, after_events, sweeps}
use weave_auth.Bff.LogoutToken.{
  check_age, as_i64, stale, LogoutClaims, Readers, check_claims, text_claim, issued_at,
  read_subject, target_of,
}
use weave_auth.Bff.Server.{revoke_refresh_tokens, AppState, new_state, end_sessions}
use weave_auth.Bff.Server.Ended.{end_sessions_lem}
use weave_auth.Bff.Backchannel.{
  replayed, logout_verified, logout_recorded, as_service_error, invalid, logout,
  verify_logout_token,
}
use weave_auth.Bff.Backchannel.Once.{before_ending, logout-accepted}

abbrev session_of_7 : SessionData
session_of_7 = record {
  access_token = "a";
  refresh_token = "r";
  id_token = "i";
  expires_at = seconds 60;
  created_at = seconds 0;
  refresh_expires_at = seconds 3600;
  user_id = 7;
  sid = some "h";
}

abbrev signed_in : AppState
signed_in = record new_state { sessions = insert_session no_sessions "s" session_of_7 }

signed_in-InStep : InStep signed_in.sessions
signed_in-InStep = insert_session-InStep no_sessions "s" no_sessions-InStep session_of_7

-- No other task runs meanwhile.
abbrev calm : AppState → AppState
calm s = s

abbrev after_epoch : ℤ → Option Time
after_epoch (pos n) = some (seconds n)
after_epoch (negsuc n) = none

abbrev readers : Readers
readers = record { as_time = after_epoch; as_uuid = λ sub. some 7 }

-- Issued at second 100 for user 7.
abbrev sent : Json
sent = object (
    member "iat" (integer (pos 100)) (
      member "events"
        (object (
          member "http://schemas.openid.net/event/backchannel-logout" (object no_members)
            no_members))
        (member "sub" (text "7") (member "jti" (text "j") no_members))))

abbrev sent_claims : LogoutClaims
sent_claims = record { target = user 7; jti = "j"; replay_until = seconds 760 }

backchannel_runs : ℕ
unfolding logout as_service_error logout_recorded logout_verified verify_logout_token record_jti
    as_i64 check_age check_claims issued_at read_subject target_of text_claim find_member get_member
    get
backchannel_runs = 0

checks : check_claims readers sent (seconds 110) ≡ ok sent_claims
unfolding backchannel_runs
checks = refl

refuses :
    (logout readers calm signed_in (ok sent) (seconds 800) (seconds 800)).1 ≡ err (invalid stale)
unfolding backchannel_runs
refuses = refl

accepts : (logout readers calm signed_in (ok sent) (seconds 110) (seconds 111)).1 ≡ ok tt
unfolding backchannel_runs
accepts = refl

logout-accepted_example :
    (c : LogoutClaims) × (verify_logout_token readers (ok sent) (seconds 110) ≡ ok c)
    × ((record_jti signed_in.logout_jtis c.jti c.replay_until (seconds 111)).1 ≡ recorded)
    × ((logout readers calm signed_in (ok sent) (seconds 110) (seconds 111)).0.logout_jtis
        ≡ (before_ending readers calm signed_in
            (ok sent)
            (seconds 110)
            (seconds 111)
            c).logout_jtis)
    × ((j : String)
        → get_session
            (logout readers calm signed_in (ok sent) (seconds 110) (seconds 111)).0.sessions
            j
          ≡ only_if
              (λ d. not (matches c.target d))
              (get_session
                (before_ending readers calm signed_in
                  (ok sent)
                  (seconds 110)
                  (seconds 111)
                  c).sessions
                j))
logout-accepted_example =
    logout-accepted readers calm signed_in (ok sent) (seconds 110) (seconds 111)
      (λ c. signed_in-InStep) accepts

abbrev accepted_state : AppState
accepted_state = (logout readers calm signed_in (ok sent) (seconds 110) (seconds 111)).0

-- The state that the same token comes to again, after a sweep.
abbrev swept_state : AppState
swept_state = record accepted_state {
  logout_jtis = after_events accepted_state.logout_jtis (sweeps (seconds 600) ∷ []);
}

replay_refused :
    (logout readers calm swept_state (ok sent) (seconds 700) (seconds 701)).1 ≡ err replayed
unfolding backchannel_runs after_events after_event sweep_jtis retain end_sessions
    revoke_refresh_tokens insert
replay_refused = refl

end_sessions_lem_example :
    ((j : String)
      → get_session (end_sessions signed_in (user 7)).sessions j
        ≡ only_if (λ d. not (matches (user 7) d)) (get_session signed_in.sessions j))
    × ((j : String) (d : SessionData)
        → get_session signed_in.sessions j ≡ some d
        → matches (user 7) d ≡ true
        → contains d.refresh_token (end_sessions signed_in (user 7)).revoked ≡ true)
end_sessions_lem_example = end_sessions_lem signed_in (user 7) signed_in-InStep
