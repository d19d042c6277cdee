-- ===== src/Bff/Proxy/Tests.antt =====
-- Requests whose session is refreshed, and the theorems at them.
use weave_auth.Maps.{get, insert, remove}
use weave_auth.Prelude.{
  ◌↔◌, ◌≢◌, ℕ, ◌+◌, ◌≤◌, String, false, not, none, some, [], ◌∷◌, ◌++◌, ◌≡◌, refl, ok, err,
  text_key, is_some_and, leb,
}
use weave_auth.Bff.Session.{SessionData, seconds, ends_at, max_session_lifetime}
use weave_auth.Bff.Storage.{
  update_session, take_session, remove_session, drop_found, unindex_replaced, unindex, unindex_ids,
  put_ids, index_id, ids_of, insert_session, get_session, no_sessions, get_session,
}
use weave_auth.Bff.Hydra.{
  read_tokens, classify, check_response, rejected, TokenSet, Answer, token_request,
}
use weave_auth.Bff.Server.{revoke_token, AppState, new_state, end_session}
use weave_auth.Bff.Proxy.{
  is_fresh, with_turn, resolve_found, stored, store_refreshed, after_answer, unauthenticated,
  Surroundings, refreshed_session, refresh_session, resolve_bearer_token,
}
use weave_auth.Bff.Proxy.Lost.{SaysDead, refresh_session-lost_iff}
use weave_auth.Bff.Proxy.Refresh.{refresh_session-ended, refresh_session-kept}

proxy_runs : ℕ
unfolding revoke_token refresh_session after_answer store_refreshed stored refreshed_session
    resolve_bearer_token resolve_found with_turn is_fresh token_request check_response classify
    read_tokens update_session end_session take_session get_session insert_session remove_session
    drop_found unindex_replaced unindex unindex_ids put_ids index_id ids_of get insert remove
    ends_at
proxy_runs = 0

abbrev login : SessionData
login = record {
  access_token = "a1";
  refresh_token = "r1";
  id_token = "i";
  expires_at = seconds 60;
  created_at = seconds 0;
  refresh_expires_at = seconds 3600;
  user_id = 7;
  sid = some "h";
}

abbrev logged_in : AppState
logged_in = record new_state { sessions = insert_session no_sessions "s" login }

abbrev rotation : Answer
rotation = record {
  status = 200;
  oauth_error = none;
  tokens = some (record {
    access_token = "a2";
    refresh_token = some "r2";
    id_token = none;
    expires_in = some 60;
  });
}

abbrev rotated : TokenSet
rotated = record {
  access_token = "a2";
  refresh_token = some "r2";
  id_token = none;
  expires_in = seconds 60;
}

abbrev refusal : Answer
refusal = record { status = 400; oauth_error = some "invalid_grant"; tokens = none }

-- Hydra's answer, and what happens before it comes.
abbrev given : Answer → (AppState → AppState) → Surroundings
given answer meanwhile = record {
  clock = λ n. seconds (100 + n);
  while_waiting = λ s. s;
  while_refreshing = meanwhile;
  refreshed = λ token. some answer;
  refresh_ttl = seconds 3600;
}

abbrev calm : Surroundings
calm = given rotation (λ s. s)

abbrev logging_out : Surroundings
logging_out = given rotation (λ s. (end_session s "s").0)

abbrev refreshed : SessionData
refreshed = refreshed_session calm login rotated

abbrev late : Surroundings
late = record calm { clock = λ n. seconds 4000 }

over :
    is_some_and (λ d. not (leb (ends_at d) (late.clock 0))) (get_session logged_in.sessions "s")
    ≡ false
unfolding proxy_runs
over = refl

reads_rotation : token_request (some rotation) ≡ ok rotated
unfolding proxy_runs
reads_rotation = refl

logged_out : get_session (end_session logged_in "s").0.sessions "s" ≡ none
unfolding proxy_runs
logged_out = refl

refresh_session-ended_example :
    ((refresh_session logging_out logged_in "s" login).1 ≡ err unauthenticated)
    × ((j : String)
        → get_session (refresh_session logging_out logged_in "s" login).0.sessions j
          ≡ get_session (end_session logged_in "s").0.sessions j)
    × ((refresh_session logging_out logged_in "s" login).0.revoked
        ≡ (end_session logged_in "s").0.revoked
          ++ (refreshed_session logging_out login rotated).refresh_token ∷ [])
refresh_session-ended_example =
    refresh_session-ended logging_out logged_in "s" login rotated reads_rotation logged_out

reads_refusal : token_request (some refusal) ≡ err (rejected 400)
unfolding proxy_runs
reads_refusal = refl

refreshes : (refresh_session calm logged_in "s" login).1 ≡ ok refreshed
unfolding proxy_runs
refreshes = refl

refresh_session-kept_example :
    (get_session (refresh_session calm logged_in "s" login).0.sessions "s" ≡ some refreshed)
    × (refreshed.user_id ≡ 7)
    × (refreshed.sid ≡ some "h")
    × (refreshed.id_token ≡ "i")
    × (refreshed.created_at ≡ seconds 0)
    × (ends_at refreshed ≤ seconds 0 + max_session_lifetime)
refresh_session-kept_example = refresh_session-kept calm logged_in "s" "s" login refreshed refreshes

resolves : (resolve_bearer_token calm logged_in "s").1 ≡ ok "a2"
unfolding proxy_runs
resolves = refl

abbrev refused_by_hydra : Surroundings
refused_by_hydra = given refusal (λ s. s)

still_there : get_session logged_in.sessions "s" ≡ some login
unfolding proxy_runs
still_there = refl

refresh_session-lost_iff_example :
    ((get_session (refresh_session refused_by_hydra logged_in "s" login).0.sessions "s" ≡ none)
      ↔ ((a : Answer) × (some refusal ≡ some a) × SaysDead a))
    × ((j : String)
        → "s" ≢ j
        → get_session (refresh_session refused_by_hydra logged_in "s" login).0.sessions j
          ≡ get_session logged_in.sessions j)
refresh_session-lost_iff_example =
    refresh_session-lost_iff refused_by_hydra logged_in "s" login login still_there
