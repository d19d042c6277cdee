-- ===== src/Bff/Callback/Tests.antt =====
-- A login that comes back, and the theorems at it.
use weave_auth.Prelude.{
  ℕ, ◌≤◌, String, true, false, none, some, [], ◌∷◌, contains, ◌≡◌, refl, ok, is_some_and, text_key,
  if◌then◌else◌, ◌==◌,
}
use weave_auth.Bff.Session.{SessionData, seconds, max_session_lifetime}
use weave_auth.Bff.Secrets.{bit_xor, bit_or, constant_time_eq}
use weave_auth.Bff.Hydra.{read_tokens, check_response, TokenSet, token_request}
use weave_auth.Bff.Server.{new_state}
use weave_auth.Bff.Redirects.{allows_redirect_uri, Config, PendingLogin}
use weave_auth.Bff.Callback.{
  started_session, session_max_age_secs, redeemable, redeem, finish, code_of, Surroundings,
  code_returned, returned_state, VerifiedIdToken, StartedSession, store_started, complete,
}
use weave_auth.Bff.Callback.Start.{complete-started}

abbrev config : Config
config = record { redirect_uri_allowlist = "https://app.test/" ∷ []; default_redirect_uri = none }

abbrev pending : PendingLogin
pending = record { state = "s"; verifier = "v"; nonce = "n"; redirect_uri = "https://app.test/" }

abbrev surroundings : Surroundings
surroundings = record {
  digest = λ s. (if s == "s" then 129 else 130) ∷ [];
  while_exchanging = λ s. s;
  while_revoking = λ s. s;
  exchanged = λ code verifier. some (record {
    status = 200;
    oauth_error = none;
    tokens = some (record {
      access_token = "a";
      refresh_token = some "r";
      id_token = some "i";
      expires_in = some 60;
    });
  });
  verify_id_token = λ id_token access_token nonce. some (record { user_id = 7; sid = none });
  refresh_ttl = seconds 3600;
  session_id = "new";
  now = seconds 100;
}

callback_runs : ℕ
unfolding complete code_of finish redeem redeemable session_max_age_secs started_session
    check_response read_tokens token_request allows_redirect_uri bit_or bit_xor constant_time_eq
callback_runs = 0

differs :
    is_some_and
      (λ state. constant_time_eq surroundings.digest state pending.state)
      (returned_state (code_returned "c" (some "x")))
    ≡ false
unfolding callback_runs
differs = refl

abbrev expected : StartedSession
expected = record {
  session_id = "new";
  session_max_age_secs = 3600;
  redirect_uri = "https://app.test/";
}

starts :
    (complete surroundings config new_state (some pending) (code_returned "c" (some "s")) none).1
    ≡ ok expected
unfolding callback_runs
starts = refl

complete-started_example :
    ((code state : String) × (code_returned "c" (some "s") ≡ code_returned code (some state))
      × (constant_time_eq surroundings.digest state pending.state ≡ true)
      × (t : TokenSet) × (d : SessionData) × (v : VerifiedIdToken) × (token_request
            (surroundings.exchanged code pending.verifier)
          ≡ ok t)
      × (surroundings.verify_id_token d.id_token t.access_token pending.nonce ≡ some v)
      × (d.user_id ≡ v.user_id)
      × ((complete surroundings config new_state
            (some pending)
            (code_returned "c" (some "s"))
            none).0
          ≡ store_started surroundings new_state d none))
    × ("https://app.test/" ≡ pending.redirect_uri)
    × (contains "https://app.test/" config.redirect_uri_allowlist ≡ true)
    × (seconds 3600 ≤ surroundings.refresh_ttl)
    × (seconds 3600 ≤ max_session_lifetime)
complete-started_example =
    complete-started surroundings config new_state pending (code_returned "c" (some "s")) none
      expected starts
