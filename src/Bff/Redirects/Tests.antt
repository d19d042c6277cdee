-- ===== src/Bff/Redirects/Tests.antt =====
-- Redirects under one configuration, and the theorems at them.
use weave_auth.Prelude.{ℕ, none, some, [], ◌∷◌, ◌≡◌, refl, ok, text_key}
use weave_auth.Bff.Session.{SessionData, seconds}
use weave_auth.Bff.Storage.{no_sessions, insert_session}
use weave_auth.Bff.Server.{AppState, new_state}
use weave_auth.Bff.Redirects.{allows_redirect_uri, Config, PendingLogin, start, destination}

abbrev config : Config
config = record {
  redirect_uri_allowlist = "https://app.test/" ∷ "https://app.test/other" ∷ [];
  default_redirect_uri = some "https://app.test/";
}

redirects_run : ℕ
unfolding start allows_redirect_uri destination
redirects_run = 0

abbrev pending : PendingLogin
pending = record { state = "s"; verifier = "v"; nonce = "n"; redirect_uri = "https://app.test/" }

starts : start config "s" "v" "n" (some "") ≡ ok pending
unfolding redirects_run
starts = refl

leads : destination config (some "https://app.test/other") ≡ ok "https://app.test/other"
unfolding redirects_run
leads = refl

abbrev session_of_7 : SessionData
session_of_7 = record {
  access_token = "a";
  refresh_token = "r";
  id_token = "i";
  expires_at = seconds 60;
  created_at = seconds 0;
  refresh_expires_at = seconds 3600;
  user_id = 7;
  sid = none;
}

abbrev signed_in : AppState
signed_in = record new_state { sessions = insert_session no_sessions "s" session_of_7 }
