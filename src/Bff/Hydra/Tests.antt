-- ===== src/Bff/Hydra/Tests.antt =====
-- Answers of Hydra, and the theorems at them.
use weave_auth.Prelude.{Bool, ◌≡◌, refl, true, none, some, ok}
use weave_auth.Bff.Session.{seconds}
use weave_auth.Bff.Hydra.{read_tokens, classify, check_response, TokenSet, Answer, token_request}

hydra_runs : Bool
unfolding token_request check_response classify read_tokens
hydra_runs = true

abbrev dead : Answer
dead = record { status = 400; oauth_error = some "invalid_grant"; tokens = none }

abbrev answered : Answer
answered = record {
  status = 200;
  oauth_error = none;
  tokens = some (record {
    access_token = "a";
    refresh_token = some "r";
    id_token = none;
    expires_in = some 3600;
  });
}

abbrev fresh : TokenSet
fresh = record {
  access_token = "a";
  refresh_token = some "r";
  id_token = none;
  expires_in = seconds 3600;
}

reads_tokens : token_request (some answered) ≡ ok fresh
unfolding hydra_runs
reads_tokens = refl
