-- ===== src/Bff/Hydra/Laws.antt =====
-- When Hydra's answer calls a token dead, and what a usable one holds.
use weave_auth.Prelude.{ℕ, ◌≤◌, true, Option, none, some, ◌≡◌, ◌↔◌, arith, is_some_and, ok, err}
use weave_auth.Bff.Session.{seconds}
use weave_auth.Bff.Hydra.{
  rejected, TokenSet, Answer, is_client_error, is_dead_token, classify, check_response, read_tokens,
  token_request, max_expires_in_secs,
}

-- Of the answers that came, exactly those count as a dead token that are a 4xx with one of the three
-- OAuth errors that say so: no 5xx, no unreadable body and no refusal of bff itself.
pub token_request-rejected_iff :
    (a : Answer) (status : ℕ)
    → (token_request (some a) ≡ err (rejected status)) ↔ (
        (a.status ≡ status)
        × (is_client_error a.status ≡ true)
        × (is_some_and is_dead_token a.oauth_error ≡ true))
unfolding token_request check_response classify read_tokens
token_request-rejected_iff a status = (ground (arith), ground (arith))

-- The tokens that are used live from one second to a day, as Hydra's answer says.
token_request-expires_in :
    (a : Option Answer) (t : TokenSet)
    → token_request a ≡ ok t
    → (seconds 1 ≤ t.expires_in) × (t.expires_in ≤ seconds max_expires_in_secs)
unfolding token_request check_response read_tokens
token_request-expires_in none t h = cc
token_request-expires_in (some a) t h = ground arith
