-- ===== src/Bff/Hydra.antt =====
-- bff/src/hydra/mod.rs: what bff makes of Hydra's answers at the token and the revocation endpoint.
-- An answer comes with what its body decodes to, which is the JSON library's doing.
pub mod Laws
mod Tests
use weave_auth.Prelude.{
  ℕ, ◌*◌, String, Bool, true, false, Option, none, some, ◌==◌, ◌||◌, ◌&&◌, leb, ltb, if◌then◌else◌,
  text_key, Result, ok, err, ◌>>=◌, only_if,
}
use weave_auth.Bff.Session.{Time, seconds}

pub data HydraError : Type 0 where
  unreachable : HydraError
  rejected misconfigured unavailable : (status : ℕ) → HydraError
  unreadable : HydraError

-- `expires_in` may be any integer: `none` here is an absent or a negative one, both refused alike.
pub record TokenResponse : Type 0 where
  pub access_token : String
  pub refresh_token : Option String
  pub id_token : Option String
  pub expires_in : Option ℕ

pub record TokenSet : Type 0 where
  pub access_token : String
  pub refresh_token : Option String
  pub id_token : Option String
  pub expires_in : Time

pub record Answer : Type 0 where
  pub status : ℕ
  pub oauth_error : Option String
  pub tokens : Option TokenResponse

abbrev pub max_expires_in_secs : ℕ
max_expires_in_secs = 86_400

abbrev is_success : ℕ → Bool
is_success status = leb 200 status && ltb status 300

abbrev pub is_client_error : ℕ → Bool
is_client_error status = leb 400 status && ltb status 500

abbrev pub is_dead_token : String → Bool
is_dead_token e = e == "invalid_grant" || e == "token_inactive" || e == "access_denied"

abbrev is_bad_client : String → Bool
is_bad_client e = e == "invalid_client" || e == "unauthorized_client"

unfoldable pub classify : ℕ → Option String → HydraError
classify status none = unavailable status
classify status (some e) =
    if is_dead_token e
    then rejected status
    else if is_bad_client e
    then misconfigured status
    else unavailable status

-- The body counts on a 4xx only.
unfoldable pub check_response : Answer → Result HydraError Answer
check_response a =
    if is_success a.status
    then ok a
    else err (classify a.status (if is_client_error a.status then a.oauth_error else none))

unfoldable pub read_tokens : Option TokenResponse → Result HydraError TokenSet
read_tokens none = err unreadable
read_tokens (some t) = elim (only_if (λ n. leb 1 n && leb n max_expires_in_secs) t.expires_in) [
  | none ↦ err unreadable
  | some n ↦ ok (record {
    access_token = t.access_token;
    refresh_token = t.refresh_token;
    id_token = t.id_token;
    expires_in = seconds n;
  })
]

-- `none` is a request that got no answer.
unfoldable pub token_request : Option Answer → Result HydraError TokenSet
token_request none = err unreachable
token_request (some a) = check_response a >>= λ a'. read_tokens a'.tokens
