-- ===== src/Bff/LogoutToken.antt =====
-- bff/src/hydra/logout_token.rs: the checks on a back-channel logout token. Decoding and verifying a
-- JWT, reading a number of seconds as a time and reading a UUID are the libraries', and so
-- parameters. An error carries what the handlers tell apart.
pub mod Checks
use weave_auth.Prelude.{
  ℕ, ◌+◌, ◌-◌, ◌*◌, String, Bool, true, false, not, Option, none, some, ◌==◌, ltb, if◌then◌else◌,
  Result, ok, err, ◌>>=◌, ok_or, text_key, and_then, is_some, is_some_and, only_if,
}
use Prim.Native.Nat.{◌^◌}
use weave_auth.Json.{ℤ, pos, negsuc, Json, integer, get_member, as_text, is_object}
use weave_auth.Bff.Session.{Time, seconds, UserId, SessionSelector, user, user_session, session}
use weave_auth.Bff.Jwks.{JwksError, unknown_key}

abbrev backchannel_logout_event : String
backchannel_logout_event = "http://schemas.openid.net/event/backchannel-logout"

abbrev pub max_age : Time
max_age = seconds (10 * 60)

abbrev pub leeway : Time
leeway = seconds 60

pub data LogoutTokenError : Type 0 where
  malformed no_key_id : LogoutTokenError
  keys_error : JwksError → LogoutTokenError
  verification missing_issued_at stale issued_in_the_future : LogoutTokenError
  not_a_logout_event has_nonce no_subject_or_session : LogoutTokenError
  subject_not_a_uuid missing_jti : LogoutTokenError

pub record LogoutClaims : Type 0 where
  pub target : SessionSelector
  pub jti : String
  pub replay_until : Time

-- chrono's and the uuid library's part in the checks: a number of seconds since the epoch as a
-- time, where chrono has one, and a text as a UUID.
pub record Readers : Type 0 where
  pub as_time : ℤ → Option Time
  pub as_uuid : String → Option UserId

-- A member that is a text, not an empty one.
unfoldable pub text_claim : Json → String → Option String
text_claim claims name =
    only_if (λ value. not (value == "")) (and_then (get_member name claims) as_text)

-- An integer of at least 2^63 has no i64; one below −2^63 is a floating-point number already.
unfoldable pub as_i64 : Json → Option ℤ
as_i64 (integer (pos n)) = if ltb n (2 ^ 63) then some (pos n) else none
as_i64 (integer (negsuc n)) = some (negsuc n)
as_i64 _ = none

unfoldable pub issued_at : Readers → Json → Option Time
issued_at r claims = and_then (and_then (get_member "iat" claims) as_i64) r.as_time

abbrev pub is_logout_event : Json → Bool
is_logout_event claims =
    is_some_and is_object
      (and_then (get_member "events" claims) (get_member backchannel_logout_event))

unfoldable pub read_subject : Readers → Option String → Result LogoutTokenError (Option UserId)
read_subject r none = ok none
read_subject r (some sub) = elim (r.as_uuid sub) [
  | none ↦ err subject_not_a_uuid
  | some u ↦ ok (some u)
]

unfoldable pub target_of : Option UserId → Option String → Result LogoutTokenError SessionSelector
target_of (some u) (some sid) = ok (user_session u sid)
target_of (some u) none = ok (user u)
target_of none (some sid) = ok (session sid)
target_of none none = err no_subject_or_session

unfoldable pub check_age : Time → Time → Result LogoutTokenError (Unit {0})
check_age issued now =
    if ltb (now + leeway) issued
    then err issued_in_the_future
    else if ltb issued (now - max_age - leeway)
    then err stale
    else ok tt

unfoldable pub check_claims : Readers → Json → Time → Result LogoutTokenError LogoutClaims
check_claims r claims now = ok_or missing_issued_at (issued_at r claims) >>= λ issued.
    check_age issued now >>= λ _.
    (if is_logout_event claims then ok tt else err not_a_logout_event) >>= λ (_ : Unit {0}).
    (if is_some (get_member "nonce" claims) then err has_nonce else ok tt) >>= λ (_ : Unit {0}).
    read_subject r (text_claim claims "sub") >>= λ user_id.
    target_of user_id (text_claim claims "sid") >>= λ target.
    ok_or missing_jti (text_claim claims "jti") >>= λ jti.
    ok (record { target = target; jti = jti; replay_until = issued + max_age + leeway })
