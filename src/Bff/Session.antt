-- ===== src/Bff/Session.antt =====
-- bff/src/model/session.rs: a session and the selection of sessions that a logout ends.
-- A time is a number of nanoseconds since the earliest one that chrono has, and a span a number of
-- nanoseconds. Secrets are texts. A UUID is a number of 128 bits.
use weave_auth.Prelude.{
  ℕ, ◌+◌, ◌*◌, min, String, Bool, ◌&&◌, Option, ◌==◌, is_some_and, is_none_or, number_key, text_key,
}

abbrev pub Time : Type 0
Time = ℕ

abbrev pub seconds : ℕ → Time
seconds n = n * 1_000_000_000

abbrev pub UserId : Type 0
UserId = ℕ

abbrev pub max_session_lifetime : Time
max_session_lifetime = seconds (30 * 24 * 60 * 60)

pub record SessionData : Type 0 where
  pub access_token : String
  pub refresh_token : String
  pub id_token : String
  pub expires_at : Time
  pub created_at : Time
  pub refresh_expires_at : Time
  pub user_id : UserId
  pub sid : Option String

unfoldable pub ends_at : SessionData → Time
ends_at d = min d.refresh_expires_at (d.created_at + max_session_lifetime)

pub data SessionSelector : Type 0 where
  user : UserId → SessionSelector
  user_session : UserId → String → SessionSelector
  session : String → SessionSelector

unfoldable pub matches : SessionSelector → SessionData → Bool
matches (user u) d = d.user_id == u
matches (user_session u sid) d = d.user_id == u && is_none_or (λ own. own == sid) d.sid
matches (session sid) d = is_some_and (λ own. own == sid) d.sid
