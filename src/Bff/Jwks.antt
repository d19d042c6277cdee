-- ===== src/Bff/Jwks.antt =====
-- bff/src/hydra/jwks.rs: the cache of Hydra's signing keys. A call holds the cache's lock from start
-- to end, so it is a function of the cache. What a JWKS body holds is the JSON library's doing: the
-- keys are a type with the test for a `kid`. The clock's readings are numbered in the order taken.
pub mod Serving
mod Tests
use weave_auth.Prelude.{
  ℕ, ◌-◌, ◌*◌, String, Bool, not, Option, none, some, ltb, if◌then◌else◌, is_some_and, is_none_or,
  ◌&&◌, Result, ok, err, ok_or,
}
use weave_auth.Bff.Session.{Time, seconds}

pub data JwksError : Type 0 where
  unreachable : JwksError
  unavailable : (status : ℕ) → JwksError
  unreadable : JwksError
  unknown_key : String → JwksError
  throttled : JwksError

pub record Cached (K : Type 0) : Type 0 where
  pub keys : Option (K × Time)
  pub last_attempt : Option Time

abbrev pub max_age : Time
max_age = seconds (60 * 60)

module _ {K : Type 0} (has_kid : K → String → Bool) (min_refresh : Time) where
  abbrev knows : Option String → K → Bool
  knows kid keys = is_none_or (has_kid keys) kid

  -- The cached keys, if they are young enough and hold the `kid`.
  unfoldable pub fresh_keys : Cached K → Option String → Time → Option K
  fresh_keys c kid now = elim c.keys [
    | none ↦ none
    | some (keys, fetched_at) ↦
        if ltb (now - fetched_at) max_age && knows kid keys then some keys else none
  ]

  -- Keys that still serve when none can be fetched.
  unfoldable pub stale_keys : Cached K → Option String → Time → Option K
  stale_keys c none now = none
  stale_keys c (some kid) now = elim c.keys [
    | none ↦ none
    | some (keys, fetched_at) ↦
        if has_kid keys kid && ltb (now - fetched_at) (max_age * 2) then some keys else none
  ]

  abbrev pub is_throttled : Cached K → Time → Bool
  is_throttled c now = is_some_and (λ attempt. ltb (now - attempt) min_refresh) c.last_attempt

  unfoldable pub known_key : K → Option String → Result JwksError K
  known_key keys none = ok keys
  known_key keys (some kid) = if has_kid keys kid then ok keys else err (unknown_key kid)

  unfoldable pub after_fetch :
      Cached K
      → Option String
      → Option K
      → Time
      → Result JwksError K
      → Cached K × Result JwksError K
  after_fetch c kid stale later (err e) = (c, ok_or e stale)
  after_fetch c kid stale later (ok keys) =
      (record c { keys = some (keys, later) }, known_key keys kid)

  unfoldable pub refetch :
      Cached K → Option String → (ℕ → Time) → Result JwksError K → Cached K × Result JwksError K
  refetch c kid clock fetched =
      let stale = stale_keys c kid (clock 1) in
      if is_throttled c (clock 2)
      then (c, ok_or throttled stale)
      else after_fetch (record c { last_attempt = some (clock 3) }) kid stale (clock 4) fetched

  -- `fetched` is what a fetch brings, if one is made.
  unfoldable pub keys_for :
      Cached K → Option String → (ℕ → Time) → Result JwksError K → Cached K × Result JwksError K
  keys_for c kid clock fetched = elim (fresh_keys c kid (clock 0)) [
    | some keys ↦ (c, ok keys)
    | none ↦ refetch c kid clock fetched
  ]
