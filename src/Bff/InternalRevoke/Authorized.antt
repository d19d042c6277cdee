-- ===== src/Bff/InternalRevoke/Authorized.antt =====
-- Only the holder of the key ends a user's sessions, and then all of them.
use weave_auth.Prelude.{
  err, ℕ, String, not, Option, none, some, List, All, length, ◌≡◌, ◌≢◌, ◌⊎◌, inl, inr, refl, arith,
  ◌==◌, only_if, ok, Result-cases, text_key, number_key,
}
use weave_auth.Bff.Session.{UserId, user, matches}
use weave_auth.Bff.Secrets.Comparison.{IsByte, constant_time_eq_iff}
use weave_auth.Bff.Storage.{get_session}
use weave_auth.Bff.Storage.Invariant.{InStep}
use weave_auth.Bff.Server.{AppState}
use weave_auth.Bff.Server.Ended.{end_sessions_lem}
use weave_auth.Bff.InternalRevoke.{RevokeServiceError, authorize, revoke_user, revoke}

module _ (digest : String → List ℕ) (bytes : (s : String) → All IsByte (digest s))
    (one_length : (a b : String) → length (digest a) ≡ length (digest b)) where
  authorize_ok :
      (presented : Option String) (expected : String)
      → authorize digest presented expected ≡ ok tt
      → (expected ≢ "") × ((key : String) × (presented ≡ some key) × (digest key ≡ digest expected))
  unfolding authorize
  authorize_ok none expected h = ground (arith, h)
  authorize_ok (some key) expected h = (
    ground (arith, h, text_key.same_iff expected ""),
    (key, refl, ground (arith, h, constant_time_eq_iff digest bytes one_length key expected)),
  )

  authorize_refused :
      (presented : Option String) (expected key : String) (e : RevokeServiceError)
      → authorize digest presented expected ≡ err e
      → presented ≡ some key
      → digest key ≡ digest expected
      → expected ≡ ""
  unfolding authorize
  authorize_refused none expected key e h p same = cc
  authorize_refused (some given) expected key e h p same = ground (
    arith,
    h,
    p,
    same,
    text_key.same_iff expected "",
    constant_time_eq_iff digest bytes one_length given expected,
  )

  -- A call that presents a key with the digest of the configured key, one being configured, ends
  -- exactly the sessions of the user, on a store whose index is in step. Any other call is a 401 and
  -- changes nothing.
  pub revoke-authorized :
      (s : AppState) (presented : Option String) (expected : String) (u : UserId)
      → InStep s.sessions
      → ((revoke digest s presented expected u ≡ (s, 401))
          × ((key : String) → presented ≡ some key → digest key ≡ digest expected → expected ≡ ""))
        ⊎ ((expected ≢ "")
            × ((key : String) × (presented ≡ some key) × (digest key ≡ digest expected))
            × ((revoke digest s presented expected u).1 ≡ 204)
            × ((j : String)
                → get_session (revoke digest s presented expected u).0.sessions j
                  ≡ only_if (λ d. not (d.user_id == u)) (get_session s.sessions j)))
  unfolding revoke revoke_user matches
  revoke-authorized s presented expected u h =
      elim (Result-cases (authorize digest presented expected)) [
        | inr (e, f) ↦
            inl
              (ground (arith, f), λ key p same. authorize_refused presented expected key e f p same)
        | inl (a, f) ↦
            let (set, key) = authorize_ok presented expected (ground (arith, f)) in
            inr (
              set,
              key,
              ground (arith, f),
              λ j. ground (arith, f, (end_sessions_lem s (user u) h).0 j),
            )
      ]
