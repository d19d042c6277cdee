-- ===== src/Bff/LogoutToken/Checks.antt =====
-- What an accepted logout token says, and how long it could be accepted again.
use weave_auth.Prelude.{
  ok_or_ok, ◌+◌, ◌≤◌, true, Option, none, some, ◌≡◌, arith, if◌then◌else◌, ok, ok_or, steps_ok,
  is_some,
}
use weave_auth.Json.{Json, get_member}
use weave_auth.Bff.Session.{Time, UserId}
use weave_auth.Bff.LogoutToken.{
  max_age, leeway, missing_jti, missing_issued_at, LogoutClaims, Readers, text_claim, issued_at,
  is_logout_event, read_subject, target_of, check_age, check_claims,
}

check_age_ok :
    (issued now : Time)
    → check_age issued now ≡ ok tt
    → (issued ≤ now + leeway) × (now ≤ issued + max_age + leeway)
unfolding check_age
check_age_ok issued now h = (ground (arith, h), ground (arith, h))

-- A token that is accepted is a logout event without a nonce, issued at most 11 minutes ago and at
-- most one minute ahead; it is remembered under its own `jti` until the 11 minutes are over, and it
-- ends what its `sub` and `sid` name.
pub check_claims_ok :
    (r : Readers) (claims : Json) (now : Time) (c : LogoutClaims)
    → check_claims r claims now ≡ ok c
    → (is_logout_event claims ≡ true)
      × (get_member "nonce" claims ≡ none)
      × (text_claim claims "jti" ≡ some c.jti)
      × (now ≤ c.replay_until)
      × ((issued : Time) × (issued_at r claims ≡ some issued)
          × (issued ≤ now + leeway)
          × (c.replay_until ≡ issued + max_age + leeway))
      × ((u : Option UserId) × (read_subject r (text_claim claims "sub") ≡ ok u)
          × (target_of u (text_claim claims "sid") ≡ ok c.target))
unfolding check_claims
check_claims_ok r claims now c h =
    let (issued, e1, h1) = steps_ok (ok_or _ (issued_at r claims)) _ h in
    let (_, e2, h2) = steps_ok (check_age issued now) _ h1 in
    let (_, e3, h3) = steps_ok (if is_logout_event claims then ok tt else _) _ h2 in
    let (_, e4, h4) = steps_ok (if is_some (get_member "nonce" claims) then _ else ok tt) _ h3 in
    let (u, e5, h5) = steps_ok (read_subject r (text_claim claims "sub")) _ h4 in
    let (target, e6, h6) = steps_ok (target_of u (text_claim claims "sid")) _ h5 in
    let (jti, e7, h7) = steps_ok (ok_or _ (text_claim claims "jti")) _ h6 in
    let (young, old) = check_age_ok issued now e2 in
    (
      ground (arith, e3),
      ground (arith, e4),
      ground (arith, ok_or_ok missing_jti (text_claim claims "jti") jti e7, h7),
      ground (arith, old, h7),
      (
        issued,
        ok_or_ok missing_issued_at (issued_at r claims) issued e1,
        young,
        ground (arith, h7),
      ),
      (u, e5, ground (arith, e6, h7)),
    )
