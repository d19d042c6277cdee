-- ===== src/Login/Proxy/Counting.antt =====
-- No guess at a password gets past the throttle.
use weave_auth.Prelude.{
  String, Bool, true, false, Option, none, some, ◌≡◌, ◌⊎◌, inl, inr, refl, arith, ◌==◌, ◌||◌,
  Result, ok, err, Option-cases, Result-cases, Bool-cases, text_key, number_key,
}
use weave_auth.Texts.{slash, trim_end, eq_ignore_ascii_case}
use weave_auth.Login.Throttle.{
  Instant, Digest, Entries, Admission, admitted, wait, succeeded, not_an_attempt, admit,
}
use weave_auth.Login.Paths.{login_submit_path, is_login_submit_variant}
use weave_auth.Login.Fields.{LoginFields, throttled_identifier}
use weave_auth.Login.Proxy.{
  Request, Answer, Refusal, unsupported_encoding, ambiguous, waits, forwarded, read_fields,
  admission_of, count_attempt, attempt_of, login_attempt, sets_session, signed_in, redirected,
  outcome, Surroundings, forward, is_refused_path, proxy, is_within,
}

count_attempt_ok :
    (key_of : String → Digest) (m : Entries) (now : Instant) (o : Option String) (a : Option Digest)
    → (count_attempt key_of m now o).1 ≡ ok a
    → (o ≡ none)
      ⊎ ((identifier : String) × (o ≡ some identifier)
          × ((admit m (key_of identifier) now).1 ≡ admitted))
unfolding count_attempt
count_attempt_ok key_of m now none a h = inl refl
count_attempt_ok key_of m now (some identifier) a h =
    inr (identifier, refl, taken (admit m (key_of identifier) now).1 h)
  where
    taken : (x : Admission) → admission_of (key_of identifier) x ≡ ok a → x ≡ admitted
    taken admitted e = refl
    taken (wait t) e = cc

forward_ok :
    (w : Surroundings) (m : Entries) (x : Result Refusal (Option Digest)) (a : Answer)
    → (forward w m x).1 ≡ forwarded a
    → (attempt : Option Digest) × (x ≡ ok attempt)
unfolding forward
forward_ok w m (ok attempt) a h = (attempt, refl)
forward_ok w m (err unsupported_encoding) a h = cc
forward_ok w m (err ambiguous) a h = cc
forward_ok w m (err (waits t)) a h = cc

login_attempt_ok :
    (key_of : String → Digest) (m : Entries) (now : Instant) (r : Request) (attempt : Option Digest)
    → (login_attempt key_of m now r).1 ≡ ok attempt
    → (fields : LoginFields) × (read_fields r ≡ ok fields)
      × (fields.repeated ≡ false)
      × ((throttled_identifier fields ≡ none)
          ⊎ ((identifier : String) × (throttled_identifier fields ≡ some identifier)
              × ((admit m (key_of identifier) now).1 ≡ admitted)))
unfolding login_attempt attempt_of
login_attempt_ok key_of m now r attempt h = elim (Result-cases (read_fields r)) [
  | inr (e, f) ↦ ground (arith, h, f)
  | inl (fields, f) ↦ elim (Bool-cases fields.repeated) [
    | inl twice ↦ ground (arith, h, f, twice)
    | inr once ↦ (
      fields,
      f,
      once,
      count_attempt_ok key_of m now (throttled_identifier fields) attempt
          (ground (arith, h, f, once)),
    )
  ]
]

-- Any path that Kratos may route to the login submission, in another case or with slashes after it,
-- is forwarded as a POST only if it is the path that is counted, its fields were read without a
-- repetition, and the throttle admitted the identifier, if it has one to count.
pub proxy-counts :
    (w : Surroundings) (m : Entries) (r : Request) (a : Answer)
    → r.is_post ≡ true
    → eq_ignore_ascii_case (trim_end slash r.path) login_submit_path ≡ true
    → (proxy w m r).1 ≡ forwarded a
    → (r.path ≡ login_submit_path)
      × ((fields : LoginFields) × (read_fields r ≡ ok fields)
          × (fields.repeated ≡ false)
          × ((throttled_identifier fields ≡ none)
              ⊎ ((identifier : String) × (throttled_identifier fields ≡ some identifier)
                  × ((admit m (w.key_of identifier) w.now).1 ≡ admitted))))
unfolding proxy
proxy-counts w m r a post submit h =
    let here = path_is in
    let (attempt, e) =
      forward_ok w (login_attempt w.key_of m w.now r).0 (login_attempt w.key_of m w.now r).1 a
        (ground (arith, h, post, allowed, here, text_key.same_iff r.path login_submit_path)) in
    (here, login_attempt_ok w.key_of m w.now r attempt e)
  where
    allowed : is_refused_path r ≡ false
    allowed = elim (Bool-cases (is_refused_path r)) [ inl e ↦ ground (arith, h, e) | inr e ↦ e ]

    path_is : r.path ≡ login_submit_path
    path_is =
        unfold is_refused_path is_login_submit_variant in
        ground (arith, allowed, post, submit, text_key.same_iff r.path login_submit_path)

redirected_lem :
    (cookie : String) (a : Answer) (location : Option (Bool × String))
    → redirected cookie a location ≡ not_an_attempt
    → location ≡ some (true, "/error")
unfolding redirected signed_in
redirected_lem cookie a none h = cc
redirected_lem cookie a (some (true, path)) h = elim (Bool-cases (path == "/error")) [
  | inl e ↦ rw ((text_key.same_iff path "/error").0 e) refl
  | inr e ↦ ground (arith, h, e)
]
redirected_lem cookie a (some (false, path)) h = ground (arith, h)

-- An answer that counts as a success sets Kratos' session cookie. One that is given back is a 403,
-- a 429 or a 5xx, or a redirect to login's own error page.
pub outcome_lem :
    (cookie : String) (a : Answer)
    → (outcome cookie a ≡ succeeded → sets_session a.set_cookies cookie ≡ true)
      × (outcome cookie a ≡ not_an_attempt
          → ((a.status == 403 || a.status == 429 || is_within 500 600 a.status) ≡ true)
            ⊎ ((is_within 300 400 a.status ≡ true) × (a.location ≡ some (true, "/error"))))
unfolding outcome redirected signed_in
outcome_lem cookie a = (
  (λ h. ground (arith, h, Option-cases a.location)),
  λ h. ground (arith, h, redirected_lem cookie a a.location),
)
