-- ===== src/Hooks/Revocation.antt =====
-- hooks/src/server/api/revocation.rs: what ends every other way into an account. The calls to Kratos,
-- Hydra and bff are written down in the order made; what each answers may depend on the calls before
-- it and is a parameter, as is how far Kratos' part gets when its time is up.
pub mod Steps
pub mod Rounds
pub mod Pages
pub mod Termination
mod Tests
use weave_auth.Prelude.{
  ℕ, zero, suc, String, Bool, true, false, not, Option, none, some, List, [], ◌∷◌, ◌++◌, filter,
  ◌==◌, if◌then◌else◌, number_key,
}

pub data Step : Type 0 where
  get_identity scramble_password : Step
  delete_oidc_link delete_credential : String → Step
  list_sessions revoke_all_sessions : Step
  revoke_session : ℕ → Step
  revoke_consent_sessions revoke_login_sessions revoke_in_bff : Step

abbrev pub History : Type 0
History = List Step

-- A step after a history fails or not; reading an identity gives its social logins, and listing the
-- sessions their ids.
pub record Upstreams : Type 0 where
  pub fails : History → Step → Bool
  pub oidc_links : History → List String
  pub active_sessions : History → List ℕ
  pub kratos_in_time : Bool
  pub cut_off : History → History

pub record Revocation : Type 0 where
  pub keep_session : Option ℕ
  pub purge_credentials : Bool

-- The history so far, and the steps that failed.
pub record Progress : Type 0 where
  pub history : History
  pub failures : List String

abbrev pub nothing_done : Progress
nothing_done = record { history = []; failures = [] }

unfoldable pub attempt : Upstreams → Step → String → Progress → Progress
attempt u step name p = record {
  history = p.history ++ step ∷ [];
  failures = if u.fails p.history step then p.failures ++ name ∷ [] else p.failures;
}

unfoldable pub delete_links : Upstreams → List String → Progress → Progress
delete_links u [] p = p
delete_links u (link ∷ links) p =
    delete_links u links (attempt u (delete_oidc_link link) "purge credentials" p)

unfoldable pub delete_credentials : Upstreams → List String → Progress → Progress
delete_credentials u [] p = p
delete_credentials u (c ∷ cs) p =
    delete_credentials u cs (attempt u (delete_credential c) "purge credentials" p)

abbrev pub purged_credential_types : List String
purged_credential_types = "webauthn" ∷ "passkey" ∷ "totp" ∷ "lookup_secret" ∷ []

-- The password goes first, and only for an identity that could be read.
unfoldable pub purge_links : Upstreams → Progress → Progress
purge_links u p =
    let read = attempt u get_identity "purge credentials" p in
    if u.fails p.history get_identity
    then read
    else delete_links u (u.oidc_links p.history)
        (attempt u scramble_password "purge credentials" read)

unfoldable pub purge : Upstreams → Bool → Progress → Progress
purge u wanted p =
    if wanted then delete_credentials u purged_credential_types (purge_links u p) else p

abbrev pub max_session_rounds : ℕ
max_session_rounds = 20

unfoldable pub revoke_each : Upstreams → List ℕ → Progress → Progress
revoke_each u [] p = p
revoke_each u (session ∷ sessions) p =
    revoke_each u sessions (attempt u (revoke_session session) "kratos sessions" p)

abbrev pub no_failures : List String → Bool
no_failures [] = true
no_failures (f ∷ fs) = false

-- The failures of one round are one failure of the whole.
abbrev as_one_failure : Progress → List String → Progress
as_one_failure p before = record p { failures = before ++ "kratos sessions" ∷ [] }

unfoldable pub others : Upstreams → ℕ → History → List ℕ
others u keep h = filter (λ session. not (session == keep)) (u.active_sessions h)

unfoldable pub rounds : Upstreams → ℕ → ℕ → Progress → Progress
rounds u zero keep p = as_one_failure p p.failures
rounds u (suc n) keep p =
    let listed = attempt u list_sessions "kratos sessions" p in
    let revoked = revoke_each u (others u keep p.history) (record listed { failures = [] }) in
    let further = rounds u n keep (record revoked { failures = p.failures }) in
    if u.fails p.history list_sessions then listed else elim (others u keep p.history) [
      | [] ↦ listed
      | session ∷ sessions ↦
          if no_failures revoked.failures then further else as_one_failure revoked p.failures
    ]

unfoldable pub revoke_kratos_sessions : Upstreams → Option ℕ → Progress → Progress
revoke_kratos_sessions u none p = attempt u revoke_all_sessions "kratos sessions" p
revoke_kratos_sessions u (some keep) p = rounds u max_session_rounds keep p

-- The purge runs again once the sessions have ended.
unfoldable pub revoke_in_kratos : Upstreams → Revocation → Progress
revoke_in_kratos u r =
    purge u r.purge_credentials
      (revoke_kratos_sessions u r.keep_session (purge u r.purge_credentials nothing_done))

unfoldable pub kratos_part : Upstreams → Revocation → Progress
kratos_part u r = if u.kratos_in_time then revoke_in_kratos u r else record {
  history = u.cut_off (revoke_in_kratos u r).history;
  failures = "kratos: gave up" ∷ [];
}

-- The three calls after Kratos' part run at once; they are listed in the order of the source.
unfoldable pub revoke : Upstreams → Revocation → Progress
revoke u r = attempt u revoke_in_bff "bff sessions" (
    attempt u revoke_login_sessions "hydra login sessions"
      (attempt u revoke_consent_sessions "hydra consent sessions" (kratos_part u r)))
