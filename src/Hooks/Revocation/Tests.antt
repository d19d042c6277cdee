-- ===== src/Hooks/Revocation/Tests.antt =====
-- A password change that keeps one of three sessions, while Hydra is down.
use weave_auth.Hooks.Revocation.{nothing_done}
use weave_auth.Hooks.Revocation.Termination.{still_active, revoke_kratos_sessions-ends}
use weave_auth.Prelude.{
  take, without, arith, ℕ, Bool, true, false, some, List, [], ◌∷◌, ◌++◌, ◌≡◌, refl, number_key,
}
use weave_auth.Hooks.Revocation.{
  rounds, revoke_kratos_sessions, revoke_in_kratos, revoke_each, purge, others, attempt, Step,
  list_sessions, revoke_session, revoke_consent_sessions, revoke_login_sessions, revoke_in_bff,
  History, Upstreams, Revocation, kratos_part, revoke,
}
use weave_auth.Hooks.Revocation.Steps.{IsClean}
use weave_auth.Hooks.Revocation.Rounds.{Ended, revoke_lem}

abbrev is_consent : Step → Bool
is_consent revoke_consent_sessions = true
is_consent _ = false

abbrev sessions_after : History → List ℕ
sessions_after [] = 1 ∷ 2 ∷ 3 ∷ []
sessions_after (step ∷ steps) = 2 ∷ []

abbrev upstreams : Upstreams
upstreams = record {
  fails = λ h step. is_consent step;
  oidc_links = λ h. [];
  active_sessions = sessions_after;
  kratos_in_time = true;
  cut_off = λ h. h;
}

abbrev change : Revocation
change = record { keep_session = some 2; purge_credentials = false }

revocation_runs : ℕ
unfolding revoke attempt kratos_part others purge revoke_each revoke_in_kratos
    revoke_kratos_sessions rounds
revocation_runs = 0

revokes : revoke upstreams change ≡ (record {
  history =
      list_sessions
      ∷ revoke_session 1
      ∷ revoke_session 3
      ∷ list_sessions
      ∷ revoke_consent_sessions
      ∷ revoke_login_sessions
      ∷ revoke_in_bff
      ∷ [];
  failures = "hydra consent sessions" ∷ [];
})
unfolding revocation_runs
revokes = refl

revoke_lem_example :
    ((revoke upstreams change).history
      ≡ (((kratos_part upstreams change).history ++ revoke_consent_sessions ∷ [])
          ++ revoke_login_sessions ∷ [])
        ++ revoke_in_bff ∷ [])
    × (IsClean (revoke upstreams change)
        → (true ≡ true)
          × Ended upstreams change.keep_session (kratos_part upstreams change).history)
revoke_lem_example = revoke_lem upstreams change

abbrev three : List ℕ
three = 1 ∷ 2 ∷ 3 ∷ []

abbrev serving : Upstreams
serving = record upstreams {
  fails = λ h step. false;
  active_sessions = λ h. take 250 (still_active three h);
}

revoke_kratos_sessions-ends_example :
    ((revoke_kratos_sessions serving (some 2) nothing_done).failures ≡ [])
    × (without 2 (still_active three (revoke_kratos_sessions serving (some 2) nothing_done).history)
        ≡ [])
unfolding still_active
revoke_kratos_sessions-ends_example =
    revoke_kratos_sessions-ends serving three 2 nothing_done
      (record { lists = λ h. refl; revoked = λ h s. refl; pages = λ h. refl })
      (refl, (refl, (refl, tt))) (omega arith)
