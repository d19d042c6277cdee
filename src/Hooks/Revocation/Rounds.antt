-- ===== src/Hooks/Revocation/Rounds.antt =====
-- What a revocation always tries, and what it promises when it reports no failure.
use weave_auth.Prelude.{
  append_nil, subst, sym, ℕ, zero, suc, true, false, Option, none, some, List, [], ◌∷◌, ◌++◌, ◌≡◌,
  ◌⊎◌, inl, inr, refl, arith, Bool-cases, number_key,
}
use weave_auth.Hooks.Revocation.{
  Step, list_sessions, revoke_consent_sessions, revoke_login_sessions, revoke_in_bff,
  revoke_all_sessions, History, nothing_done, Upstreams, Revocation, Progress, attempt, purge,
  revoke_each, no_failures, others, rounds, revoke_kratos_sessions, revoke_in_kratos, kratos_part,
  revoke, max_session_rounds,
}
use weave_auth.Hooks.Revocation.Steps.{
  no_failures-append, IsClean, Extends, Extends-refl, Extends-trans, attempt-IsClean, purge-IsClean,
  attempt_history, purge-Extends,
}

pub List-cases : (xs : List ℕ) → (xs ≡ []) ⊎ ((e : ℕ × List ℕ) × (xs ≡ e.0 ∷ e.1))
List-cases [] = inl refl
List-cases (x ∷ xs) = inr ((x, xs), refl)

module _ (u : Upstreams) where
  -- A step that was taken in a run and did not fail, given the history before it.
  abbrev Took : Step → History → History → Type 0
  Took step final h = (u.fails h step ≡ false) × Extends (h ++ step ∷ []) final

  -- The run listed the sessions, and there was none but the one to keep.
  abbrev Emptied : ℕ → History → Type 0
  Emptied keep final = (h : History) × Took list_sessions final h × (others u keep h ≡ [])

  Took-Extends :
      (step : Step) (h mid final : History)
      → Took step mid h
      → Extends mid final
      → Took step final h
  Took-Extends step h mid final (ok_, e) f = (ok_, Extends-trans (h ++ step ∷ []) mid final e f)

  rounds-Emptied :
      (n keep : ℕ) (p : Progress)
      → IsClean (rounds u n keep p)
      → IsClean p × Emptied keep (rounds u n keep p).history
  unfolding rounds
  rounds-Emptied zero keep p h = ground (arith, h, no_failures-append p.failures "kratos sessions")
  rounds-Emptied (suc n) keep p h =
      let listed = attempt u list_sessions "kratos sessions" p in
      let revoked = revoke_each u (others u keep p.history) (record listed { failures = [] }) in
      elim (Bool-cases (u.fails p.history list_sessions)) [
        | inl f ↦
            let clean =
              attempt-IsClean u list_sessions "kratos sessions" p (ground (arith, h, f)) in
            ground (arith, f, clean)
        | inr f ↦ elim (List-cases (others u keep p.history)) [
          | inl e ↦
              let clean =
                attempt-IsClean u list_sessions "kratos sessions" p (ground (arith, h, f, e)) in
              (
                clean.0,
                (
                  p.history,
                  (
                    f,
                    (
                      [],
                      ground (
                        arith,
                        f,
                        e,
                        attempt_history u list_sessions "kratos sessions" p,
                        append_nil (p.history ++ list_sessions ∷ []),
                      ),
                    ),
                  ),
                  e,
                ),
              )
          | inr ((session, sessions), e) ↦ elim (Bool-cases (no_failures revoked.failures)) [
            | inl c ↦
                let (clean, (at, (fine, (rest, same)), none_left)) =
                  rounds-Emptied n keep (record revoked { failures = p.failures })
                    (ground (arith, h, f, e, c)) in
                (clean, (at, (fine, (rest, ground (arith, f, e, c, same))), none_left))
            | inr c ↦ ground (arith, h, f, e, c, no_failures-append p.failures "kratos sessions")
          ]
        ]
      ]

  -- What has ended the sessions at Kratos.
  abbrev pub Ended : Option ℕ → History → Type 0
  Ended k final =
      ((k ≡ none) × ((h : History) × Took revoke_all_sessions final h))
      ⊎ ((keep : ℕ) × (k ≡ some keep) × Emptied keep final)

  Ended-Extends :
      (k : Option ℕ) (mid final : History) → Ended k mid → Extends mid final → Ended k final
  Ended-Extends k mid final (inl (e, (h, t))) f =
      inl (e, (h, Took-Extends revoke_all_sessions h mid final t f))
  Ended-Extends k mid final (inr (keep, e, (h, t, o))) f =
      inr (keep, e, (h, Took-Extends list_sessions h mid final t f, o))

  revoke_kratos_sessions-Ended :
      (k : Option ℕ) (p : Progress)
      → IsClean (revoke_kratos_sessions u k p)
      → Ended k (revoke_kratos_sessions u k p).history
  unfolding revoke_kratos_sessions
  revoke_kratos_sessions-Ended none p clean = inl (
    refl,
    (
      p.history,
      (
        (attempt-IsClean u revoke_all_sessions "kratos sessions" p clean).1,
        unfold attempt in Extends-refl (p.history ++ revoke_all_sessions ∷ []),
      ),
    ),
  )
  revoke_kratos_sessions-Ended (some keep) p clean =
      inr (keep, refl, (rounds-Emptied max_session_rounds keep p clean).1)

  kratos_part_in_time :
      (r : Revocation)
      → u.kratos_in_time ≡ true
      → kratos_part u r
        ≡ purge u r.purge_credentials
            (revoke_kratos_sessions u r.keep_session (purge u r.purge_credentials nothing_done))
  unfolding kratos_part revoke_in_kratos
  kratos_part_in_time r t = ground (arith, t)

  kratos_part-Ended :
      (r : Revocation)
      → IsClean (kratos_part u r)
      → (u.kratos_in_time ≡ true) × Ended r.keep_session (kratos_part u r).history
  unfolding kratos_part revoke_in_kratos
  kratos_part-Ended r clean =
      let before = purge u r.purge_credentials nothing_done in
      let ended = revoke_kratos_sessions u r.keep_session before in
      elim (Bool-cases u.kratos_in_time) [
        | inr late ↦ ground (arith, clean, late)
        | inl t ↦
            let done =
              Ended-Extends r.keep_session ended.history (purge u r.purge_credentials ended).history
                (revoke_kratos_sessions-Ended r.keep_session before
                  (purge-IsClean u r.purge_credentials ended (ground (arith, clean, t))))
                (purge-Extends u r.purge_credentials ended) in
            (t, subst (λ q. Ended r.keep_session q.history) (sym (kratos_part_in_time r t)) done)
      ]

  -- A revocation always asks Hydra to end the consent and the login sessions and bff to end its own,
  -- after Kratos' part, whatever failed before. If it reports no failure, Kratos' part was done in
  -- time, and in it Kratos ended all sessions at once, or a listing showed none but the one to keep.
  pub revoke_lem :
      (r : Revocation)
      → ((revoke u r).history
          ≡ (((kratos_part u r).history ++ revoke_consent_sessions ∷ [])
              ++ revoke_login_sessions ∷ [])
            ++ revoke_in_bff ∷ [])
        × (IsClean (revoke u r)
            → (u.kratos_in_time ≡ true) × Ended r.keep_session (kratos_part u r).history)
  unfolding revoke
  revoke_lem r = (unfold attempt in refl, λ clean. kratos_part-Ended r (kept clean))
    where
      kept : IsClean (revoke u r) → IsClean (kratos_part u r)
      kept clean =
          let consented =
            attempt u revoke_consent_sessions "hydra consent sessions" (kratos_part u r) in
          (attempt-IsClean u revoke_consent_sessions "hydra consent sessions" (kratos_part u r)
            (attempt-IsClean u revoke_login_sessions "hydra login sessions" consented
              (attempt-IsClean u revoke_in_bff "bff sessions"
                (attempt u revoke_login_sessions "hydra login sessions" consented) clean).0).0).0
