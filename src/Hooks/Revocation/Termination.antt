-- ===== src/Hooks/Revocation/Termination.antt =====
-- The rounds of "list the first page, revoke what isn't to keep" come to an end.
use weave_auth.Prelude.{
  ℕ, zero, suc, ◌*◌, ◌≤◌, Bool, false, not, some, List, [], ◌∷◌, ◌++◌, map, ◌≡◌, inl, inr, refl, ap,
  sym, subst, ◌∙◌, arith, ◌==◌, ◌||◌, filter, take, length, contains, filter-Distinct, without,
  Distinct, append_assoc, append_nil, number_key,
}
use weave_auth.Hooks.Revocation.Pages.{
  less, less_nil, listed, listed-counted, listed-long, empty-of-length,
}
use weave_auth.Hooks.Revocation.Rounds.{List-cases}
use weave_auth.Hooks.Revocation.{
  Step, list_sessions, revoke_session, History, Upstreams, Progress, attempt, revoke_each, others,
  rounds, revoke_kratos_sessions,
}

abbrev revokes : ℕ → Step → Bool
revokes s (revoke_session t) = t == s
revokes s step = false

abbrev was_revoked : ℕ → History → Bool
was_revoked s [] = false
was_revoked s (step ∷ h) = revokes s step || was_revoked s h

-- The sessions that no step of a history has revoked.
unfoldable pub still_active : List ℕ → History → List ℕ
still_active all h = filter (λ s. not (was_revoked s h)) all

-- Kratos answers every request, lists the first page of the sessions that are still active, and a
-- session that it has revoked is so no longer.
pub record IsServing (u : Upstreams) (page : ℕ) (all : List ℕ) : Type 0 where
  pub lists : (h : History) → u.fails h list_sessions ≡ false
  pub revoked : (h : History) (s : ℕ) → u.fails h (revoke_session s) ≡ false
  pub pages : (h : History) → u.active_sessions h ≡ take page (still_active all h)

was_revoked-append :
    (s : ℕ) (h k : History) → was_revoked s (h ++ k) ≡ (was_revoked s h || was_revoked s k)
was_revoked-append s [] k = refl
was_revoked-append s (step ∷ h) k = ground (arith, was_revoked-append s h k)

was_revoked-map : (s : ℕ) (ss : List ℕ) → was_revoked s (map revoke_session ss) ≡ contains s ss
was_revoked-map s [] = refl
was_revoked-map s (t ∷ ss) = ground (arith, was_revoked-map s ss)

still_active-append :
    (all : List ℕ) (h : History) (ss : List ℕ)
    → still_active all ((h ++ list_sessions ∷ []) ++ map revoke_session ss)
      ≡ less ss (still_active all h)
unfolding still_active
still_active-append [] h ss = refl
still_active-append (s ∷ all) h ss = ground (
  arith,
  still_active-append all h ss,
  was_revoked-append s (h ++ list_sessions ∷ []) (map revoke_session ss),
  was_revoked-append s h (list_sessions ∷ []),
  was_revoked-map s ss,
)

revoke_each_lem :
    (u : Upstreams) (page : ℕ) (all : List ℕ) (ss : List ℕ) (p : Progress)
    → IsServing u page all
    → (revoke_each u ss p).history ≡ p.history ++ map revoke_session ss
      × (revoke_each u ss p).failures ≡ p.failures
unfolding revoke_each attempt
revoke_each_lem u page all [] p k = (sym (append_nil p.history), refl)
revoke_each_lem u page all (s ∷ ss) p k = ground (
  arith,
  revoke_each_lem u page all ss (attempt u (revoke_session s) "kratos sessions" p) k,
  k.revoked p.history s,
  append_assoc p.history (revoke_session s ∷ []) (map revoke_session ss),
)

module _ (u : Upstreams) (q keep : ℕ) (all : List ℕ) (serving : IsServing u (suc q) all)
    (distinct : Distinct all) where
  -- The sessions still to be revoked.
  abbrev left : History → List ℕ
  left h = without keep (still_active all h)

  -- What a round lists of them.
  abbrev page_of : History → List ℕ
  page_of h = listed (suc q) keep (still_active all h)

  active-Distinct : (h : History) → Distinct (still_active all h)
  unfolding still_active
  active-Distinct h = filter-Distinct _ all distinct

  others_lem : (h : History) → others u keep h ≡ page_of h
  unfolding others
  others_lem h = ap (without keep) (serving.pages h)

  left-append :
      (h : History) (ss : List ℕ)
      → left ((h ++ list_sessions ∷ []) ++ map revoke_session ss)
        ≡ without keep (less ss (still_active all h))
  left-append h ss = ap (without keep) (still_active-append all h ss)

  -- A page with nothing to revoke means that nothing is left, if what is left is no more than the
  -- rounds can take.
  left-of-page : (n : ℕ) (h : History) → length (left h) ≤ n * q → page_of h ≡ [] → left h ≡ []
  left-of-page n h bound none_listed =
      elim (listed-long (suc q) keep (still_active all h) (active-Distinct h)) [
        | inl same ↦ sym same ∙ none_listed
        | inr (long, enough) ↦
            let zero_page : q ≤ 0 = ground (arith, enough, none_listed) in
            let q0 : q ≡ 0 = omega (arith, zero_page) in
            empty-of-length (left h) (omega (arith, subst (λ k. length (left h) ≤ n * k) q0 bound))
      ]

  -- A round that lists something takes a page less one off what is left, or all of it.
  left-after :
      (n : ℕ) (h : History)
      → length (left h) ≤ suc n * q
      → length (without keep (less (page_of h) (still_active all h))) ≤ n * q
  left-after n h bound =
      let active = still_active all h in
      let counted = listed-counted (suc q) keep active (active-Distinct h) in
      elim (listed-long (suc q) keep active (active-Distinct h)) [
        | inl same ↦ omega (arith, counted, ap length same)
        | inr (long, enough) ↦ grind (arith, counted, enough, bound)
      ]

  left-listing : (h : History) → left (h ++ list_sessions ∷ []) ≡ left h
  left-listing h =
      subst (λ k. left k ≡ without keep (less [] (still_active all h)))
        (append_nil (h ++ list_sessions ∷ [])) (left-append h [])
      ∙ ap (without keep) (less_nil (still_active all h))

  rounds-nothing :
      (n : ℕ) (p : Progress)
      → length (left p.history) ≤ n * q
      → others u keep p.history ≡ []
      → ((rounds u (suc n) keep p).failures ≡ p.failures)
        × (left (rounds u (suc n) keep p).history ≡ [])
  unfolding rounds attempt
  rounds-nothing n p bound e = ground (
    arith,
    e,
    serving.lists p.history,
    left-listing p.history,
    left-of-page n p.history bound (sym (others_lem p.history) ∙ e),
  )

  rounds_end :
      (n : ℕ) (p : Progress)
      → length (left p.history) ≤ n * q
      → ((rounds u (suc n) keep p).failures ≡ p.failures)
        × (left (rounds u (suc n) keep p).history ≡ [])
  unfolding rounds attempt
  rounds_end zero p bound = elim (List-cases (others u keep p.history)) [
    | inl e ↦ rounds-nothing zero p bound e
    | inr (e, more) ↦
        let some_listed : length (page_of p.history) ≡ suc (length e.1) =
          ap length (sym (others_lem p.history) ∙ more) in
        let counted =
          listed-counted (suc q) keep (still_active all p.history) (active-Distinct p.history) in
        absurd (omega (arith, some_listed, counted, bound))
  ]
  rounds_end (suc n) p bound = elim (List-cases (others u keep p.history)) [
    | inl e ↦ rounds-nothing (suc n) p bound e
    | inr (e, more) ↦
        let listing = record (attempt u list_sessions "kratos sessions" p) { failures = [] } in
        let revoked = revoke_each u (others u keep p.history) listing in
        let (trace, fine) =
          revoke_each_lem u (suc q) all (others u keep p.history) listing serving in
        let after : left revoked.history
            ≡ without keep (less (page_of p.history) (still_active all p.history)) =
          ap left trace
          ∙ left-append p.history (others u keep p.history)
          ∙ ap (λ l. without keep (less l (still_active all p.history))) (others_lem p.history) in
        let ended =
          rounds_end n (record revoked { failures = p.failures })
            (omega (arith, ap length after, left-after n p.history bound)) in
        ground (arith, more, serving.lists p.history, fine, ended)
  ]

-- A revocation that keeps one session ends within its 20 rounds, without a failure and with no other
-- session left, if Kratos serves it and the account has at most 19 times a page less one of them: 4731
-- at the page of 250.
pub revoke_kratos_sessions-ends :
    (u : Upstreams) (all : List ℕ) (keep : ℕ) (p : Progress)
    → IsServing u 250 all
    → Distinct all
    → length (without keep (still_active all p.history)) ≤ 4731
    → ((revoke_kratos_sessions u (some keep) p).failures ≡ p.failures)
      × (without keep (still_active all (revoke_kratos_sessions u (some keep) p).history) ≡ [])
unfolding revoke_kratos_sessions
revoke_kratos_sessions-ends u all keep p serving distinct bound =
    rounds_end u 249 keep all serving distinct 19 p bound
