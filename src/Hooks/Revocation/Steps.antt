-- ===== src/Hooks/Revocation/Steps.antt =====
-- What each step of a revocation adds to the history, and that a failure stays noted.
use weave_auth.Prelude.{
  append_assoc, append_nil, sym, String, Bool, true, false, List, [], ◌∷◌, ◌++◌, ◌≡◌, inl, inr,
  refl, arith, Bool-cases, number_key,
}
use weave_auth.Hooks.Revocation.{
  Step, get_identity, scramble_password, delete_oidc_link, delete_credential, History, Upstreams,
  Progress, attempt, delete_links, delete_credentials, purge_links, purge, no_failures,
  purged_credential_types,
}

pub no_failures-append : (fs : List String) (f : String) → no_failures (fs ++ f ∷ []) ≡ false
no_failures-append [] f = refl
no_failures-append (g ∷ fs) f = refl

-- Whether no step has failed so far.
abbrev pub IsClean : Progress → Type 0
IsClean p = no_failures p.failures ≡ true

abbrev pub Extends : History → History → Type 0
Extends h final = (rest : History) × (final ≡ h ++ rest)

pub Extends-refl : (h : History) → Extends h h
Extends-refl h = ([], sym (append_nil h))

pub Extends-trans : (g h final : History) → Extends g h → Extends h final → Extends g final
Extends-trans g h final (a, e) (b, f) = (a ++ b, ground (arith, e, f, append_assoc g a b))

module _ (u : Upstreams) where
  pub attempt-IsClean :
      (step : Step) (name : String) (p : Progress)
      → IsClean (attempt u step name p)
      → IsClean p × (u.fails p.history step ≡ false)
  unfolding attempt
  attempt-IsClean step name p h = elim (Bool-cases (u.fails p.history step)) [
    | inl f ↦ ground (arith, h, f, no_failures-append p.failures name)
    | inr f ↦ (ground (arith, h, f), f)
  ]

  delete_links-IsClean :
      (links : List String) (p : Progress) → IsClean (delete_links u links p) → IsClean p
  unfolding delete_links
  delete_links-IsClean [] p h = h
  delete_links-IsClean (l ∷ links) p h =
      (attempt-IsClean (delete_oidc_link l) "purge credentials" p
        (delete_links-IsClean links _ h)).0

  delete_credentials-IsClean :
      (types : List String) (p : Progress) → IsClean (delete_credentials u types p) → IsClean p
  unfolding delete_credentials
  delete_credentials-IsClean [] p h = h
  delete_credentials-IsClean (c ∷ types) p h =
      (attempt-IsClean (delete_credential c) "purge credentials" p
        (delete_credentials-IsClean types _ h)).0

  pub purge-IsClean : (wanted : Bool) (p : Progress) → IsClean (purge u wanted p) → IsClean p
  unfolding purge purge_links
  purge-IsClean false p h = h
  purge-IsClean true p h =
      let linked = delete_credentials-IsClean purged_credential_types (purge_links u p) h in
      elim (Bool-cases (u.fails p.history get_identity)) [
        | inl f ↦ (attempt-IsClean get_identity "purge credentials" p (ground (arith, linked, f))).0
        | inr f ↦
            (attempt-IsClean get_identity "purge credentials" p
              (attempt-IsClean scramble_password "purge credentials"
                (attempt u get_identity "purge credentials" p)
                (delete_links-IsClean (u.oidc_links p.history)
                  (attempt u scramble_password "purge credentials"
                    (attempt u get_identity "purge credentials" p))
                  (ground (arith, linked, f)))).0).0
      ]

  pub attempt_history :
      (step : Step) (name : String) (p : Progress)
      → (attempt u step name p).history ≡ p.history ++ step ∷ []
  unfolding attempt
  attempt_history step name p = refl

  attempt-Extends :
      (step : Step) (name : String) (p : Progress)
      → Extends p.history (attempt u step name p).history
  unfolding attempt
  attempt-Extends step name p = (step ∷ [], refl)

  delete_links-Extends :
      (links : List String) (p : Progress) → Extends p.history (delete_links u links p).history
  unfolding delete_links
  delete_links-Extends [] p = Extends-refl p.history
  delete_links-Extends (l ∷ links) p =
      let q = attempt u (delete_oidc_link l) "purge credentials" p in
      Extends-trans p.history q.history (delete_links u links q).history
        (attempt-Extends (delete_oidc_link l) "purge credentials" p) (delete_links-Extends links q)

  delete_credentials-Extends :
      (types : List String) (p : Progress)
      → Extends p.history (delete_credentials u types p).history
  unfolding delete_credentials
  delete_credentials-Extends [] p = Extends-refl p.history
  delete_credentials-Extends (c ∷ types) p =
      let q = attempt u (delete_credential c) "purge credentials" p in
      Extends-trans p.history q.history (delete_credentials u types q).history
        (attempt-Extends (delete_credential c) "purge credentials" p)
        (delete_credentials-Extends types q)

  purge_links-Extends : (p : Progress) → Extends p.history (purge_links u p).history
  unfolding purge_links
  purge_links-Extends p =
      let read = attempt u get_identity "purge credentials" p in
      let scrambled = attempt u scramble_password "purge credentials" read in
      let (a, e) = attempt-Extends get_identity "purge credentials" p in
      let (b, f) =
        Extends-trans p.history scrambled.history
          (delete_links u (u.oidc_links p.history) scrambled).history
          (Extends-trans p.history read.history scrambled.history (a, e)
            (attempt-Extends scramble_password "purge credentials" read))
          (delete_links-Extends (u.oidc_links p.history) scrambled) in
      elim (Bool-cases (u.fails p.history get_identity)) [
        | inl t ↦ (a, ground (arith, t, e))
        | inr t ↦ (b, ground (arith, t, f))
      ]

  pub purge-Extends : (wanted : Bool) (p : Progress) → Extends p.history (purge u wanted p).history
  unfolding purge
  purge-Extends false p = Extends-refl p.history
  purge-Extends true p =
      Extends-trans p.history (purge_links u p).history
        (delete_credentials u purged_credential_types (purge_links u p)).history
        (purge_links-Extends p)
        (delete_credentials-Extends purged_credential_types (purge_links u p))
