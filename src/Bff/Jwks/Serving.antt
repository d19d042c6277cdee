-- ===== src/Bff/Jwks/Serving.antt =====
-- Which keys a check gets, and how often Hydra is asked for them.
use weave_auth.Prelude.{
  ℕ, leb, ◌-◌, ◌*◌, ◌<◌, String, Bool, true, Option, none, some, ◌≡◌, ◌⊎◌, inl, inr, arith,
  is_none_or, Result, ok, Bool-cases, Option-cases, Result-cases,
}
use weave_auth.Bff.Session.{Time}
use weave_auth.Bff.Jwks.{
  JwksError, Cached, max_age, fresh_keys, stale_keys, is_throttled, known_key, after_fetch, refetch,
  keys_for,
}

module _ {K : Type 0} (has_kid : K → String → Bool) (min_refresh : Time) where
  fresh_keys_lem :
      (c : Cached K) (kid : Option String) (now : Time) (keys : K)
      → fresh_keys has_kid min_refresh c kid now ≡ some keys
      → (is_none_or (has_kid keys) kid ≡ true)
        × (at : Time) × (c.keys ≡ some (keys, at))
        × (now - at < max_age)
  unfolding fresh_keys
  fresh_keys_lem c kid now keys h = elim (Option-cases c.keys) [
    | inl e ↦ ground (arith, h, e)
    | inr ((ks, at), e) ↦ (ground (arith, h, e), at, ground (arith, h, e), ground (arith, h, e))
  ]

  stale_keys_lem :
      (c : Cached K) (kid : Option String) (now : Time) (keys : K)
      → stale_keys has_kid min_refresh c kid now ≡ some keys
      → (is_none_or (has_kid keys) kid ≡ true)
        × (at : Time) × (c.keys ≡ some (keys, at))
        × (now - at < max_age * 2)
  unfolding stale_keys
  stale_keys_lem c none now keys h = cc
  stale_keys_lem c (some kid) now keys h = elim (Option-cases c.keys) [
    | inl e ↦ ground (arith, h, e)
    | inr ((ks, at), e) ↦ (ground (arith, h, e), at, ground (arith, h, e), ground (arith, h, e))
  ]

  known_key_lem :
      (ks keys : K) (kid : Option String)
      → known_key has_kid min_refresh ks kid ≡ ok keys
      → (is_none_or (has_kid keys) kid ≡ true) × (ks ≡ keys)
  unfolding known_key
  known_key_lem ks keys none h = ground (arith, h)
  known_key_lem ks keys (some kid) h = ground (arith, h)

  -- A check for a `kid` only ever gets keys that hold it: just fetched, or cached for less than an hour
  -- at its first reading of the clock, or for less than two at its second.
  pub keys_for-served :
      (c : Cached K) (kid : Option String) (clock : ℕ → Time) (fetched : Result JwksError K)
      (keys : K)
      → (keys_for has_kid min_refresh c kid clock fetched).1 ≡ ok keys
      → (is_none_or (has_kid keys) kid ≡ true)
        × ((fetched ≡ ok keys)
            ⊎ ((at : Time) × (c.keys ≡ some (keys, at))
                × ((clock 0 - at < max_age) ⊎ (clock 1 - at < max_age * 2))))
  unfolding keys_for refetch after_fetch fresh_keys stale_keys known_key
  keys_for-served c kid clock fetched keys h =
      elim (Option-cases (fresh_keys has_kid min_refresh c kid (clock 0))) [
        | inr (ks, e) ↦
            let (holds, at, there, young) =
              fresh_keys_lem c kid (clock 0) keys (ground (arith, h, e)) in
            (holds, inr (at, there, inl young))
        | inl e ↦ elim (Bool-cases (is_throttled has_kid min_refresh c (clock 2))) [
          | inl t ↦
              let (holds, at, there, young) =
                stale_keys_lem c kid (clock 1) keys (ground (arith, h, e, t)) in
              (holds, inr (at, there, inr young))
          | inr t ↦ elim (Result-cases fetched) [
            | inl (ks, f) ↦
                let known = known_key_lem ks keys kid (ground (arith, h, e, t, f)) in
                (known.0, inl (ground (arith, f, known)))
            | inr (x, f) ↦
                let (holds, at, there, young) =
                  stale_keys_lem c kid (clock 1) keys (ground (arith, h, e, t, f)) in
                (holds, inr (at, there, inr young))
          ]
        ]
      ]

  -- A call makes no fetch, so that its outcome does not depend on what one would bring, or it notes
  -- the attempt, and the one before is at least the minimum interval ago.
  pub keys_for-spaced :
      (c : Cached K) (kid : Option String) (clock : ℕ → Time) (fetched : Result JwksError K)
      → ((other : Result JwksError K)
          → keys_for has_kid min_refresh c kid clock other
            ≡ keys_for has_kid min_refresh c kid clock fetched)
        ⊎ (((keys_for has_kid min_refresh c kid clock fetched).0.last_attempt ≡ some (clock 3))
            × (is_none_or (λ before. leb min_refresh (clock 2 - before)) c.last_attempt ≡ true))
  unfolding keys_for refetch after_fetch
  keys_for-spaced c kid clock fetched =
      elim (Option-cases (fresh_keys has_kid min_refresh c kid (clock 0))) [
        | inr (keys, e) ↦ inl (λ other. ground (arith, e))
        | inl e ↦ elim (Bool-cases (is_throttled has_kid min_refresh c (clock 2))) [
          | inl t ↦ inl (λ other. ground (arith, e, t))
          | inr t ↦ elim (Result-cases fetched) [
            | inl (keys, f) ↦ inr (ground (arith, e, t, f), ground (arith, e, t, f))
            | inr (x, f) ↦ inr (ground (arith, e, t, f), ground (arith, e, t, f))
          ]
        ]
      ]
