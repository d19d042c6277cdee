-- ===== src/Bff/Jwks/Tests.antt =====
-- A cache that holds one key for an hour and a half, and the theorems at it. The keys are their ids.
use weave_auth.Prelude.{
  ◌+◌, Bool, ◌-◌, ◌*◌, ◌<◌, String, true, some, List, [], ◌∷◌, contains, ◌≡◌, ◌⊎◌, refl, is_none_or,
  Result, ok, err, text_key, ℕ,
}
use weave_auth.Bff.Session.{Time, seconds}
use weave_auth.Bff.Jwks.{
  JwksError, unreachable, Cached, max_age, keys_for, fresh_keys, stale_keys, refetch, after_fetch,
  known_key,
}
use weave_auth.Bff.Jwks.Serving.{keys_for-served}

abbrev holds : List String → String → Bool
holds kids kid = contains kid kids

abbrev old_cache : Cached (List String)
old_cache = record { keys = some ("k" ∷ [], seconds 100); last_attempt = some (seconds 100) }

abbrev clock : ℕ → Time
clock n = seconds (5500 + n)

jwks_runs : ℕ
unfolding keys_for fresh_keys stale_keys refetch after_fetch known_key
jwks_runs = 0

-- Hydra is down: the old keys still serve.
still_serves :
    (keys_for holds (seconds 60) old_cache (some "k") clock (err unreachable)).1 ≡ ok ("k" ∷ [])
unfolding jwks_runs
still_serves = refl

keys_for-served_example :
    (is_none_or (holds ("k" ∷ [])) (some "k") ≡ true)
    × ((◌≡◌ {A = Result JwksError (List String)} (err unreachable) (ok ("k" ∷ [])))
        ⊎ ((at : Time) × (old_cache.keys ≡ some ("k" ∷ [], at))
            × ((clock 0 - at < max_age) ⊎ (clock 1 - at < max_age * 2))))
keys_for-served_example =
    keys_for-served holds (seconds 60) old_cache (some "k") clock (err unreachable) ("k" ∷ [])
      still_serves
