-- ===== src/Bff/InternalRevoke/Tests.antt =====
-- A call with the key, by digests of one byte.
use weave_auth.Prelude.{
  ℕ, String, not, some, List, [], ◌∷◌, All, ◌≡◌, ◌≢◌, ◌⊎◌, refl, arith, ◌==◌, if◌then◌else◌,
  only_if, text_key, number_key,
}
use weave_auth.Bff.Secrets.Comparison.{IsByte}
use weave_auth.Bff.Storage.{get_session}
use weave_auth.Bff.Storage.Invariant.{no_sessions-InStep}
use weave_auth.Bff.Server.{new_state}
use weave_auth.Bff.InternalRevoke.{revoke}
use weave_auth.Bff.InternalRevoke.Authorized.{revoke-authorized}

abbrev short_digest : String → List ℕ
short_digest s = (if s == "k3y" then 1 else 2) ∷ []

short_bytes : (s : String) → All IsByte (short_digest s)
short_bytes s = ground arith

revoke-authorized_example :
    ((revoke short_digest new_state (some "k3y") "k3y" 7 ≡ (new_state, 401))
      × ((key : String)
          → some "k3y" ≡ some key
          → short_digest key ≡ short_digest "k3y"
          → ◌≡◌ {A = String} "k3y" ""))
    ⊎ ((◌≢◌ {A = String} "k3y" "")
        × ((key : String) × (some "k3y" ≡ some key) × (short_digest key ≡ short_digest "k3y"))
        × ((revoke short_digest new_state (some "k3y") "k3y" 7).1 ≡ 204)
        × ((j : String)
            → get_session (revoke short_digest new_state (some "k3y") "k3y" 7).0.sessions j
              ≡ only_if (λ d. not (d.user_id == 7)) (get_session new_state.sessions j)))
revoke-authorized_example =
    revoke-authorized short_digest short_bytes (λ a b. refl) new_state (some "k3y") "k3y" 7
      no_sessions-InStep
