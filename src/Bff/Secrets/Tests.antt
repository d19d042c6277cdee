-- ===== src/Bff/Secrets/Tests.antt =====
-- A comparison of two secrets, by digests of two bytes.
use weave_auth.Prelude.{
  ℕ, String, true, false, List, [], ◌∷◌, ◌≡◌, ◌↔◌, refl, arith, All, if◌then◌else◌, ◌==◌, text_key,
}
use weave_auth.Bff.Secrets.{constant_time_eq, bit_xor, bit_or}
use weave_auth.Bff.Secrets.Comparison.{IsByte, constant_time_eq_iff}

abbrev short_digest : String → List ℕ
short_digest s = 7 ∷ (if s == "secret" then 129 else 130) ∷ []

short_bytes : (s : String) → All IsByte (short_digest s)
short_bytes s = ground arith

constant_time_eq_iff_example :
    (constant_time_eq short_digest "secret" "secreT" ≡ true)
    ↔ (short_digest "secret" ≡ short_digest "secreT")
constant_time_eq_iff_example =
    constant_time_eq_iff short_digest short_bytes (λ a b. refl) "secret" "secreT"

differ : constant_time_eq short_digest "secret" "secreT" ≡ false
unfolding constant_time_eq bit_xor bit_or
differ = refl
