-- ===== src/Bff/Secrets.antt =====
-- bff/src/server/secrets.rs: the comparison of secrets. SHA-256 is a parameter that gives the bytes
-- of a text's digest. Random tokens are the caller's, and the base64 of a digest is not modelled.
pub mod Comparison
mod Tests
use weave_auth.Prelude.{
  ℕ, zero, suc, ◌+◌, ◌*◌, ◌/◌, ◌%◌, String, Bool, List, [], ◌∷◌, ◌==◌, number_key,
}

-- Rust's `^` and `|` on integers of `w` bits.
unfoldable pub bit_xor : ℕ → ℕ → ℕ → ℕ
bit_xor zero a b = 0
bit_xor (suc w) a b = (a + b) % 2 + 2 * bit_xor w (a / 2) (b / 2)

abbrev pub max_bit : ℕ → ℕ → ℕ
max_bit zero b = b
max_bit (suc a) b = 1

unfoldable pub bit_or : ℕ → ℕ → ℕ → ℕ
bit_or zero a b = 0
bit_or (suc w) a b = max_bit (a % 2) (b % 2) + 2 * bit_or w (a / 2) (b / 2)

abbrev pub zip {ℓ} : {A : Type ℓ} → List A → List A → List (A × A)
zip [] ys = []
zip (x ∷ xs) [] = []
zip (x ∷ xs) (y ∷ ys) = (x, y) ∷ zip xs ys

abbrev pub fold {ℓ κ} : {A : Type ℓ} {B : Type κ} → (B → A → B) → B → List A → B
fold f b [] = b
fold f b (x ∷ xs) = fold f (f b x) xs

unfoldable pub constant_time_eq : (String → List ℕ) → String → String → Bool
constant_time_eq digest a b =
    fold (λ diff e. bit_or 8 diff (bit_xor 8 e.0 e.1)) 0 (zip (digest a) (digest b)) == 0
