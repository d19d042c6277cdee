-- ===== src/Bff/Secrets/Comparison.antt =====
-- The comparison of digests by their bits decides whether they are equal.
use weave_auth.Prelude.{
  ℕ, zero, suc, ◌*◌, ◌/◌, ◌%◌, ◌<◌, ◌≤◌, String, true, List, [], ◌∷◌, ◌≡◌, ◌↔◌, arith, All, length,
  number_key, text_key,
}
use weave_auth.Bff.Secrets.{bit_xor, bit_or, max_bit, zip, fold, constant_time_eq}

-- How many numbers have `w` bits.
abbrev width : ℕ → ℕ
width zero = 1
width (suc w) = 2 * width w

bit_xor-lt : (w a b : ℕ) → bit_xor w a b < width w
unfolding bit_xor
bit_xor-lt zero a b = omega arith
bit_xor-lt (suc w) a b = omega (arith, bit_xor-lt w (a / 2) (b / 2))

bit_xor_zero : (w a b : ℕ) → a < width w → b < width w → (bit_xor w a b ≡ 0) ↔ (a ≡ b)
unfolding bit_xor
bit_xor_zero zero a b p q = ground arith
bit_xor_zero (suc w) a b p q = ground (arith, bit_xor_zero w (a / 2) (b / 2))

max_bit-le-one : (a b : ℕ) → b < 2 → max_bit a b ≤ 1
max_bit-le-one zero b h = omega arith
max_bit-le-one (suc a) b h = omega arith

max_bit_zero : (a b : ℕ) → (max_bit a b ≡ 0) ↔ ((a ≡ 0) × (b ≡ 0))
max_bit_zero zero b = ground arith
max_bit_zero (suc a) b = ground arith

bit_or-lt : (w a b : ℕ) → bit_or w a b < width w
unfolding bit_or
bit_or-lt zero a b = omega arith
bit_or-lt (suc w) a b = omega (arith, bit_or-lt w (a / 2) (b / 2), max_bit-le-one (a % 2) (b % 2))

bit_or_zero : (w a b : ℕ) → a < width w → b < width w → (bit_or w a b ≡ 0) ↔ ((a ≡ 0) × (b ≡ 0))
unfolding bit_or
bit_or_zero zero a b p q = ground arith
bit_or_zero (suc w) a b p q =
    ground (arith, bit_or_zero w (a / 2) (b / 2), max_bit_zero (a % 2) (b % 2))

abbrev pub IsByte : ℕ → Type 0
IsByte n = n < 256

fold_zero :
    (xs ys : List ℕ) (diff : ℕ)
    → length xs ≡ length ys
    → All IsByte xs
    → All IsByte ys
    → IsByte diff
    → (fold (λ diff e. bit_or 8 diff (bit_xor 8 e.0 e.1)) diff (zip xs ys) ≡ 0)
      ↔ ((diff ≡ 0) × (xs ≡ ys))
fold_zero [] [] diff n p q d = ground arith
fold_zero [] (y ∷ ys) diff n p q d = ground arith
fold_zero (x ∷ xs) [] diff n p q d = ground arith
fold_zero (x ∷ xs) (y ∷ ys) diff n p q d = ground (
  arith,
  fold_zero xs ys (bit_or 8 diff (bit_xor 8 x y)),
  bit_or_zero 8 diff (bit_xor 8 x y),
  bit_xor_zero 8 x y,
  bit_xor-lt 8 x y,
  bit_or-lt 8 diff (bit_xor 8 x y),
)

-- The texts are taken to be equal exactly when all bytes of their digests are, for digests of one
-- length: no difference is lost on the way.
pub constant_time_eq_iff :
    (digest : String → List ℕ)
    → ((s : String) → All IsByte (digest s))
    → ((a b : String) → length (digest a) ≡ length (digest b))
    → (a b : String) → (constant_time_eq digest a b ≡ true) ↔ (digest a ≡ digest b)
unfolding constant_time_eq
constant_time_eq_iff digest p n a b =
    ground (arith, fold_zero (digest a) (digest b) 0 (n a b) (p a) (p b), number_key.same_iff)
