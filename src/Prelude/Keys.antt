-- ===== src/Prelude/Keys.antt =====
-- Values that the program compares with `==`: an instance holds the test and what it decides.
use Prim.Native.Nat.{ℕ, compare, Ordering}
use Prim.Native.String.{String}
use mathlib.Core.Path.{◌≡◌, refl}
use mathlib.Core.Logic.{◌↔◌}
use mathlib.Core.Bool.{Bool, true, false}
use native.Mathlib.Omega.{arith}
use text.Mathlib.Text.{◌==◌ as same_text}
use text.Mathlib.TextEquality.{eq_iff}

pub record Key {ℓ} (K : Type ℓ) : Type ℓ where
  pub same : K → K → Bool
  pub same_iff : (a b : K) → (same a b ≡ true) ↔ (a ≡ b)

infix 50 ◌==◌
abbrev pub ◌==◌ {ℓ} : {K : Type ℓ} ⦃k : Key K⦄ → K → K → Bool
◌==◌ ⦃k⦄ = k.same

abbrev pub same_number : ℕ → ℕ → Bool
same_number a b = elim (compare a b) [ Ordering.eq ↦ true | _ ↦ false ]

pub same_number_iff : (a b : ℕ) → (same_number a b ≡ true) ↔ (a ≡ b)
same_number_iff a b = ground arith

instance abbrev pub number_key : Key ℕ
number_key = record { same = same_number; same_iff = same_number_iff }

instance abbrev pub text_key : Key String
text_key = record { same = same_text; same_iff = eq_iff }

pub same_refl {ℓ} : {K : Type ℓ} ⦃k : Key K⦄ (a : K) → (a == a) ≡ true
same_refl ⦃k⦄ a = (k.same_iff a a).1 refl
