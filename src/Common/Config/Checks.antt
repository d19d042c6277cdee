-- ===== src/Common/Config/Checks.antt =====
-- What follows from the checks of a configuration.
use weave_auth.Prelude.{
  String, Bool, true, false, List, [], ◌∷◌, ◌≡◌, refl, arith, all, All, Result, ok, ◌>>=◌,
}
use weave_auth.Common.Config.{ConfigError, ensure}

pub ensured :
    {A : Type 0} {a : A} (holds : Bool) (setting : String) (f : Unit {0} → Result ConfigError A)
    → (ensure holds setting >>= f) ≡ ok a
    → (holds ≡ true) × (f tt ≡ ok a)
ensured true setting f h = (refl, h)
ensured false setting f h = cc

pub ensured_last : (holds : Bool) (setting : String) → ensure holds setting ≡ ok tt → holds ≡ true
ensured_last true setting h = refl
ensured_last false setting h = cc

pub all_ok :
    {A : Type 0} (test : A → Bool) (xs : List A) → all test xs ≡ true → All (λ x. test x ≡ true) xs
all_ok test [] h = tt
all_ok test (x ∷ xs) h = (ground (arith, h), all_ok test xs (ground (arith, h)))
