-- ===== src/Hooks/Revocation/Pages.antt =====
-- Counting what a first page lists of the sessions, and what is left without it.
use weave_auth.Prelude.{
  leb, ℕ, zero, suc, ◌+◌, ◌≤◌, ◌<◌, Bool, true, not, List, [], ◌∷◌, ◌≡◌, ◌⊎◌, inl, inr, refl, ap,
  arith, ◌==◌, filter, take, length, length-take, length-without, contains, contains-without,
  without, without-Distinct, Distinct, Within, Within-without, number_key, Bool-cases,
  All-of-contains,
}

-- The list less several elements.
abbrev pub less : List ℕ → List ℕ → List ℕ
less ss = filter (λ s. not (contains s ss))

filter_swap : (p q : ℕ → Bool) (xs : List ℕ) → filter p (filter q xs) ≡ filter q (filter p xs)
filter_swap p q [] = refl
filter_swap p q (x ∷ xs) = ground (arith, filter_swap p q xs)

less-cons : (s : ℕ) (ss xs : List ℕ) → less (s ∷ ss) xs ≡ less ss (without s xs)
less-cons s ss [] = refl
less-cons s ss (x ∷ xs) =
    ground (arith, less-cons s ss xs, number_key.same_iff s x, number_key.same_iff x s)

pub less_nil : (xs : List ℕ) → less [] xs ≡ xs
less_nil [] = refl
less_nil (x ∷ xs) = ap (λ l. x ∷ l) (less_nil xs)

-- Taking out distinct elements of a list shortens it by their number.
length-less :
    (ss xs : List ℕ)
    → Distinct ss
    → Distinct xs
    → Within ss xs
    → length (less ss xs) + length ss ≡ length xs
length-less [] xs d e w = omega (arith, ap length (less_nil xs))
length-less (s ∷ ss) xs d e w = ground (
  arith,
  less-cons s ss xs,
  length-less ss (without s xs) d.1 (without-Distinct s xs e) (Within-without s ss xs d.0 w.1),
  length-without s xs e,
  w.0,
)

take_all : (n : ℕ) (xs : List ℕ) → length xs ≤ n → take n xs ≡ xs
take_all zero [] h = refl
take_all zero (x ∷ xs) h = absurd (omega (arith, h))
take_all (suc n) [] h = refl
take_all (suc n) (x ∷ xs) h = ap (λ l. x ∷ l) (take_all n xs (omega (arith, h)))

contains-take : (a n : ℕ) (xs : List ℕ) → contains a (take n xs) ≡ true → contains a xs ≡ true
contains-take a zero xs h = cc
contains-take a (suc n) [] h = cc
contains-take a (suc n) (x ∷ xs) h = ground (arith, h, contains-take a n xs)

take-Distinct : (n : ℕ) (xs : List ℕ) → Distinct xs → Distinct (take n xs)
take-Distinct zero xs d = tt
take-Distinct (suc n) [] d = tt
take-Distinct (suc n) (x ∷ xs) d = ground (arith, d, take-Distinct n xs d.1, contains-take x n xs)

-- What a round lists to revoke.
abbrev pub listed : ℕ → ℕ → List ℕ → List ℕ
listed page keep active = without keep (take page active)

module _ (page keep : ℕ) (active : List ℕ) (d : Distinct active) where
  pub listed-counted :
      length (without keep (less (listed page keep active) active))
        + length (listed page keep active)
      ≡ length (without keep active)
  listed-counted = ground (
    arith,
    filter_swap (λ s. not (s == keep)) (λ s. not (contains s (listed page keep active))) active,
    length-less (listed page keep active) (without keep active)
        (without-Distinct keep (take page active) (take-Distinct page active d))
        (without-Distinct keep active d)
        (All-of-contains _ (listed page keep active) λ s c. ground (
          arith,
          c,
          contains-without keep s (take page active),
          contains-without keep s active,
          contains-take s page active,
        )),
  )

  pub listed-long :
      ((listed page keep active) ≡ without keep active)
      ⊎ ((page < length active) × (page ≤ length (listed page keep active) + 1))
  listed-long = elim (Bool-cases (leb (length active) page)) [
    | inl h ↦ inl (ap (without keep) (take_all page active (ground (arith, h))))
    | inr h ↦ inr (
      ground (arith, h),
      ground (
        arith,
        h,
        length-without keep (take page active) (take-Distinct page active d),
        length-take page active,
      ),
    )
  ]

pub empty-of-length : (xs : List ℕ) → length xs ≤ 0 → xs ≡ []
empty-of-length [] h = refl
empty-of-length (x ∷ xs) h = absurd (omega (arith, h))
