-- ===== src/Prelude/Lists.antt =====
-- Lists measured by native numbers, and Boolean searches through them.
use Prim.Native.Nat.{ℕ, zero, suc, ◌+◌, ◌≤◌, min}
use mathlib.Core.Path.{◌≡◌, refl, ap}
use mathlib.Core.Bool.{Bool, true, false, not, ◌&&◌, ◌||◌}
use mathlib.Core.List.{List, [], ◌∷◌, ◌++◌, map}
use mathlib.Core.Option.{Option, none, some}
use native.Mathlib.Omega.{arith}
use weave_auth.Prelude.Tests.{if◌then◌else◌}
use weave_auth.Prelude.Keys.{Key, ◌==◌}

module _ {ℓ} {A : Type ℓ} where
  abbrev pub length : List A → ℕ
  length [] = 0
  length (x ∷ xs) = suc (length xs)

  pub length-append : (xs ys : List A) → length (xs ++ ys) ≡ length xs + length ys
  length-append [] ys = omega arith
  length-append (x ∷ xs) ys = omega (arith, length-append xs ys)

  pub append_assoc : (xs ys zs : List A) → (xs ++ ys) ++ zs ≡ xs ++ (ys ++ zs)
  append_assoc [] ys zs = refl
  append_assoc (x ∷ xs) ys zs = ap (λ l. x ∷ l) (append_assoc xs ys zs)

  pub append_nil : (xs : List A) → xs ++ [] ≡ xs
  append_nil [] = refl
  append_nil (x ∷ xs) = ap (λ l. x ∷ l) (append_nil xs)

  abbrev pub take : ℕ → List A → List A
  take zero xs = []
  take (suc n) [] = []
  take (suc n) (x ∷ xs) = x ∷ take n xs

  -- Rust's `Iterator::filter`, by a Boolean test.
  abbrev pub filter : (A → Bool) → List A → List A
  filter p [] = []
  filter p (x ∷ xs) = let rest = filter p xs in if p x then x ∷ rest else rest

  abbrev pub any : (A → Bool) → List A → Bool
  any p [] = false
  any p (x ∷ xs) = p x || any p xs

  abbrev pub all : (A → Bool) → List A → Bool
  all p [] = true
  all p (x ∷ xs) = p x && all p xs

  -- What holds of every element of a list.
  abbrev pub All {κ} : (A → Type κ) → List A → Type κ
  All P [] = Unit
  All P (x ∷ xs) = P x × All P xs

  pub length-filter-le : (p : A → Bool) (xs : List A) → length (filter p xs) ≤ length xs
  length-filter-le p [] = omega arith
  length-filter-le p (x ∷ xs) = ground (arith, length-filter-le p xs)

module _ {ℓ κ} {A : Type ℓ} {B : Type κ} where
  abbrev pub filter_map : (A → Option B) → List A → List B
  filter_map f [] = []
  filter_map f (x ∷ xs) =
      let rest = filter_map f xs in elim (f x) [ none ↦ rest | some b ↦ b ∷ rest ]

module _ {ℓ} {A : Type ℓ} ⦃k : Key A⦄ where
  abbrev pub contains : A → List A → Bool
  contains a [] = false
  contains a (x ∷ xs) = x == a || contains a xs

  -- No element stands twice.
  abbrev pub Distinct : List A → Type 0
  Distinct [] = Unit {0}
  Distinct (x ∷ xs) = (contains x xs ≡ false) × Distinct xs

  -- The list less an element, as `retain(|x| x != a)` leaves it.
  abbrev pub without : A → List A → List A
  without a = filter (λ x. not (x == a))

  pub contains-append :
      (a : A) (xs ys : List A) → contains a (xs ++ ys) ≡ (contains a xs || contains a ys)
  contains-append a [] ys = refl
  contains-append a (x ∷ xs) ys = ground (arith, contains-append a xs ys)

  pub contains-without :
      (a b : A) (xs : List A)
      → contains b (without a xs) ≡ (if a == b then false else contains b xs)
  contains-without a b [] = ground arith
  contains-without a b (x ∷ xs) =
      ground (arith, contains-without a b xs, k.same_iff x a, k.same_iff x b, k.same_iff a b)

  pub without-Distinct : (a : A) (xs : List A) → Distinct xs → Distinct (without a xs)
  without-Distinct a [] d = tt
  without-Distinct a (x ∷ xs) d = ground (arith, without-Distinct a xs d.1, contains-without a x xs)

  pub append-Distinct :
      (xs : List A) (a : A) → Distinct xs → contains a xs ≡ false → Distinct (xs ++ a ∷ [])
  append-Distinct [] a d h = (refl, tt)
  append-Distinct (x ∷ xs) a d h = ground (
    arith,
    append-Distinct xs a d.1,
    contains-append x xs (a ∷ []),
    k.same_iff x a,
    k.same_iff a x,
  )

  pub contains-filter-false :
      (p : A → Bool) (a : A) (xs : List A)
      → contains a xs ≡ false
      → contains a (filter p xs) ≡ false
  contains-filter-false p a [] h = refl
  contains-filter-false p a (x ∷ xs) h = ground (arith, contains-filter-false p a xs)

  pub contains-filter :
      (p : A → Bool) (a : A) (xs : List A) → contains a (filter p xs) ≡ (contains a xs && p a)
  contains-filter p a [] = refl
  contains-filter p a (x ∷ xs) = ground (arith, contains-filter p a xs, k.same_iff x a)

  pub filter-Distinct : (p : A → Bool) (xs : List A) → Distinct xs → Distinct (filter p xs)
  filter-Distinct p [] d = tt
  filter-Distinct p (x ∷ xs) d =
      ground (arith, filter-Distinct p xs d.1, contains-filter-false p x xs)

  pub length-without :
      (a : A) (xs : List A)
      → Distinct xs
      → length (without a xs) + (if contains a xs then 1 else 0) ≡ length xs
  length-without a [] d = refl
  length-without a (x ∷ xs) d = ground (arith, length-without a xs d.1, k.same_iff x a)

  -- Taking out an element that is not there changes nothing.
  pub without_absent : (a : A) (xs : List A) → contains a xs ≡ false → without a xs ≡ xs
  without_absent a [] h = refl
  without_absent a (x ∷ xs) h = ground (arith, without_absent a xs)

  -- All the elements of the first list stand in the second.
  abbrev pub Within : List A → List A → Type 0
  Within xs ys = All (λ x. contains x ys ≡ true) xs

  pub Within-without :
      (a : A) (xs ys : List A) → contains a xs ≡ false → Within xs ys → Within xs (without a ys)
  Within-without a [] ys h w = tt
  Within-without a (x ∷ xs) ys h w =
      ground
        (arith, Within-without a xs ys, contains-without a x ys, k.same_iff a x, k.same_iff x a)

  pub Within-contains :
      (a : A) (xs ys : List A) → Within xs ys → contains a xs ≡ true → contains a ys ≡ true
  Within-contains a [] ys w h = cc
  Within-contains a (x ∷ xs) ys w h = ground (arith, w, Within-contains a xs ys w.1, k.same_iff x a)

  pub All-of-contains {κ} :
      (P : A → Type κ) (xs : List A) → ((a : A) → contains a xs ≡ true → P a) → All P xs
  All-of-contains P [] h = tt
  All-of-contains P (x ∷ xs) h =
      (h x (ground (arith, k.same_iff x x)), All-of-contains P xs (λ a c. h a (ground (arith, c))))

pub length-map {ℓ κ} :
    {A : Type ℓ} {B : Type κ} (f : A → B) (xs : List A) → length (map f xs) ≡ length xs
length-map f [] = refl
length-map f (x ∷ xs) = ground (arith, length-map f xs)

pub length-take {ℓ} : {A : Type ℓ} (n : ℕ) (xs : List A) → length (take n xs) ≡ min n (length xs)
length-take zero xs = omega arith
length-take (suc n) [] = omega arith
length-take (suc n) (x ∷ xs) = omega (arith, length-take n xs)
