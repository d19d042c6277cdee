-- ===== src/Prelude/Sorting.antt =====
-- Rust's stable `sort_by_key` over a numeric key.
use Prim.Native.Nat.{ℕ, zero, suc, ◌≤◌}
use mathlib.Core.Path.{◌≡◌, refl}
use mathlib.Core.Bool.{Bool, true, false}
use mathlib.Core.List.{List, [], ◌∷◌, map}
use mathlib.Core.Option.{Option, some}
use native.Mathlib.Omega.{arith}
use weave_auth.Prelude.Tests.{if◌then◌else◌, leb}
use weave_auth.Prelude.Keys.{Key}
use weave_auth.Prelude.Lists.{length, take, contains, Distinct, All}

module _ {ℓ} {A : Type ℓ} (le : A → A → Bool) where
  unfoldable pub insert_sorted : A → List A → List A
  insert_sorted x [] = x ∷ []
  insert_sorted x (y ∷ ys) = if le x y then x ∷ y ∷ ys else y ∷ insert_sorted x ys

  unfoldable pub sort_by : List A → List A
  sort_by [] = []
  sort_by (x ∷ xs) = insert_sorted x (sort_by xs)

  pub All-insert_sorted {κ} :
      (P : A → Type κ) (x : A) (xs : List A) → P x → All P xs → All P (insert_sorted x xs)
  unfolding insert_sorted
  All-insert_sorted P x [] p h = (p, tt)
  All-insert_sorted P x (y ∷ ys) p h = ground (arith, p, h, All-insert_sorted P x ys p h.1)

  pub All-sort_by {κ} : (P : A → Type κ) (xs : List A) → All P xs → All P (sort_by xs)
  unfolding sort_by
  All-sort_by P [] h = tt
  All-sort_by P (x ∷ xs) h = All-insert_sorted P x (sort_by xs) h.0 (All-sort_by P xs h.1)

  length-insert_sorted : (x : A) (xs : List A) → length (insert_sorted x xs) ≡ suc (length xs)
  unfolding insert_sorted
  length-insert_sorted x [] = refl
  length-insert_sorted x (y ∷ ys) = ground (arith, length-insert_sorted x ys)

  pub length-sort_by : (xs : List A) → length (sort_by xs) ≡ length xs
  unfolding sort_by
  length-sort_by [] = refl
  length-sort_by (x ∷ xs) = ground (arith, length-insert_sorted x (sort_by xs), length-sort_by xs)

module _ {ℓ} {A : Type ℓ} (key : A → ℕ) where
  abbrev pub by_key : A → A → Bool
  by_key x y = leb (key x) (key y)

  -- `sort_by_key`.
  abbrev pub sort_by_key : List A → List A
  sort_by_key = sort_by by_key

  -- Each key is at most every later one.
  abbrev pub IsAscending : List A → Type 0
  IsAscending [] = Unit
  IsAscending (x ∷ xs) = All (λ y. key x ≤ key y) xs × IsAscending xs

  All-le : (a b : ℕ) (xs : List A) → a ≤ b → All (λ y. b ≤ key y) xs → All (λ y. a ≤ key y) xs
  All-le a b [] h t = tt
  All-le a b (x ∷ xs) h t = (omega arith, All-le a b xs h t.1)

  insert_sorted-IsAscending :
      (x : A) (xs : List A) → IsAscending xs → IsAscending (insert_sorted by_key x xs)
  unfolding insert_sorted
  insert_sorted-IsAscending x [] h = (tt, tt)
  insert_sorted-IsAscending x (y ∷ ys) h = ground (
    arith,
    h,
    All-le (key x) (key y) ys,
    insert_sorted-IsAscending x ys h.1,
    All-insert_sorted by_key (λ z. key y ≤ key z) x ys,
  )

  pub sort_by_key-IsAscending : (xs : List A) → IsAscending (sort_by_key xs)
  unfolding sort_by
  sort_by_key-IsAscending [] = tt
  sort_by_key-IsAscending (x ∷ xs) =
      insert_sorted-IsAscending x (sort_by_key xs) (sort_by_key-IsAscending xs)

-- Sorting keeps the names that the elements have, and their distinctness.
module _ {ℓ κ} {A : Type ℓ} {K : Type κ} ⦃k : Key K⦄ (le : A → A → Bool) (name : A → K) where
  contains-insert_sorted :
      (a : K) (x : A) (xs : List A)
      → contains a (map name (insert_sorted le x xs)) ≡ contains a (map name (x ∷ xs))
  unfolding insert_sorted
  contains-insert_sorted a x [] = refl
  contains-insert_sorted a x (y ∷ ys) = ground (arith, contains-insert_sorted a x ys)

  pub contains-sort_by :
      (a : K) (xs : List A) → contains a (map name (sort_by le xs)) ≡ contains a (map name xs)
  unfolding sort_by
  contains-sort_by a [] = refl
  contains-sort_by a (x ∷ xs) =
      ground (arith, contains-insert_sorted a x (sort_by le xs), contains-sort_by a xs)

  insert_sorted-Distinct :
      (x : A) (xs : List A)
      → contains (name x) (map name xs) ≡ false
      → Distinct (map name xs)
      → Distinct (map name (insert_sorted le x xs))
  unfolding insert_sorted
  insert_sorted-Distinct x [] h d = (refl, tt)
  insert_sorted-Distinct x (y ∷ ys) h d = ground (
    arith,
    insert_sorted-Distinct x ys,
    contains-insert_sorted (name y) x ys,
    k.same_iff (name x) (name y),
    k.same_iff (name y) (name x),
  )

  pub sort_by-Distinct :
      (xs : List A) → Distinct (map name xs) → Distinct (map name (sort_by le xs))
  unfolding sort_by
  sort_by-Distinct [] d = tt
  sort_by-Distinct (x ∷ xs) d =
      insert_sorted-Distinct x (sort_by le xs) (ground (arith, d, contains-sort_by (name x) xs))
        (sort_by-Distinct xs d.1)

module _ {ℓ κ} {A : Type ℓ} {K : Type κ} ⦃k : Key K⦄ (name : A → K) where
  pub contains-take-false :
      (a : K) (n : ℕ) (xs : List A)
      → contains a (map name xs) ≡ false
      → contains a (map name (take n xs)) ≡ false
  contains-take-false a zero xs h = refl
  contains-take-false a (suc n) [] h = refl
  contains-take-false a (suc n) (x ∷ xs) h = ground (arith, contains-take-false a n xs)

  pub take-Distinct :
      (n : ℕ) (xs : List A) → Distinct (map name xs) → Distinct (map name (take n xs))
  take-Distinct zero xs d = tt
  take-Distinct (suc n) [] d = tt
  take-Distinct (suc n) (x ∷ xs) d =
      ground (arith, d, take-Distinct n xs d.1, contains-take-false (name x) n xs)

  -- What is named among the first `n` comes no later than what is named only after them.
  module _ (key : A → ℕ) (value : K → Option ℕ) where
    abbrev pub Valued : List A → Type 0
    Valued = All (λ x. value (name x) ≡ some (key x))

    Valued-bound :
        (m b : ℕ) (j : K) (xs : List A)
        → All (λ y. m ≤ key y) xs
        → Valued xs
        → contains j (map name xs) ≡ true
        → value j ≡ some b
        → m ≤ b
    Valued-bound m b j [] t v c e = cc
    Valued-bound m b j (x ∷ xs) t v c e =
        ground (arith, v, t, k.same_iff (name x) j, Valued-bound m b j xs t.1 v.1)

    pub taken-le-left :
        (n : ℕ) (xs : List A) (i j : K) (a b : ℕ)
        → IsAscending key xs
        → Valued xs
        → contains i (map name (take n xs)) ≡ true
        → contains j (map name xs) ≡ true
        → contains j (map name (take n xs)) ≡ false
        → value i ≡ some a
        → value j ≡ some b
        → a ≤ b
    taken-le-left zero xs i j a b s v ci cj t ei ej = cc
    taken-le-left (suc n) [] i j a b s v ci cj t ei ej = cc
    taken-le-left (suc n) (x ∷ xs) i j a b s v ci cj t ei ej = ground (
      arith,
      s,
      v,
      k.same_iff (name x) i,
      k.same_iff (name x) j,
      Valued-bound (key x) b j xs s.0 v.1,
      taken-le-left n xs i j a b s.1 v.1,
    )
