-- ===== src/Maps/Laws.antt =====
-- What a map holds after `insert`, `remove` and `retain`.
use weave_auth.Prelude.{
  is_some_and, Distinct, filter, Bool, false, none, some, [], ◌∷◌, Key, ◌==◌, if◌then◌else◌,
  contains, ◌≡◌, refl, arith, is_some, only_if, same_refl, ◌≤◌, length,
}
use weave_auth.Maps.{Map, keys, get, insert, remove, retain, Unique}

module _ {ℓ κ} {K : Type ℓ} {V : Type κ} ⦃e : Key K⦄ where
  pub get-remove : (k j : K) (m : Map K V) → get j (remove k m) ≡ (if k == j then none else get j m)
  unfolding get remove
  get-remove k j [] = ground arith
  get-remove k j ((i, v) ∷ m) =
      ground (arith, get-remove k j m, e.same_iff i k, e.same_iff i j, e.same_iff k j)

  pub get-insert :
      (k j : K) (v : V) (m : Map K V) → get j (insert k v m) ≡ (if k == j then some v else get j m)
  unfolding get insert
  get-insert k j v m = ground (arith, get-remove k j m)

  pub contains-keys : (k : K) (m : Map K V) → contains k (keys m) ≡ is_some (get k m)
  unfolding get
  contains-keys k [] = refl
  contains-keys k ((j, v) ∷ m) = ground (arith, contains-keys k m)

  pub contains-keys-remove :
      (k j : K) (m : Map K V)
      → contains j (keys (remove k m)) ≡ (if k == j then false else contains j (keys m))
  unfolding remove
  contains-keys-remove k j [] = ground arith
  contains-keys-remove k j ((i, v) ∷ m) =
      ground (arith, contains-keys-remove k j m, e.same_iff i k, e.same_iff i j, e.same_iff k j)

  pub remove-Unique : (k : K) (m : Map K V) → Unique m → Unique (remove k m)
  unfolding remove
  remove-Unique k [] u = tt
  remove-Unique k ((j, v) ∷ m) u = ground (arith, remove-Unique k m u.1, contains-keys-remove k j m)

  pub insert-Unique : (k : K) (v : V) (m : Map K V) → Unique m → Unique (insert k v m)
  unfolding insert
  insert-Unique k v m u =
      ground (arith, contains-keys-remove k k m, same_refl k, remove-Unique k m u)

  -- The length of a map whose key is put back falls by at most the one entry.
  pub length-remove-le : (k : K) (m : Map K V) → length (remove k m) ≤ length m
  unfolding remove
  length-remove-le k [] = ground arith
  length-remove-le k ((j, v) ∷ m) = ground (arith, length-remove-le k m)

  pub length-retain-le : (p : K → V → Bool) (m : Map K V) → length (retain p m) ≤ length m
  unfolding retain
  length-retain-le p [] = ground arith
  length-retain-le p ((j, v) ∷ m) = ground (arith, length-retain-le p m)

  contains-keys-retain :
      (p : K → V → Bool) (k : K) (m : Map K V)
      → contains k (keys m) ≡ false
      → contains k (keys (retain p m)) ≡ false
  unfolding retain
  contains-keys-retain p k [] h = refl
  contains-keys-retain p k ((j, v) ∷ m) h = ground (arith, contains-keys-retain p k m)

  pub retain-Unique : (p : K → V → Bool) (m : Map K V) → Unique m → Unique (retain p m)
  unfolding retain
  retain-Unique p [] u = tt
  retain-Unique p ((j, v) ∷ m) u =
      ground (arith, retain-Unique p m u.1, contains-keys-retain p j m u.0)

  -- An absent key of a map stays absent, whatever the value kept.
  get-none : (k : K) (m : Map K V) → contains k (keys m) ≡ false → get k m ≡ none
  get-none k m h = ground (arith, contains-keys k m)

  pub get-retain :
      (p : K → V → Bool) (k : K) (m : Map K V)
      → Unique m
      → get k (retain p m) ≡ only_if (p k) (get k m)
  unfolding get retain
  get-retain p k [] u = refl
  get-retain p k ((j, v) ∷ m) u =
      ground (arith, get-retain p k m u.1, e.same_iff j k, get-none j m u.0)

  contains-keys-filter-false :
      (p : K × V → Bool) (k : K) (m : Map K V)
      → contains k (keys m) ≡ false
      → contains k (keys (filter p m)) ≡ false
  contains-keys-filter-false p k [] h = refl
  contains-keys-filter-false p k ((j, v) ∷ m) h = ground (arith, contains-keys-filter-false p k m)

  -- The keys of the entries that a scan keeps.
  pub contains-keys-filter :
      (p : V → Bool) (k : K) (m : Map K V)
      → Unique m
      → contains k (keys (filter (λ e. p e.1) m)) ≡ is_some_and p (get k m)
  unfolding get
  contains-keys-filter p k [] u = refl
  contains-keys-filter p k ((j, v) ∷ m) u = ground (
    arith,
    contains-keys-filter p k m u.1,
    contains-keys-filter-false (λ e. p e.1) j m u.0,
    e.same_iff j k,
  )

  pub keys-filter-Distinct :
      (p : K × V → Bool) (m : Map K V) → Unique m → Distinct (keys (filter p m))
  keys-filter-Distinct p [] u = tt
  keys-filter-Distinct p ((j, v) ∷ m) u =
      ground (arith, keys-filter-Distinct p m u.1, contains-keys-filter-false p j m u.0)
