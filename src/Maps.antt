-- ===== src/Maps.antt =====
-- Rust's `HashMap`, as an association list with one entry for each key. The order of the entries is
-- the order of iteration, which Rust leaves open.
pub mod Laws
use weave_auth.Prelude.{
  Bool, false, Option, none, some, List, [], ◌∷◌, Key, ◌==◌, if◌then◌else◌, contains, ◌≡◌, map,
}

abbrev pub Map {ℓ κ} : Type ℓ → Type κ → Type (ℓ ⊔ κ)
Map K V = List (K × V)

module _ {ℓ κ} {K : Type ℓ} {V : Type κ} where
  abbrev pub keys : Map K V → List K
  keys = map (λ e. e.0)

  -- `HashMap::retain`.
  unfoldable pub retain : (K → V → Bool) → Map K V → Map K V
  retain p [] = []
  retain p ((k, v) ∷ m) = let rest = retain p m in if p k v then (k, v) ∷ rest else rest

module _ {ℓ κ} {K : Type ℓ} {V : Type κ} ⦃e : Key K⦄ where
  -- `HashMap::get`.
  unfoldable pub get : K → Map K V → Option V
  get k [] = none
  get k ((j, v) ∷ m) = if j == k then some v else get k m

  -- `HashMap::remove`.
  unfoldable pub remove : K → Map K V → Map K V
  remove k [] = []
  remove k ((j, v) ∷ m) = let rest = remove k m in if j == k then rest else (j, v) ∷ rest

  -- `HashMap::insert`.
  unfoldable pub insert : K → V → Map K V → Map K V
  insert k v m = (k, v) ∷ remove k m

  -- One entry for each key.
  abbrev pub Unique : Map K V → Type 0
  Unique [] = Unit {0}
  Unique ((k, v) ∷ m) = (contains k (keys m) ≡ false) × Unique m
