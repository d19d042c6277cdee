-- ===== src/Bff/RefreshLock/Handles.antt =====
-- Handles counted by lock and by session, through each change of the list.
use weave_auth.Prelude.{
  ◌<◌, ℕ, ◌+◌, ◌≤◌, String, true, false, Option, none, some, List, [], ◌∷◌, ◌≡◌, ◌==◌, ◌&&◌, ltb,
  if◌then◌else◌, arith, refl, length, filter, All, number_key, text_key,
}
use weave_auth.Maps.{Map, get, remove, retain, Unique}
use weave_auth.Maps.Laws.{get-remove, get-retain, remove-Unique}
use weave_auth.Bff.RefreshLock.{Handle, strong_count, is_held, give, others, forget_unused, holders}

-- A task's lock is the one that the map has for its session.
abbrev pub IsMapped : Map String ℕ → Handle → Type 0
IsMapped m h = get h.session m ≡ some h.lock

-- How many tasks hold a lock.
unfoldable pub owners : ℕ → List Handle → ℕ
owners l hs = length (filter (λ h. h.lock == l && h.holds) hs)

pub holders-le-owners :
    (m : Map String ℕ) (id : String) (l : ℕ) (hs : List Handle)
    → get id m ≡ some l
    → All (IsMapped m) hs
    → holders id hs ≤ owners l hs
unfolding holders owners
holders-le-owners m id l [] e a = omega arith
holders-le-owners m id l (h ∷ hs) e a = ground (
  arith,
  e,
  a,
  holders-le-owners m id l hs e a.1,
  text_key.same_iff h.session id,
  number_key.same_iff h.lock l,
)

pub holders_unmapped :
    (m : Map String ℕ) (id : String) (hs : List Handle)
    → get id m ≡ none
    → All (IsMapped m) hs
    → holders id hs ≡ 0
unfolding holders
holders_unmapped m id [] e a = refl
holders_unmapped m id (h ∷ hs) e a =
    ground (arith, e, a, holders_unmapped m id hs e a.1, text_key.same_iff h.session id)

-- The map may change as it likes at sessions that no handle is for.
pub IsMapped-elsewhere :
    (m m' : Map String ℕ) (hs : List Handle)
    → ((h : Handle) → get h.session m ≡ some h.lock → get h.session m' ≡ some h.lock)
    → All (IsMapped m) hs
    → All (IsMapped m') hs
IsMapped-elsewhere m m' [] f a = tt
IsMapped-elsewhere m m' (h ∷ hs) f a = (f h a.0, IsMapped-elsewhere m m' hs f a.1)

pub others-All {κ} :
    (P : Handle → Type κ) (task : ℕ) (hs : List Handle) → All P hs → All P (others task hs)
others-All P task [] a = tt
others-All P task (h ∷ hs) a = ground (arith, a, others-All P task hs a.1)

pub owners-others-le : (l task : ℕ) (hs : List Handle) → owners l (others task hs) ≤ owners l hs
unfolding owners
owners-others-le l task [] = omega arith
owners-others-le l task (h ∷ hs) = ground (arith, owners-others-le l task hs)

pub unheld-owners : (l : ℕ) (hs : List Handle) → is_held hs l ≡ false → owners l hs ≡ 0
unfolding owners
unheld-owners l [] e = refl
unheld-owners l (h ∷ hs) e = ground (arith, e, unheld-owners l hs)

pub owners-give-le :
    (l task : ℕ) (all hs : List Handle)
    → owners l (give all task hs) ≤ owners l hs + (if is_held all l then 0 else 1)
unfolding owners give
owners-give-le l task all [] = ground arith
owners-give-le l task all (h ∷ hs) =
    ground (arith, owners-give-le l task all hs, number_key.same_iff h.lock l)

pub give-IsMapped :
    (m : Map String ℕ) (task : ℕ) (all hs : List Handle)
    → All (IsMapped m) hs
    → All (IsMapped m) (give all task hs)
unfolding give
give-IsMapped m task all [] a = tt
give-IsMapped m task all (h ∷ hs) a = ground (arith, a, give-IsMapped m task all hs a.1)

forget-IsMapped :
    (m : Map String ℕ) (id : String) (l : ℕ) (hs : List Handle)
    → get id m ≡ some l
    → (strong_count hs l == 1) ≡ true
    → All (IsMapped m) hs
    → All (IsMapped (remove id m)) hs
unfolding strong_count
forget-IsMapped m id l [] e c a = tt
forget-IsMapped m id l (h ∷ hs) e c a = ground (
  arith,
  e,
  c,
  a,
  get-remove id h.session m,
  text_key.same_iff id h.session,
  number_key.same_iff h.lock l,
  forget-IsMapped m id l hs e,
)

pub forget_unused-IsMapped :
    (m : Map String ℕ) (id : String) (o : Option ℕ) (hs : List Handle)
    → get id m ≡ o
    → All (IsMapped m) hs
    → All (IsMapped (forget_unused id o hs m)) hs
unfolding forget_unused
forget_unused-IsMapped m id none hs e a = a
forget_unused-IsMapped m id (some l) hs e a = ground (arith, a, e, forget-IsMapped m id l hs e)

pub forget_unused-Unique :
    (m : Map String ℕ) (id : String) (o : Option ℕ) (hs : List Handle)
    → Unique m
    → Unique (forget_unused id o hs m)
unfolding forget_unused
forget_unused-Unique m id none hs u = u
forget_unused-Unique m id (some l) hs u = ground (arith, u, remove-Unique id m u)

strong_count-cons-le :
    (h : Handle) (hs : List Handle) (l : ℕ) → strong_count hs l ≤ strong_count (h ∷ hs) l
unfolding strong_count
strong_count-cons-le h hs l = ground arith

counted_more :
    (h : Handle) (hs ks : List Handle)
    → All (λ k. 1 < strong_count hs k.lock) ks
    → All (λ k. 1 < strong_count (h ∷ hs) k.lock) ks
counted_more h hs [] a = tt
counted_more h hs (k ∷ ks) a =
    (omega (arith, a.0, strong_count-cons-le h hs k.lock), counted_more h hs ks a.1)

-- Each handle is counted.
pub All-counted : (hs : List Handle) → All (λ k. 1 < strong_count hs k.lock) hs
All-counted [] = tt
All-counted (h ∷ hs) = (
  unfold strong_count in ground (arith, number_key.same_iff h.lock h.lock),
  counted_more h hs hs (All-counted hs),
)

pub prune-IsMapped :
    (m : Map String ℕ) (all hs : List Handle)
    → Unique m
    → All (λ k. 1 < strong_count all k.lock) hs
    → All (IsMapped m) hs
    → All (IsMapped (retain (λ _ l. ltb 1 (strong_count all l)) m)) hs
prune-IsMapped m all [] u c a = tt
prune-IsMapped m all (h ∷ hs) u c a = (
  ground (arith, c, a, get-retain (λ _ l. ltb 1 (strong_count all l)) h.session m u),
  prune-IsMapped m all hs u c.1 a.1,
)
