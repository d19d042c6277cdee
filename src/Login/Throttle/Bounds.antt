-- ===== src/Login/Throttle/Bounds.antt =====
-- The throttle's memory is bounded.
use weave_auth.Prelude.{
  ◌-◌, ltb, inr, inl, leb, Option-cases, Bool-cases, some, ℕ, suc, ◌+◌, ◌≤◌, ◌≡◌, false, List, [],
  ◌∷◌, arith, if◌then◌else◌, length, take, contains, Distinct, Within, All-of-contains, length-map,
  length-take, sort_by, length-sort_by, sort_by-Distinct, contains-sort_by, take-Distinct,
  contains-take-false, number_key,
}
use weave_auth.Maps.{insert, remove, keys, Unique}
use weave_auth.Maps.Laws.{
  length-retain-le, contains-keys, insert-Unique, retain-Unique, contains-keys-remove,
  remove-Unique, length-remove-le,
}
use weave_auth.Login.Throttle.{
  failed, succeeded, not_an_attempt, forget_after, Outcome, admit_found, give_back, admit, get,
  settle, Instant, track, sweep, Digest, Entry, Entries, max_tracked, ranks_before, remove_keys,
  batch, evict,
}

-- Entries have distinct keys, and there are at most `max_tracked`.
pub record IsBounded (m : Entries) : Type 0 where
  pub unique : Unique m
  few : length m ≤ max_tracked

length-remove :
    (k : Digest) (m : Entries)
    → Unique m
    → length (remove k m) + (if contains k (keys m) then 1 else 0) ≡ length m
unfolding remove
length-remove k [] u = omega arith
length-remove k ((j, v) ∷ m) u = ground (arith, length-remove k m u.1, u.0, number_key.same_iff j k)

Within-remove :
    (k : Digest) (ks : List Digest) (m : Entries)
    → contains k ks ≡ false
    → Within ks (keys m)
    → Within ks (keys (remove k m))
Within-remove k [] m h w = tt
Within-remove k (j ∷ ks) m h w = ground (
  arith,
  h,
  w,
  Within-remove k ks m,
  contains-keys-remove k j m,
  number_key.same_iff k j,
  number_key.same_iff j k,
)

remove_keys-Unique : (ks : List Digest) (m : Entries) → Unique m → Unique (remove_keys ks m)
unfolding remove_keys
remove_keys-Unique [] m u = u
remove_keys-Unique (k ∷ ks) m u = remove_keys-Unique ks (remove k m) (remove-Unique k m u)

length-remove_keys :
    (ks : List Digest) (m : Entries)
    → Unique m
    → Distinct ks
    → Within ks (keys m)
    → length (remove_keys ks m) + length ks ≡ length m
unfolding remove_keys
length-remove_keys [] m u d w = omega arith
length-remove_keys (k ∷ ks) m u d w =
    let rest =
      length-remove_keys ks (remove k m) (remove-Unique k m u) d.1 (Within-remove k ks m d.0 w.1) in
    ground (arith, rest, w.0, length-remove k m u)

Unique-Distinct : (m : Entries) → Unique m → Distinct (keys m)
Unique-Distinct [] u = tt
Unique-Distinct ((k, v) ∷ m) u = (u.0, Unique-Distinct m u.1)

module _ (m : Entries) (u : Unique m) where
  abbrev ranked : Entries
  ranked = sort_by ranks_before m

  first-Within : (n : ℕ) → Within (keys (take n ranked)) (keys m)
  first-Within n = All-of-contains _ (keys (take n ranked)) (λ k c. ground (
    arith,
    c,
    contains-take-false (λ e. e.0) k n ranked,
    contains-sort_by ranks_before (λ e. e.0) k m,
  ))

  length-evict : length (evict m) + batch m ≡ length m
  unfolding evict
  length-evict = omega (
    arith,
    length-remove_keys (keys (take (batch m) ranked)) m u
        (take-Distinct (λ e. e.0) (batch m) ranked
          (sort_by-Distinct ranks_before (λ e. e.0) m (Unique-Distinct m u)))
        (first-Within (batch m)),
    length-map (λ (e : Digest × Entry). e.0) (take (batch m) ranked),
    length-take (batch m) ranked,
    length-sort_by ranks_before m,
  )

evict-Unique : (m : Entries) → Unique m → Unique (evict m)
unfolding evict
evict-Unique m u = remove_keys-Unique _ m u

length-insert-le : (k : Digest) (e : Entry) (m : Entries) → length (insert k e m) ≤ suc (length m)
unfolding insert
length-insert-le k e m = omega (arith, length-remove-le k m)

track-IsBounded :
    (m : Entries) (key : Digest) (now : Instant) → IsBounded m → IsBounded (track m key now)
unfolding track
track-IsBounded m key now b = elim (Bool-cases (leb max_tracked (length m))) [
  | inl full ↦ rw full (record {
    unique = insert-Unique key _ (evict m) (evict-Unique m b.unique);
    few = ground (
      arith,
      full,
      length-insert-le key (record { attempts = 1; last_attempt = now }) (evict m),
      length-evict m b.unique,
    );
  })
  | inr room ↦ rw room (record {
    unique = insert-Unique key _ m b.unique;
    few =
        ground (arith, room, length-insert-le key (record { attempts = 1; last_attempt = now }) m);
  })
]

-- A new value under a key that is there keeps the number of entries.
replace-IsBounded :
    (m : Entries) (key : Digest) (old new : Entry)
    → get key m ≡ some old
    → IsBounded m
    → IsBounded (insert key new m)
replace-IsBounded m key old new e b = record {
  unique = insert-Unique key new m b.unique;
  few =
      unfold insert in ground (arith, e, b.few, length-remove key m b.unique, contains-keys key m);
}

remove-IsBounded : (m : Entries) (key : Digest) → IsBounded m → IsBounded (remove key m)
remove-IsBounded m key b = record {
  unique = remove-Unique key m b.unique;
  few = omega (arith, b.few, length-remove-le key m);
}

sweep-IsBounded : (m : Entries) (now : Instant) → IsBounded m → IsBounded (sweep m now)
sweep-IsBounded m now b = record {
  unique = unfold sweep in retain-Unique _ m b.unique;
  few =
      unfold sweep in
      omega (arith, b.few, length-retain-le (λ _ e. ltb now (e.last_attempt + forget_after)) m);
}

admit-IsBounded :
    (m : Entries) (key : Digest) (now : Instant) → IsBounded m → IsBounded (admit m key now).0
unfolding admit admit_found
admit-IsBounded m key now b = elim (Option-cases (get key m)) [
  | inl e ↦ rw (e, admit_found) (track-IsBounded m key now b)
  | inr (old, e) ↦
      rw (e, admit_found)
        (ground (
          arith,
          b,
          track-IsBounded m key now b,
          replace-IsBounded m key old (record { attempts = old.attempts + 1; last_attempt = now }) e
              b,
        ))
]

settle-IsBounded :
    (m : Entries) (key : Digest) (o : Outcome) → IsBounded m → IsBounded (settle m key o)
unfolding settle give_back
settle-IsBounded m key failed b = b
settle-IsBounded m key succeeded b = remove-IsBounded m key b
settle-IsBounded m key not_an_attempt b = elim (Option-cases (get key m)) [
  | inl e ↦ rw (e, give_back) b
  | inr (old, e) ↦
      rw (e, give_back)
        (ground (
          arith,
          remove-IsBounded m key b,
          replace-IsBounded m key old (record old { attempts = old.attempts - 1 }) e b,
        ))
]

pub data Call : Type 0 where
  admits : Digest → Instant → Call
  settles : Digest → Outcome → Call
  sweeps : Instant → Call

unfoldable pub after : Entries → List Call → Entries
after m [] = m
after m (admits key now ∷ cs) = after (admit m key now).0 cs
after m (settles key o ∷ cs) = after (settle m key o) cs
after m (sweeps now ∷ cs) = after (sweep m now) cs

after-IsBounded : (m : Entries) (cs : List Call) → IsBounded m → IsBounded (after m cs)
unfolding after
after-IsBounded m [] b = b
after-IsBounded m (admits key now ∷ cs) b =
    after-IsBounded (admit m key now).0 cs (admit-IsBounded m key now b)
after-IsBounded m (settles key o ∷ cs) b =
    after-IsBounded (settle m key o) cs (settle-IsBounded m key o b)
after-IsBounded m (sweeps now ∷ cs) b = after-IsBounded (sweep m now) cs (sweep-IsBounded m now b)

-- Whatever is submitted, settled and swept, at most 100000 identifiers are tracked, each once.
pub tracked-IsBounded : (cs : List Call) → IsBounded (after [] cs)
tracked-IsBounded cs = after-IsBounded [] cs (record { unique = tt; few = omega arith })
