-- ===== src/Bff/RefreshLock/Exclusion.antt =====
-- At most one task at a time has a session's turn.
use weave_auth.Prelude.{
  ℕ, ◌≤◌, String, List, [], ◌∷◌, arith, refl, All, number_key, text_key, Option-cases, Bool-cases,
  inl, inr,
}
use weave_auth.Maps.{get, Unique}
use weave_auth.Maps.Laws.{get-insert, insert-Unique, retain-Unique}
use weave_auth.Bff.RefreshLock.{
  RefreshLocks, no_locks, waiting, ask_for, ask, grant, others, find_task, drop_handle, drop, prune,
  Event, asks, granted, dropped, pruned, step, run, holders,
}
use weave_auth.Bff.RefreshLock.Handles.{
  IsMapped, owners, holders-le-owners, holders_unmapped, IsMapped-elsewhere, others-All,
  owners-others-le, unheld-owners, owners-give-le, give-IsMapped, forget_unused-IsMapped,
  forget_unused-Unique, All-counted, prune-IsMapped,
}

record IsSound (s : RefreshLocks) : Type 0 where
  unique : Unique s.locks
  mapped : All (IsMapped s.locks) s.handles
  alone : (l : ℕ) → owners l s.handles ≤ 1

ask-IsSound : (s : RefreshLocks) (id : String) → IsSound s → IsSound (ask s id)
unfolding ask ask_for waiting owners
ask-IsSound s id v = elim (Option-cases (get id s.locks)) [
  | inl e ↦
      rw (e, ask_for)
        (record {
          unique = insert-Unique id s.next_lock s.locks v.unique;
          mapped = (
            ground (arith, get-insert id id s.next_lock s.locks, text_key.same_iff id id),
            IsMapped-elsewhere s.locks _ s.handles
                (λ h p. ground (
                  arith,
                  p,
                  e,
                  get-insert id h.session s.next_lock s.locks,
                  text_key.same_iff id h.session,
                ))
                v.mapped,
          );
          alone = λ l. ground (arith, v.alone l);
        })
  | inr (l, e) ↦
      rw (e, ask_for)
        (record {
          unique = v.unique;
          mapped = (e, v.mapped);
          alone = λ k. ground (arith, v.alone k);
        })
]

grant-IsSound : (s : RefreshLocks) (task : ℕ) → IsSound s → IsSound (grant s task)
unfolding grant
grant-IsSound s task v = record {
  unique = v.unique;
  mapped = give-IsMapped s.locks task s.handles s.handles v.mapped;
  alone = λ l.
      ground
        (arith, v.alone l, unheld-owners l s.handles, owners-give-le l task s.handles s.handles);
}

drop-IsSound : (s : RefreshLocks) (task : ℕ) → IsSound s → IsSound (drop s task)
unfolding drop drop_handle
drop-IsSound s task v = elim (Option-cases (find_task task s.handles)) [
  | inl e ↦ rw (e, drop_handle) v
  | inr (h, e) ↦
      let left = others task s.handles in
      let kept = others-All (IsMapped s.locks) task s.handles v.mapped in
      let fewer = λ (l : ℕ). owners-others-le l task s.handles in
      rw (e, drop_handle)
        (elim (Bool-cases h.holds) [
          | inl held ↦ rw held (record {
            unique = forget_unused-Unique s.locks h.session _ left v.unique;
            mapped = forget_unused-IsMapped s.locks h.session _ left refl kept;
            alone = λ l. omega (arith, fewer l, v.alone l);
          })
          | inr waits ↦ rw waits (record {
            unique = v.unique;
            mapped = kept;
            alone = λ l. omega (arith, fewer l, v.alone l);
          })
        ])
]

prune-IsSound : (s : RefreshLocks) → IsSound s → IsSound (prune s)
unfolding prune
prune-IsSound s v = record {
  unique = retain-Unique _ s.locks v.unique;
  mapped = prune-IsMapped s.locks s.handles s.handles v.unique (All-counted s.handles) v.mapped;
  alone = v.alone;
}

step-IsSound : (s : RefreshLocks) (e : Event) → IsSound s → IsSound (step s e)
unfolding step
step-IsSound s (asks id) v = ask-IsSound s id v
step-IsSound s (granted task) v = grant-IsSound s task v
step-IsSound s (dropped task) v = drop-IsSound s task v
step-IsSound s pruned v = prune-IsSound s v

run-IsSound : (s : RefreshLocks) (es : List Event) → IsSound s → IsSound (run s es)
unfolding run
run-IsSound s [] v = v
run-IsSound s (e ∷ es) v = run-IsSound (step s e) es (step-IsSound s e v)

no_locks-IsSound : IsSound no_locks
unfolding owners
no_locks-IsSound = record { unique = tt; mapped = tt; alone = λ l. omega arith }

reachable-IsSound : (es : List Event) → IsSound (run no_locks es)
reachable-IsSound es = run-IsSound no_locks es no_locks-IsSound

-- However the tasks' steps interleave (asking, getting a lock, finishing, being cancelled, and the
-- periodic pruning), no two tasks ever hold the turn of one session.
pub holders-le-one : (es : List Event) (id : String) → holders id (run no_locks es).handles ≤ 1
holders-le-one es id =
    let s = run no_locks es in
    let v = reachable-IsSound es in
    elim (Option-cases (get id s.locks)) [
      | inl e ↦ omega (arith, holders_unmapped s.locks id s.handles e v.mapped)
      | inr (l, e) ↦ omega (arith, holders-le-owners s.locks id l s.handles e v.mapped, v.alone l)
    ]
