-- ===== src/Bff/RefreshLock/Tests.antt =====
-- Interleavings of tasks that refresh sessions.
use weave_auth.Prelude.{◌≤◌, ◌≡◌, refl, List, [], ◌∷◌, text_key, none, some}
use weave_auth.Maps.{get, insert, remove, retain}
use weave_auth.Bff.RefreshLock.{
  Event, asks, granted, dropped, pruned, no_locks, run, step, ask, ask_for, waiting, grant, give,
  drop, drop_handle, forget_unused, prune, strong_count, holders,
}
use weave_auth.Bff.RefreshLock.Exclusion.{holders-le-one}

-- Two tasks ask for one session's turn, both would take it, and the first finishes.
abbrev contention : List Event
contention =
    asks "s"
    ∷ asks "s"
    ∷ granted 0
    ∷ granted 1
    ∷ pruned
    ∷ dropped 0
    ∷ granted 1
    ∷ asks "s"
    ∷ granted 2
    ∷ []

holders-le-one_example : holders "s" (run no_locks contention).handles ≤ 1
holders-le-one_example = holders-le-one contention "s"

-- The lock stays while a task waits for it, and is forgotten with the last one.
kept_then_forgotten :
    (holders "s" (run no_locks contention).handles ≡ 1)
    × (get "s" (run no_locks contention).locks ≡ some 0)
    × (get "s" (run (run no_locks contention) (dropped 2 ∷ dropped 1 ∷ [])).locks ≡ none)
unfolding run step ask ask_for waiting grant give drop drop_handle forget_unused prune strong_count
    holders get insert remove retain
kept_then_forgotten = (refl, refl, refl)
