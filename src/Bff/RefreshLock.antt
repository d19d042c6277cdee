-- ===== src/Bff/RefreshLock.antt =====
-- bff/src/server/refresh_lock.rs: one lock for each session that is being refreshed. The tasks
-- that share the map run interleaved: an event is one atomic step of one of them. A handle stands
-- for a task's `Arc` of a lock: the future of `lock_owned` while it waits, then the guard. Which
-- waiter gets a free lock is left to the events.
pub mod Handles
pub mod Exclusion
mod Tests
use weave_auth.Prelude.{
  ℕ, suc, ◌+◌, String, Bool, true, false, not, Option, none, some, List, [], ◌∷◌, ◌==◌, ◌&&◌, ltb,
  if◌then◌else◌, length, filter, any, number_key, text_key, zero,
}
use weave_auth.Maps.{Map, get, insert, remove, retain}

-- A lock is named by a number, for the address of its `Arc`.
pub record Handle : Type 0 where
  pub task : ℕ
  pub session : String
  pub lock : ℕ
  pub holds : Bool

pub record RefreshLocks : Type 0 where
  pub locks : Map String ℕ
  pub handles : List Handle
  pub next_lock : ℕ
  pub next_task : ℕ

abbrev pub no_locks : RefreshLocks
no_locks = record { locks = []; handles = []; next_lock = 0; next_task = 0 }

-- `Arc::strong_count`: the map's own, and one for each handle.
unfoldable pub strong_count : List Handle → ℕ → ℕ
strong_count hs l = suc (length (filter (λ h. h.lock == l) hs))

-- `acquire` up to its `await`: `entry(..).or_default().clone()`.
unfoldable pub waiting : RefreshLocks → String → ℕ → Handle
waiting s id l = record { task = s.next_task; session = id; lock = l; holds = false }

unfoldable pub ask_for : RefreshLocks → String → Option ℕ → RefreshLocks
ask_for s id none = record {
  locks = insert id s.next_lock s.locks;
  handles = waiting s id s.next_lock ∷ s.handles;
  next_lock = suc s.next_lock;
  next_task = suc s.next_task;
}
ask_for s id (some l) = record s {
  handles = waiting s id l ∷ s.handles;
  next_task = suc s.next_task;
}

unfoldable pub ask : RefreshLocks → String → RefreshLocks
ask s id = ask_for s id (get id s.locks)

abbrev pub is_held : List Handle → ℕ → Bool
is_held hs l = any (λ h. h.lock == l && h.holds) hs

-- The mutex gives the lock to a task that waits for it, if no task holds it.
unfoldable pub give : List Handle → ℕ → List Handle → List Handle
give all task [] = []
give all task (h ∷ hs) =
    if h.task == task
    then (if is_held all h.lock then h else record h { holds = true }) ∷ hs
    else h ∷ give all task hs

unfoldable pub grant : RefreshLocks → ℕ → RefreshLocks
grant s task = record s { handles = give s.handles task s.handles }

abbrev pub others : ℕ → List Handle → List Handle
others task = filter (λ h. not (h.task == task))

abbrev pub find_task : ℕ → List Handle → Option Handle
find_task task [] = none
find_task task (h ∷ hs) = if h.task == task then some h else find_task task hs

unfoldable pub forget_unused : String → Option ℕ → List Handle → Map String ℕ → Map String ℕ
forget_unused id none hs m = m
forget_unused id (some l) hs m = if strong_count hs l == 1 then remove id m else m

-- `Drop for RefreshGuard`: the handle goes first, then the map's lock if it is the only one left.
-- A task that is cancelled while it waits drops its handle and nothing more.
unfoldable pub drop_handle : RefreshLocks → ℕ → Option Handle → RefreshLocks
drop_handle s task none = s
drop_handle s task (some h) =
    let left = others task s.handles in
    if h.holds
    then record s {
      handles = left;
      locks = forget_unused h.session (get h.session s.locks) left s.locks;
    }
    else record s { handles = left }

unfoldable pub drop : RefreshLocks → ℕ → RefreshLocks
drop s task = drop_handle s task (find_task task s.handles)

unfoldable pub prune : RefreshLocks → RefreshLocks
prune s = record s { locks = retain (λ _ l. ltb 1 (strong_count s.handles l)) s.locks }

pub data Event : Type 0 where
  asks : String → Event
  granted dropped : ℕ → Event
  pruned : Event

unfoldable pub step : RefreshLocks → Event → RefreshLocks
step s (asks id) = ask s id
step s (granted task) = grant s task
step s (dropped task) = drop s task
step s pruned = prune s

unfoldable pub run : RefreshLocks → List Event → RefreshLocks
run s [] = s
run s (e ∷ es) = run (step s e) es

-- The tasks that hold a session's turn.
unfoldable pub holders : String → List Handle → ℕ
holders id hs = length (filter (λ h. h.session == id && h.holds) hs)
