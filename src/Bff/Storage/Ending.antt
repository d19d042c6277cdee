-- ===== src/Bff/Storage/Ending.antt =====
-- What `update_session`, `take_session`, `revoke` and `sweep_expired` do to each session.
use weave_auth.Prelude.{
  String, not, none, some, List, ◌≡◌, arith, ◌==◌, ◌&&◌, leb, if◌then◌else◌, contains,
  contains-filter, filter-Distinct, filter_map, is_some, is_some_and, only_if, Distinct, text_key,
  number_key,
}
use weave_auth.Maps.{get}
use weave_auth.Maps.Laws.{contains-keys-filter, keys-filter-Distinct}
use weave_auth.Bff.Session.{
  SessionData, SessionSelector, user, user_session, session, matches, ends_at, Time,
}
use weave_auth.Bff.Storage.{
  Sessions, updated, session_gone, ids_of, get_session, update_session, take_session, revoke,
  sweep_expired, selected_ids, matching_ids, user_matching_ids, remove_session,
}
use weave_auth.Bff.Storage.Lookup.{
  get-insert_session, get-remove_session, found-remove_session, get-remove_all,
}
use weave_auth.Bff.Storage.Invariant.{InStep}
use weave_auth.Bff.Storage.Removal.{found-remove_all}

-- `update_session` replaces a session that is there, and says so; it brings none back.
pub update_session_lem :
    (s : Sessions) (id j : String) (d : SessionData)
    → (get_session (update_session s id d).0 j
        ≡ (if (id == j) && is_some (get_session s id) then some d else get_session s j))
      × ((update_session s id d).1 ≡ (if is_some (get_session s id) then updated else session_gone))
unfolding update_session get_session
update_session_lem s id j d =
    ground (arith, get-insert_session (remove_session s id).0 id j d, get-remove_session s id j)

-- `take_session` hands the session back, drops it and touches no other.
pub take_session_lem :
    (s : Sessions) (id j : String)
    → ((take_session s id).1 ≡ get_session s id)
      × (get_session (take_session s id).0 j ≡ (if id == j then none else get_session s j))
unfolding take_session get_session
take_session_lem s id j = (found-remove_session s id, get-remove_session s id j)

module _ (s : Sessions) (h : InStep s) where
  contains-selected :
      (selector : SessionSelector) (j : String)
      → contains j (selected_ids selector s) ≡ is_some_and (matches selector) (get j s.by_id)
  unfolding selected_ids user_matching_ids matching_ids matches
  contains-selected (user u) j = ground (
    arith,
    h.owned u j,
    contains-filter (λ id. is_some_and (matches (user u)) (get id s.by_id)) j (ids_of s.by_user u),
  )
  contains-selected (user_session u sid) j = ground (
    arith,
    h.owned u j,
    contains-filter (λ id. is_some_and (matches (user_session u sid)) (get id s.by_id)) j
        (ids_of s.by_user u),
  )
  contains-selected (session sid) j =
      contains-keys-filter (matches (session sid)) j s.by_id h.unique

  selected-Distinct : (selector : SessionSelector) → Distinct (selected_ids selector s)
  unfolding selected_ids user_matching_ids matching_ids
  selected-Distinct (user u) = filter-Distinct _ _ (h.distinct u)
  selected-Distinct (user_session u sid) = filter-Distinct _ _ (h.distinct u)
  selected-Distinct (session sid) = keys-filter-Distinct _ s.by_id h.unique

  -- On a store whose index is in step, `revoke` drops exactly the sessions that the selector matches.
  pub get_session-revoke :
      (selector : SessionSelector) (j : String)
      → get_session (revoke s selector).0 j
        ≡ only_if (λ d. not (matches selector d)) (get_session s j)
  unfolding revoke get_session
  get_session-revoke selector j =
      ground (arith, get-remove_all s (selected_ids selector s) j, contains-selected selector j)

  -- On a store whose index is in step, `revoke` hands back exactly the sessions that the selector
  -- matches, each once.
  pub revoke-hands-back :
      (selector : SessionSelector)
      → (ids : List String) × Distinct ids
        × ((j : String) → contains j ids ≡ is_some_and (matches selector) (get_session s j))
        × ((revoke s selector).1 ≡ filter_map (get_session s) ids)
  unfolding revoke get_session
  revoke-hands-back selector = (
    selected_ids selector s,
    selected-Distinct selector,
    contains-selected selector,
    found-remove_all s (selected_ids selector s) (selected-Distinct selector),
  )

  -- On a store whose index is in step, the sweep drops exactly the sessions whose end has come.
  pub get_session-sweep_expired :
      (now : Time) (j : String)
      → get_session (sweep_expired s now) j
        ≡ only_if (λ d. not (leb (ends_at d) now)) (get_session s j)
  unfolding sweep_expired get_session matching_ids
  get_session-sweep_expired now j = ground (
    arith,
    get-remove_all s (matching_ids (λ d. leb (ends_at d) now) s) j,
    contains-keys-filter (λ d. leb (ends_at d) now) j s.by_id h.unique,
  )
