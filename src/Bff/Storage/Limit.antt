-- ===== src/Bff/Storage/Limit.antt =====
-- `save_session` keeps a user within the limit, by ending the oldest of the user's sessions.
use mathlib.Core.Option
use weave_auth.Prelude.{
  ◌+◌, ◌-◌, ◌≤◌, String, true, false, Option, none, some, List, [], ◌∷◌, map, ◌≡◌, ◌≢◌, arith, refl,
  ap, sym, ◌∙◌, contains, length, take, filter_map, is_some, Distinct, Within, Within-contains, All,
  All-of-contains, length-map, length-take, sort_by_key, sort_by_key-IsAscending, Valued,
  sort_by-Distinct, by_key, contains-sort_by, length-sort_by, take-Distinct, taken-le-left,
  contains-take-false, All-sort_by, text_key, number_key,
}
use weave_auth.Maps.{get}
use weave_auth.Bff.Session.{UserId, SessionData, Time}
use weave_auth.Bff.Storage.{
  Sessions, ids_of, insert_session, own_sessions, excess_ids, save_session, get_session,
  max_sessions_per_user,
}
use weave_auth.Bff.Storage.Lookup.{get-remove_all, get-insert_session}
use weave_auth.Bff.Storage.Invariant.{InStep, owns, insert_session-InStep}
use weave_auth.Bff.Storage.Removal.{length-remove_all}

abbrev login_time : String × Time → Time
login_time e = e.1

abbrev id_of : String × Time → String
id_of e = e.0

abbrev created : Sessions → String → Option Time
created s id = Option.map (λ d. d.created_at) (get id s.by_id)

-- The ids with a session keep their order, and each comes with its login time.
module _ (s : Sessions) where
  abbrev timed : List String → List (String × Time)
  timed = filter_map (λ id. Option.map (λ d. (id, d.created_at)) (get id s.by_id))

  ids-timed :
      (ids : List String)
      → All (λ id. is_some (get id s.by_id) ≡ true) ids
      → map id_of (timed ids) ≡ ids
  ids-timed [] h = refl
  ids-timed (id ∷ ids) h = ground (arith, h, ids-timed ids h.1)

  timed-Valued : (ids : List String) → Valued id_of login_time (created s) (timed ids)
  timed-Valued [] = tt
  timed-Valued (id ∷ ids) = ground (arith, timed-Valued ids)

module _ (s : Sessions) (u : UserId) (h : InStep s) where
  own-ids : map id_of (own_sessions s u) ≡ ids_of s.by_user u
  unfolding own_sessions
  own-ids =
      ids-timed s (ids_of s.by_user u) (All-of-contains _ (ids_of s.by_user u) (λ id c. found id c))
    where
      found :
          (id : String) → contains id (ids_of s.by_user u) ≡ true → is_some (get id s.by_id) ≡ true
      found id c = ground (arith, c, h.owned u id)

  abbrev sorted : List (String × Time)
  sorted = sort_by_key login_time (own_sessions s u)

  contains-sorted :
      (id : String) → contains id (map id_of sorted) ≡ contains id (ids_of s.by_user u)
  contains-sorted id =
      contains-sort_by (by_key login_time) id_of id (own_sessions s u) ∙ ap (contains id) own-ids

  sorted-Distinct : Distinct (map id_of sorted)
  sorted-Distinct =
      sort_by-Distinct (by_key login_time) id_of (own_sessions s u) (rw own-ids (h.distinct u))

  sorted-Valued : Valued id_of login_time (created s) sorted
  unfolding own_sessions
  sorted-Valued = All-sort_by (by_key login_time) _ _ (timed-Valued s (ids_of s.by_user u))

  length-sorted : length sorted ≡ length (ids_of s.by_user u)
  length-sorted =
      length-sort_by (by_key login_time) (own_sessions s u)
      ∙ sym (length-map id_of (own_sessions s u))
      ∙ ap length own-ids

  excess-Distinct : Distinct (excess_ids s u)
  unfolding excess_ids
  excess-Distinct = take-Distinct id_of _ sorted sorted-Distinct

  pub excess-Within : Within (excess_ids s u) (ids_of s.by_user u)
  unfolding excess_ids
  excess-Within = All-of-contains _ _ (λ id c. ground (
    arith,
    c,
    contains-sorted id,
    contains-take-false id_of id (length (own_sessions s u) - max_sessions_per_user) sorted,
  ))

  length-excess : length (excess_ids s u) ≡ length (ids_of s.by_user u) - max_sessions_per_user
  unfolding excess_ids
  length-excess = omega (
    arith,
    length-map id_of (take (length (own_sessions s u) - max_sessions_per_user) sorted),
    length-take (length (own_sessions s u) - max_sessions_per_user) sorted,
    length-sort_by (by_key login_time) (own_sessions s u),
    length-sorted,
  )

  -- An id beyond the limit was used to log in no later than one that stays.
  excess-oldest :
      (i j : String) (x y : SessionData)
      → contains i (excess_ids s u) ≡ true
      → contains j (excess_ids s u) ≡ false
      → get i s.by_id ≡ some x
      → get j s.by_id ≡ some y
      → y.user_id ≡ u
      → x.created_at ≤ y.created_at
  unfolding excess_ids
  excess-oldest i j x y ci cj ei ej own =
      taken-le-left id_of login_time (created s) _ sorted i j x.created_at y.created_at
        (sort_by_key-IsAscending login_time _) sorted-Valued ci listed cj (ground arith)
        (ground arith)
    where
      listed : contains j (map id_of sorted) ≡ true
      listed =
          ground (arith, ej, own, contains-sorted j, h.owned u j, number_key.same_iff y.user_id u)

module _ (s : Sessions) (id : String) (d : SessionData) (h : InStep s) where
  abbrev stored : Sessions
  stored = insert_session s id d

  -- After a login the user has at most 20 sessions, and exactly the sessions beyond that ended.
  pub save_session-limit :
      (length (ids_of (save_session s id d).0.by_user d.user_id) ≤ max_sessions_per_user)
      × (length (ids_of (save_session s id d).0.by_user d.user_id)
            + (length (ids_of (insert_session s id d).by_user d.user_id) - max_sessions_per_user)
          ≡ length (ids_of (insert_session s id d).by_user d.user_id))
  unfolding save_session
  save_session-limit =
      let kept = insert_session-InStep s id h d in
      let counted =
        length-remove_all stored (excess_ids stored d.user_id) d.user_id kept
          (excess-Distinct stored d.user_id kept) (excess-Within stored d.user_id kept) in
      let many = length-excess stored d.user_id kept in
      (omega (arith, counted, many), omega (arith, counted, many))

  -- A session that the login ends was begun no later than any session of the user that stays.
  pub save_session-ends-oldest :
      (i j : String) (x y : SessionData)
      → get_session (insert_session s id d) i ≡ some x
      → get_session (save_session s id d).0 i ≡ none
      → get_session (save_session s id d).0 j ≡ some y
      → y.user_id ≡ d.user_id
      → x.created_at ≤ y.created_at
  unfolding save_session get_session
  save_session-ends-oldest i j x y before gone stays own =
      excess-oldest stored d.user_id (insert_session-InStep s id h d) i j x y
        (ground (arith, get-remove_all stored (excess_ids stored d.user_id) i))
        (ground (arith, get-remove_all stored (excess_ids stored d.user_id) j)) before
        (ground (arith, get-remove_all stored (excess_ids stored d.user_id) j)) own

  -- A login changes no other user's session.
  pub save_session-others :
      (j : String)
      → id ≢ j
      → owns d.user_id (get_session s j) ≡ false
      → get_session (save_session s id d).0 j ≡ get_session s j
  unfolding save_session get_session
  save_session-others j ne other =
      let kept = insert_session-InStep s id h d in
      ground (
        arith,
        ne,
        other,
        text_key.same_iff id j,
        get-insert_session s id j d,
        kept.owned d.user_id j,
        get-remove_all stored (excess_ids stored d.user_id) j,
        Within-contains j (excess_ids stored d.user_id) (ids_of stored.by_user d.user_id)
            (excess-Within stored d.user_id kept),
      )
