-- ===== src/Bff/Storage.antt =====
-- bff/src/storage/in_memory.rs, `Sessions` and `InMemorySessionStorage`. Each method runs under the
-- store's one lock, so it is a function from the store to the store and its answer.
use weave_auth.Prelude.{
  ℕ, ◌-◌, String, Bool, not, Option, none, some, List, [], ◌∷◌, ◌++◌, map, ◌==◌, leb, if◌then◌else◌,
  is_some_and, is_some, unwrap_or, without, length, take, filter, filter_map, sort_by_key,
  number_key, text_key,
}
pub mod Lookup
pub mod Index
pub mod Invariant
pub mod Removal
pub mod Limit
pub mod Ending
pub mod Refinement
mod Tests
use mathlib.Core.Option
use weave_auth.Maps.{Map, get, insert, remove, keys}
use weave_auth.Bff.Session.{
  Time, UserId, SessionData, SessionSelector, user, user_session, session, matches, ends_at,
}

abbrev pub max_sessions_per_user : ℕ
max_sessions_per_user = 20

pub record Sessions : Type 0 where
  pub by_id : Map String SessionData
  pub by_user : Map UserId (List String)

abbrev pub no_sessions : Sessions
no_sessions = record { by_id = []; by_user = [] }

-- The session ids that the index has for a user.
unfoldable pub ids_of : Map UserId (List String) → UserId → List String
ids_of by_user u = unwrap_or [] (get u by_user)

-- An entry that has become empty is removed.
unfoldable pub put_ids : UserId → List String → Map UserId (List String) → Map UserId (List String)
put_ids u [] by_user = remove u by_user
put_ids u (id ∷ ids) by_user = insert u (id ∷ ids) by_user

unfoldable pub unindex_ids :
    String → UserId → Option (List String) → Map UserId (List String) → Map UserId (List String)
unindex_ids id u none by_user = by_user
unindex_ids id u (some ids) by_user = put_ids u (without id ids) by_user

unfoldable pub unindex : String → UserId → Map UserId (List String) → Map UserId (List String)
unindex id u by_user = unindex_ids id u (get u by_user) by_user

-- A session that was replaced leaves the index of the user that it had.
unfoldable pub unindex_replaced :
    String → Option SessionData → Map UserId (List String) → Map UserId (List String)
unindex_replaced id none by_user = by_user
unindex_replaced id (some replaced) by_user = unindex id replaced.user_id by_user

unfoldable pub index_id : String → UserId → Map UserId (List String) → Map UserId (List String)
index_id id u by_user = insert u (ids_of by_user u ++ id ∷ []) by_user

unfoldable pub insert_session : Sessions → String → SessionData → Sessions
insert_session s id d = record {
  by_id = insert id d s.by_id;
  by_user = index_id id d.user_id (unindex_replaced id (get id s.by_id) s.by_user);
}

unfoldable pub drop_found : Sessions → String → Option SessionData → Sessions × Option SessionData
drop_found s id none = (s, none)
drop_found s id (some d) =
    (record { by_id = remove id s.by_id; by_user = unindex id d.user_id s.by_user }, some d)

unfoldable pub remove_session : Sessions → String → Sessions × Option SessionData
remove_session s id = drop_found s id (get id s.by_id)

abbrev found_first : Option SessionData → List SessionData → List SessionData
found_first none ds = ds
found_first (some d) ds = d ∷ ds

unfoldable pub remove_all : Sessions → List String → Sessions × List SessionData
remove_all s [] = (s, [])
remove_all s (id ∷ ids) =
    let (s', found) = remove_session s id in
    let (s'', ds) = remove_all s' ids in (s'', found_first found ds)

-- The ids of a user's sessions, each with its login time.
unfoldable pub own_sessions : Sessions → UserId → List (String × Time)
own_sessions s u =
    filter_map (λ id. Option.map (λ d. (id, d.created_at)) (get id s.by_id)) (ids_of s.by_user u)

-- The ids of the user's sessions beyond the limit, oldest first.
unfoldable pub excess_ids : Sessions → UserId → List String
excess_ids s u =
    let own = own_sessions s u in
    map (λ e. e.0) (take (length own - max_sessions_per_user) (sort_by_key (λ e. e.1) own))

unfoldable pub save_session : Sessions → String → SessionData → Sessions × List SessionData
save_session s id d = let s' = insert_session s id d in remove_all s' (excess_ids s' d.user_id)

unfoldable pub get_session : Sessions → String → Option SessionData
get_session s id = get id s.by_id

pub data Updated : Type 0 where
  updated session_gone : Updated

unfoldable pub update_session : Sessions → String → SessionData → Sessions × Updated
update_session s id d =
    if is_some (get id s.by_id)
    then (insert_session (remove_session s id).0 id d, updated)
    else (s, session_gone)

unfoldable pub take_session : Sessions → String → Sessions × Option SessionData
take_session s id = remove_session s id

-- The entries that `matches` selects, by a scan of the whole store.
unfoldable pub matching_ids : (SessionData → Bool) → Sessions → List String
matching_ids p s = keys (filter (λ e. p e.1) s.by_id)

-- The ids that `matches` selects among one user's, through the index.
unfoldable pub user_matching_ids : (SessionData → Bool) → Sessions → UserId → List String
user_matching_ids p s u = filter (λ id. is_some_and p (get id s.by_id)) (ids_of s.by_user u)

unfoldable pub selected_ids : SessionSelector → Sessions → List String
selected_ids (user u) s = user_matching_ids (matches (user u)) s u
selected_ids (user_session u sid) s = user_matching_ids (matches (user_session u sid)) s u
selected_ids (session sid) s = matching_ids (matches (session sid)) s

unfoldable pub revoke : Sessions → SessionSelector → Sessions × List SessionData
revoke s selector = remove_all s (selected_ids selector s)

unfoldable pub sweep_expired : Sessions → Time → Sessions
sweep_expired s now = (remove_all s (matching_ids (λ d. leb (ends_at d) now) s)).0
