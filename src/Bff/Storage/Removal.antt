-- ===== src/Bff/Storage/Removal.antt =====
-- What removing a list of ids leaves of the index, and what it hands back.
use weave_auth.Prelude.{
  ◌+◌, String, false, Option, none, List, [], ◌∷◌, ◌≡◌, refl, arith, ◌==◌, if◌then◌else◌, contains,
  without, without_absent, length, length-without, Distinct, Within, Within-without, filter_map,
  Option-cases, inl, inr, text_key, number_key,
}
use weave_auth.Maps.{get}
use weave_auth.Bff.Session.{UserId, SessionData}
use weave_auth.Bff.Storage.{Sessions, ids_of, remove_session, drop_found, remove_all}
use weave_auth.Bff.Storage.Lookup.{found-remove_session, get-remove_session}
use weave_auth.Bff.Storage.Index.{ids_of-unindex}
use weave_auth.Bff.Storage.Invariant.{InStep, remove_session-InStep}

ids_of-remove_session :
    (s : Sessions) (id : String) (u : UserId)
    → InStep s
    → ids_of (remove_session s id).0.by_user u ≡ without id (ids_of s.by_user u)
unfolding remove_session drop_found
ids_of-remove_session s id u h = elim (Option-cases (get id s.by_id)) [
  | inl e ↦ ground (arith, h.owned u id, without_absent id (ids_of s.by_user u))
  | inr (d, e) ↦ ground (
    arith,
    h.owned u id,
    without_absent id (ids_of s.by_user u),
    ids_of-unindex id d.user_id u s.by_user,
    number_key.same_iff d.user_id u,
  )
]

-- Ids of one user, each named once, leave that user's list by as many.
pub length-remove_all :
    (s : Sessions) (ids : List String) (u : UserId)
    → InStep s
    → Distinct ids
    → Within ids (ids_of s.by_user u)
    → length (ids_of (remove_all s ids).0.by_user u) + length ids ≡ length (ids_of s.by_user u)
unfolding remove_all
length-remove_all s [] u h d w = ground arith
length-remove_all s (id ∷ ids) u h d w =
    let s' = (remove_session s id).0 in
    let own = ids_of s.by_user u in
    let left = ids_of-remove_session s id u h in
    let rest =
      length-remove_all s' ids u (remove_session-InStep s id h) d.1
        (rw left (Within-without id ids own d.0 w.1)) in
    ground (arith, rest, left, length-without id own (h.distinct u), w.0)

filter_map-skip :
    (f g : String → Option SessionData) (id : String) (ids : List String)
    → contains id ids ≡ false
    → ((j : String) → g j ≡ (if id == j then none else f j))
    → filter_map g ids ≡ filter_map f ids
filter_map-skip f g id [] c h = refl
filter_map-skip f g id (j ∷ ids) c h =
    ground (arith, h j, filter_map-skip f g id ids, text_key.same_iff id j, text_key.same_iff j id)

-- What is handed back is what the store held under the ids, in their order.
pub found-remove_all :
    (s : Sessions) (ids : List String)
    → Distinct ids
    → (remove_all s ids).1 ≡ filter_map (λ id. get id s.by_id) ids
unfolding remove_all
found-remove_all s [] d = refl
found-remove_all s (id ∷ ids) d =
    let s' = (remove_session s id).0 in
    ground (
      arith,
      found-remove_session s id,
      found-remove_all s' ids d.1,
      filter_map-skip (λ j. get j s.by_id) (λ j. get j s'.by_id) id ids d.0
          (get-remove_session s id),
    )
