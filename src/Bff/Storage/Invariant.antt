-- ===== src/Bff/Storage/Invariant.antt =====
-- The index is kept in step with the sessions by every method.
use weave_auth.Prelude.{
  String, Bool, false, Option, none, some, List, [], ◌∷◌, ◌≡◌, refl, arith, ◌==◌, if◌then◌else◌,
  contains, contains-append, contains-without, without-Distinct, append-Distinct, Distinct,
  Option-cases, inl, inr, text_key, number_key,
}
use weave_auth.Maps.{Unique, get, remove}
use weave_auth.Maps.Laws.{get-insert, get-remove, insert-Unique, remove-Unique}
use weave_auth.Bff.Session.{UserId, SessionData, SessionSelector, Time}
use weave_auth.Bff.Storage.{
  Sessions, no_sessions, ids_of, unindex_replaced, unindex, insert_session, drop_found,
  remove_session, remove_all, save_session, update_session, take_session, revoke, sweep_expired,
}
use weave_auth.Bff.Storage.Index.{
  IsPopulated, ids_of-unindex, unindex-IsPopulated, ids_of-index_id, index_id-IsPopulated,
}

-- Whether a session, if there is one, is the user's.
abbrev pub owns : UserId → Option SessionData → Bool
owns u none = false
owns u (some d) = d.user_id == u

-- The store holds one session for each id, and the index lists, for each user, the ids of exactly
-- the user's sessions, each once; it has no entry for a user with none.
pub record InStep (s : Sessions) : Type 0 where
  pub unique : Unique s.by_id
  pub owned :
      (u : UserId) (id : String) → contains id (ids_of s.by_user u) ≡ owns u (get id s.by_id)
  pub distinct : (u : UserId) → Distinct (ids_of s.by_user u)
  pub populated : IsPopulated s.by_user

module _ (s : Sessions) (id : String) (h : InStep s) where
  -- The index once a replaced session has left it.
  replaced_contains :
      (u : UserId) (j : String)
      → contains j (ids_of (unindex_replaced id (get id s.by_id) s.by_user) u)
        ≡ (if id == j then false else contains j (ids_of s.by_user u))
  unfolding unindex_replaced
  replaced_contains u j = elim (Option-cases (get id s.by_id)) [
    | inl e ↦ ground (arith, h.owned u j, text_key.same_iff id j)
    | inr (d, e) ↦ ground (
      arith,
      h.owned u j,
      text_key.same_iff id j,
      number_key.same_iff d.user_id u,
      ids_of-unindex id d.user_id u s.by_user,
      contains-without id j (ids_of s.by_user u),
    )
  ]

  replaced_Distinct :
      (u : UserId) → Distinct (ids_of (unindex_replaced id (get id s.by_id) s.by_user) u)
  unfolding unindex_replaced
  replaced_Distinct u = elim (Option-cases (get id s.by_id)) [
    | inl e ↦ ground (arith, h.distinct u)
    | inr (d, e) ↦ ground (
      arith,
      h.distinct u,
      ids_of-unindex id d.user_id u s.by_user,
      without-Distinct id (ids_of s.by_user u) (h.distinct u),
    )
  ]

  replaced_IsPopulated : IsPopulated (unindex_replaced id (get id s.by_id) s.by_user)
  unfolding unindex_replaced
  replaced_IsPopulated = elim (Option-cases (get id s.by_id)) [
    | inl e ↦ rw (e, unindex_replaced) h.populated
    | inr (d, e) ↦ rw (e, unindex_replaced) (unindex-IsPopulated id d.user_id s.by_user h.populated)
  ]

  pub insert_session-InStep : (d : SessionData) → InStep (insert_session s id d)
  unfolding insert_session
  insert_session-InStep d =
      let m = unindex_replaced id (get id s.by_id) s.by_user in
      record {
        unique = insert-Unique id d s.by_id h.unique;
        owned = λ u j. ground (
          arith,
          get-insert id j d s.by_id,
          h.owned u j,
          replaced_contains u j,
          ids_of-index_id id d.user_id u m,
          contains-append j (ids_of m u) (id ∷ []),
          number_key.same_iff d.user_id u,
          text_key.same_iff id j,
        );
        distinct = λ u. ground (
          arith,
          replaced_contains u id,
          replaced_Distinct u,
          ids_of-index_id id d.user_id u m,
          append-Distinct (ids_of m u) id (replaced_Distinct u),
          number_key.same_iff d.user_id u,
          text_key.same_iff id id,
        );
        populated = index_id-IsPopulated id d.user_id m replaced_IsPopulated;
      }

  dropped-InStep :
      (d : SessionData)
      → get id s.by_id ≡ some d
      → InStep (record { by_id = remove id s.by_id; by_user = unindex id d.user_id s.by_user })
  dropped-InStep d e = record {
    unique = remove-Unique id s.by_id h.unique;
    owned = λ u j. ground (
      arith,
      e,
      get-remove id j s.by_id,
      h.owned u j,
      ids_of-unindex id d.user_id u s.by_user,
      contains-without id j (ids_of s.by_user u),
      number_key.same_iff d.user_id u,
      text_key.same_iff id j,
    );
    distinct = λ u. ground (
      arith,
      h.distinct u,
      ids_of-unindex id d.user_id u s.by_user,
      without-Distinct id (ids_of s.by_user u) (h.distinct u),
    );
    populated = unindex-IsPopulated id d.user_id s.by_user h.populated;
  }

  pub remove_session-InStep : InStep (remove_session s id).0
  unfolding remove_session drop_found
  remove_session-InStep = elim (Option-cases (get id s.by_id)) [
    | inl e ↦ rw (e, drop_found) h
    | inr (d, e) ↦ rw (e, drop_found) (dropped-InStep d e)
  ]

remove_all-InStep : (s : Sessions) (ids : List String) → InStep s → InStep (remove_all s ids).0
unfolding remove_all
remove_all-InStep s [] h = h
remove_all-InStep s (id ∷ ids) h =
    remove_all-InStep (remove_session s id).0 ids (remove_session-InStep s id h)

pub no_sessions-InStep : InStep no_sessions
unfolding ids_of get
no_sessions-InStep = record {
  unique = tt;
  owned = λ u id. refl;
  distinct = λ u. tt;
  populated = λ u e. cc;
}

-- One call of a method that changes the store.
pub data Call : Type 0 where
  save update : String → SessionData → Call
  take : String → Call
  revoking : SessionSelector → Call
  sweep : Time → Call

unfoldable pub step : Sessions → Call → Sessions
step s (save id d) = (save_session s id d).0
step s (update id d) = (update_session s id d).0
step s (take id) = (take_session s id).0
step s (revoking selector) = (revoke s selector).0
step s (sweep now) = sweep_expired s now

pub step-InStep : (s : Sessions) (c : Call) → InStep s → InStep (step s c)
unfolding step save_session update_session take_session revoke sweep_expired
step-InStep s (save id d) h = remove_all-InStep _ _ (insert_session-InStep s id h d)
step-InStep s (update id d) h =
    ground
      (arith, h, insert_session-InStep (remove_session s id).0 id (remove_session-InStep s id h) d)
step-InStep s (take id) h = remove_session-InStep s id h
step-InStep s (revoking selector) h = remove_all-InStep s _ h
step-InStep s (sweep now) h = remove_all-InStep s _ h

unfoldable pub run : Sessions → List Call → Sessions
run s [] = s
run s (c ∷ cs) = run (step s c) cs

run-InStep : (s : Sessions) (cs : List Call) → InStep s → InStep (run s cs)
unfolding run
run-InStep s [] h = h
run-InStep s (c ∷ cs) h = run-InStep (step s c) cs (step-InStep s c h)

-- After any calls on an empty store, in any order, the index is in step with the sessions: it lists
-- for each user exactly the user's sessions, each once, and no user without one.
pub run-no_sessions-InStep : (cs : List Call) → InStep (run no_sessions cs)
run-no_sessions-InStep cs = run-InStep no_sessions cs no_sessions-InStep
