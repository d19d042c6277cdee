-- ===== src/Bff/Storage/Refinement.antt =====
-- What the trait SessionStorage promises (bff/src/storage/mod.rs): a map from ids to sessions, of which
-- the index by user shows nothing but the limit on a user's sessions.
use weave_auth.Prelude.{
  ◌≤◌, String, Bool, true, not, Option, none, some, List, [], ◌∷◌, ◌≡◌, refl, arith, ◌==◌, ◌&&◌,
  if◌then◌else◌, is_some, only_if, contains, without, length, length-without, without-Distinct,
  Distinct, Within, Within-without, Within-contains, All, leb, text_key, number_key,
}
use weave_auth.Maps.{get}
use weave_auth.Bff.Session.{SessionData, UserId, matches, ends_at}
use weave_auth.Bff.Storage.{
  Sessions, no_sessions, get_session, insert_session, save_session, excess_ids, ids_of,
  max_sessions_per_user,
}
use weave_auth.Bff.Storage.Lookup.{get-insert_session, get-remove_all}
use weave_auth.Bff.Storage.Invariant.{
  owns, InStep, Call, save, update, take, revoking, sweep, step, step-InStep, run,
  insert_session-InStep, no_sessions-InStep,
}
use weave_auth.Bff.Storage.Limit.{save_session-limit, save_session-ends-oldest, excess-Within}
use weave_auth.Bff.Storage.Ending.{
  update_session_lem, take_session_lem, get_session-revoke, get_session-sweep_expired,
}

-- The sessions that a caller can see.
abbrev pub View : Type 0
View = String → Option SessionData

abbrev pub put : View → String → SessionData → View
put f id d j = if id == j then some d else f j

-- The session saved is there, less what the limit ends: only sessions of the same user, none begun
-- later than one of the user's that stays, and enough for the limit to hold.
pub record Saved (f : View) (id : String) (d : SessionData) (g : View) : Type 0 where
  pub ended : String → Bool
  pub kept : (j : String) → g j ≡ (if ended j then none else put f id d j)
  pub own : (j : String) → ended j ≡ true → owns d.user_id (put f id d j) ≡ true
  pub oldest :
      (i j : String) (x y : SessionData)
      → ended i ≡ true
      → put f id d i ≡ some x
      → g j ≡ some y
      → y.user_id ≡ d.user_id
      → x.created_at ≤ y.created_at
  pub limited :
      (ids : List String)
      → Distinct ids
      → All (λ j. owns d.user_id (g j) ≡ true) ids
      → length ids ≤ max_sessions_per_user

-- What each call may do to the sessions.
pub Allows : View → Call → View → Type 0
Allows f (save id d) g = Saved f id d g
Allows f (update id d) g =
    (j : String) → g j ≡ (if (id == j) && is_some (f id) then some d else f j)
Allows f (take id) g = (j : String) → g j ≡ (if id == j then none else f j)
Allows f (revoking selector) g = (j : String) → g j ≡ only_if (λ d. not (matches selector d)) (f j)
Allows f (sweep now) g = (j : String) → g j ≡ only_if (λ d. not (leb (ends_at d) now)) (f j)

-- What several calls, one after the other, may do.
pub AllowsAll : View → List Call → View → Type 0
AllowsAll f [] g = (j : String) → g j ≡ f j
AllowsAll f (c ∷ cs) g = (h : View) × Allows f c h × AllowsAll h cs g

length-Within-le :
    (xs ys : List String) → Distinct xs → Distinct ys → Within xs ys → length xs ≤ length ys
length-Within-le [] ys d e w = omega arith
length-Within-le (x ∷ xs) ys d e w = ground (
  arith,
  length-Within-le xs (without x ys) d.1 (without-Distinct x ys e) (Within-without x xs ys d.0 w.1),
  length-without x ys e,
  w.0,
)

Within-owned :
    (s : Sessions) (u : UserId) (ids : List String)
    → InStep s
    → All (λ j. owns u (get_session s j) ≡ true) ids
    → Within ids (ids_of s.by_user u)
unfolding get_session
Within-owned s u [] h own = tt
Within-owned s u (id ∷ ids) h own =
    (ground (arith, h.owned u id, own.0), Within-owned s u ids h own.1)

save_session-Saved :
    (s : Sessions) (id : String) (d : SessionData)
    → InStep s
    → Saved (get_session s) id d (get_session (save_session s id d).0)
unfolding get_session save_session step
save_session-Saved s id d h =
    let after = (save_session s id d).0 in
    let in_step : InStep after = step-InStep s (save id d) h in
    let stored = insert_session s id d in
    let kept = insert_session-InStep s id h d in
    let gone = excess_ids stored d.user_id in
    record {
      ended = λ j. contains j gone;
      kept = λ j. ground (arith, get-remove_all stored gone j, get-insert_session s id j d);
      own = λ j e. ground (
        arith,
        e,
        get-insert_session s id j d,
        kept.owned d.user_id j,
        Within-contains j gone (ids_of stored.by_user d.user_id)
            (excess-Within stored d.user_id kept),
      );
      oldest = λ i j x y e there stays same.
          save_session-ends-oldest s id d h i j x y
            (ground (arith, there, get-insert_session s id i d))
            (ground (arith, e, get-remove_all stored gone i)) stays same;
      limited = λ ids distinct own. omega (
        arith,
        length-Within-le ids (ids_of after.by_user d.user_id) distinct (in_step.distinct d.user_id)
            (Within-owned after d.user_id ids in_step own),
        (save_session-limit s id d h).0,
      );
    }

step-Allows :
    (s : Sessions) (c : Call) → InStep s → Allows (get_session s) c (get_session (step s c))
unfolding Allows step
step-Allows s (save id d) h = save_session-Saved s id d h
step-Allows s (update id d) h = λ j. (update_session_lem s id j d).0
step-Allows s (take id) h = λ j. (take_session_lem s id j).1
step-Allows s (revoking selector) h = get_session-revoke s h selector
step-Allows s (sweep now) h = get_session-sweep_expired s h now

run-Allows :
    (s : Sessions) (cs : List Call)
    → InStep s
    → AllowsAll (get_session s) cs (get_session (run s cs))
unfolding AllowsAll run
run-Allows s [] h = λ j. refl
run-Allows s (c ∷ cs) h =
    (get_session (step s c), step-Allows s c h, run-Allows (step s c) cs (step-InStep s c h))

-- Whatever calls a new store gets, in any order, a caller sees what the promise allows after them: the
-- store is a map from ids to sessions, and a save ends only sessions of its own user, the oldest ones,
-- so many that at most 20 stay.
pub run-no_sessions-AllowsAll :
    (cs : List Call) → AllowsAll (λ j. none) cs (get_session (run no_sessions cs))
unfolding AllowsAll get_session get
run-no_sessions-AllowsAll cs = run-Allows no_sessions cs no_sessions-InStep
