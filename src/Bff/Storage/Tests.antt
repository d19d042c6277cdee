-- ===== src/Bff/Storage/Tests.antt =====
-- Runs of the store, and the theorems at concrete stores.
use weave_auth.Bff.Storage.Refinement.{run-no_sessions-AllowsAll, AllowsAll}
use weave_auth.Prelude.{
  ◌≢◌, insert_sorted, sort_by, ℕ, ◌+◌, ◌-◌, ◌≤◌, String, false, none, some, List, [], ◌∷◌, ◌≡◌,
  refl, length, arith, text_key,
}
use text.Mathlib.TextEquality.{eq_iff}
use weave_auth.Maps.{get, insert, remove}
use weave_auth.Bff.Session.{SessionData, user_session, session, matches, seconds, ends_at}
use weave_auth.Bff.Storage.{
  Sessions, no_sessions, ids_of, put_ids, unindex_ids, unindex, unindex_replaced, index_id,
  insert_session, drop_found, remove_session, remove_all, own_sessions, excess_ids, save_session,
  get_session, update_session, take_session, revoke, sweep_expired, selected_ids, user_matching_ids,
  matching_ids,
}
use weave_auth.Bff.Storage.Invariant.{Call, save, step, run, InStep, run-no_sessions-InStep, owns}
use weave_auth.Bff.Storage.Limit.{save_session-limit}

-- A session of user 7 begun at second `n`, under Hydra's login session "h".
abbrev begun : ℕ → SessionData
begun n = record {
  access_token = "a";
  refresh_token = "r";
  id_token = "i";
  expires_at = seconds (n + 60);
  created_at = seconds n;
  refresh_expires_at = seconds (n + 3600);
  user_id = 7;
  sid = some "h";
}

abbrev other_user : SessionData
other_user = record (begun 5) { user_id = 8; sid = none }

abbrev logins : List Call
logins =
    save "b" other_user
    ∷ save "01" (begun 101)
    ∷ save "02" (begun 102)
    ∷ save "03" (begun 103)
    ∷ save "04" (begun 104)
    ∷ save "05" (begun 105)
    ∷ save "06" (begun 106)
    ∷ save "07" (begun 107)
    ∷ save "08" (begun 108)
    ∷ save "09" (begun 109)
    ∷ save "10" (begun 110)
    ∷ save "11" (begun 111)
    ∷ save "12" (begun 112)
    ∷ save "13" (begun 113)
    ∷ save "14" (begun 114)
    ∷ save "15" (begun 115)
    ∷ save "16" (begun 116)
    ∷ save "17" (begun 117)
    ∷ save "18" (begun 118)
    ∷ save "19" (begun 119)
    ∷ save "20" (begun 120)
    ∷ []

abbrev crowded : Sessions
crowded = run no_sessions logins

crowded-InStep : InStep crowded
crowded-InStep = run-no_sessions-InStep logins

-- What the runs below compute with.
storage_runs : ℕ
unfolding run step save_session update_session take_session revoke sweep_expired selected_ids
    user_matching_ids matching_ids get_session insert_session remove_session drop_found remove_all
    own_sessions excess_ids unindex_replaced unindex unindex_ids put_ids index_id ids_of get insert
    remove matches ends_at insert_sorted sort_by
storage_runs = 0

-- The twenty-first login ends the oldest session, and hands it back.
twenty_first : (save_session crowded "21" (begun 121)).1 ≡ begun 101 ∷ []
unfolding storage_runs
twenty_first = refl

abbrev twenty_second : Sessions
twenty_second = (save_session crowded "21" (begun 121)).0

lookups :
    (get_session twenty_second "01" ≡ none)
    × (get_session twenty_second "02" ≡ some (begun 102))
    × (get_session twenty_second "21" ≡ some (begun 121))
    × (length (ids_of twenty_second.by_user 7) ≡ 20)
unfolding storage_runs
lookups = (refl, refl, refl, refl)

run-no_sessions-InStep_example : InStep crowded
run-no_sessions-InStep_example = run-no_sessions-InStep logins

save_session-limit_example :
    (length (ids_of twenty_second.by_user 7) ≤ 20)
    × (length (ids_of twenty_second.by_user 7)
          + (length (ids_of (insert_session crowded "21" (begun 121)).by_user 7) - 20)
        ≡ length (ids_of (insert_session crowded "21" (begun 121)).by_user 7))
save_session-limit_example = save_session-limit crowded "21" (begun 121) crowded-InStep

first_stored : get_session (insert_session crowded "21" (begun 121)) "01" ≡ some (begun 101)
unfolding storage_runs
first_stored = refl

new_is_not_b : ◌≢◌ {A = String} "21" "b"
new_is_not_b = ground (arith, eq_iff "21" "b")

other_is_not_owned : owns 7 (get_session crowded "b") ≡ false
unfolding storage_runs
other_is_not_owned = refl

-- A session with no recorded `sid` can't be told apart from the one named, so it ends too.
revokes :
    ((revoke crowded (user_session 8 "x")).1 ≡ other_user ∷ [])
    × ((revoke crowded (session "x")).1 ≡ [])
    × (get_session (sweep_expired crowded (seconds 3605)) "b" ≡ none)
    × (get_session (sweep_expired crowded (seconds 3604)) "b" ≡ some other_user)
unfolding storage_runs
revokes = (refl, refl, refl, refl)

run-no_sessions-AllowsAll_example : AllowsAll (λ j. none) logins (get_session crowded)
run-no_sessions-AllowsAll_example = run-no_sessions-AllowsAll logins
