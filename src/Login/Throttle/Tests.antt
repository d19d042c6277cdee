-- ===== src/Login/Throttle/Tests.antt =====
-- The throttle at concrete moments.
use weave_auth.Prelude.{◌≡◌, refl, [], ◌∷◌, number_key}
use weave_auth.Maps.{get}
use weave_auth.Login.Throttle.{
  Entries, secs, admitted, wait, failed, admit, admit_found, wait_until, delay_after,
}
use weave_auth.Login.Throttle.Bounds.{IsBounded, admits, settles, after, tracked-IsBounded}
use weave_auth.Login.Throttle.Delays.{
  admit_lem, due, remembered, answer, entry_after, counted, admit_no_lockout,
}

-- Identifier 1 has failed five times, the last at second 100; identifier 2 ten times, at 20.
abbrev tried : Entries
tried =
    (1, record { attempts = 5; last_attempt = secs 100 })
    ∷ (2, record { attempts = 10; last_attempt = secs 20 })
    ∷ []

throttled :
    ((admit tried 1 (secs 110)).1 ≡ wait (secs 20))
    × ((admit tried 1 (secs 130)).1 ≡ admitted)
    × ((admit tried 2 (secs 300)).1 ≡ wait (secs 20))
    × ((admit tried 3 (secs 110)).1 ≡ admitted)
unfolding admit admit_found wait_until delay_after get
throttled = (refl, refl, refl, refl)

admit_lem_example :
    ((admit tried 1 (secs 110)).1 ≡ answer (due (remembered tried 1 (secs 110)) (secs 110)))
    × (get 1 (admit tried 1 (secs 110)).0
        ≡ entry_after
            (due (remembered tried 1 (secs 110)) (secs 110))
            (get 1 tried)
            (counted (remembered tried 1 (secs 110)))
            (secs 110))
admit_lem_example = admit_lem tried 1 (secs 110)

tracked-IsBounded_example : IsBounded (after [] (admits 1 0 ∷ admits 1 5 ∷ settles 1 failed ∷ []))
tracked-IsBounded_example = tracked-IsBounded (admits 1 0 ∷ admits 1 5 ∷ settles 1 failed ∷ [])

admit_no_lockout_example : (admit tried 2 (secs 320)).1 ≡ admitted
unfolding get
admit_no_lockout_example = admit_no_lockout tried 2 (secs 320) refl
