-- ===== src/Login/Throttle/Delays.antt =====
-- How long the throttle makes an identifier wait.
use weave_auth.Prelude.{
  is_none_or, ℕ, ◌+◌, ◌-◌, ◌≤◌, ◌≡◌, true, Option, none, some, arith, ltb, leb, ◌&&◌, is_none_or,
  if◌then◌else◌, length, number_key, Option-cases, inl, inr, only_if,
}
use weave_auth.Maps.{get, Unique}
use weave_auth.Maps.Laws.{get-insert, get-remove, get-retain}
use weave_auth.Login.Throttle.{
  Digest, Instant, Entry, Entries, Admission, admitted, wait, not_an_attempt, max_tracked,
  delay_after, wait_until, free_attempts, long_delay, forget_after, track, evict, admit_found,
  admit, give_back, settle, sweep,
}

-- The attempts that count for an identifier now: those of an entry nobody forgot.
abbrev pub remembered : Entries → Digest → Instant → Option Entry
remembered m key now = only_if (λ e. ltb now (e.last_attempt + forget_after)) (get key m)

abbrev pub counted : Option Entry → ℕ
counted none = 0
counted (some e) = e.attempts

-- What is left of the delay that the remembered attempts set, if it has not passed.
abbrev pub due : Option Entry → Instant → Option Instant
due none now = none
due (some e) now =
    if ltb now (e.last_attempt + delay_after e.attempts)
    then some (e.last_attempt + delay_after e.attempts - now)
    else none

abbrev pub answer : Option Instant → Admission
answer none = admitted
answer (some w) = wait w

abbrev one_more : ℕ → Instant → Entry
one_more n now = record { attempts = n + 1; last_attempt = now }

abbrev pub entry_after : Option Instant → Option Entry → ℕ → Instant → Option Entry
entry_after none old n now = some (one_more n now)
entry_after (some w) old n now = old

get-track :
    (m : Entries) (key : Digest) (now : Instant)
    → get key (track m key now) ≡ some (record { attempts = 1; last_attempt = now })
unfolding track
get-track m key now =
    let e : Entry = record { attempts = 1; last_attempt = now } in
    ground (
      arith,
      get-insert key key e (if leb max_tracked (length m) then evict m else m),
      number_key.same_iff key key,
    )

-- An attempt is refused exactly while the delay set by the remembered attempts has not passed, for
-- what is left of it, and leaves the identifier's entry as it was; any other is counted as one more
-- at this moment.
pub admit_lem :
    (m : Entries) (key : Digest) (now : Instant)
    → ((admit m key now).1 ≡ answer (due (remembered m key now) now))
      × (get key (admit m key now).0
          ≡ entry_after
              (due (remembered m key now) now)
              (get key m)
              (counted (remembered m key now))
              now)
unfolding admit admit_found wait_until
admit_lem m key now = elim (Option-cases (get key m)) [
  | inl e ↦ ground (arith, get-track m key now)
  | inr (old, e) ↦ ground (
    arith,
    get-track m key now,
    get-insert key key (one_more old.attempts now) m,
    number_key.same_iff key key,
  )
]

-- It is a delay and no lockout: from five minutes after the last admitted attempt on, an attempt is
-- admitted, however many failed.
pub admit_no_lockout :
    (m : Entries) (key : Digest) (now : Instant)
    → is_none_or (λ e. leb (e.last_attempt + long_delay) now) (get key m) ≡ true
    → (admit m key now).1 ≡ admitted
unfolding delay_after
admit_no_lockout m key now h = ground (arith, h, admit_lem m key now)

-- An identifier with fewer than five counted attempts waits for nothing.
admit_free :
    (m : Entries) (key : Digest) (now : Instant)
    → is_none_or (λ e. ltb e.attempts free_attempts && leb e.last_attempt now) (get key m) ≡ true
    → (admit m key now).1 ≡ admitted
unfolding delay_after
admit_free m key now h = ground (arith, h, admit_lem m key now)

counted-settle :
    (m : Entries) (key : Digest)
    → counted (get key (settle m key not_an_attempt)) ≡ counted (get key m) - 1
unfolding settle give_back
counted-settle m key = elim (Option-cases (get key m)) [
  | inl e ↦ ground (arith, e)
  | inr (old, e) ↦ ground (
    arith,
    e,
    get-remove key key m,
    get-insert key key (record old { attempts = old.attempts - 1 }) m,
    number_key.same_iff key key,
  )
]

-- An answer that comes before any check gives the attempt back: the counter returns to where it
-- was, and an identifier with no other attempt is no longer tracked.
pub settle_given_back :
    (m : Entries) (key : Digest) (now : Instant)
    → (admit m key now).1 ≡ admitted
    → counted (get key (settle (admit m key now).0 key not_an_attempt))
      ≡ counted (remembered m key now)
settle_given_back m key now h =
    ground (arith, h, admit_lem m key now, counted-settle (admit m key now).0 key)

-- A sweep that ran no later changes no answer: what it drops is no longer remembered.
pub admit-sweep :
    (m : Entries) (key : Digest) (swept now : Instant)
    → Unique m
    → swept ≤ now
    → (admit (sweep m swept) key now).1 ≡ (admit m key now).1
unfolding sweep
admit-sweep m key swept now u l = ground (
  arith,
  admit_lem m key now,
  admit_lem (sweep m swept) key now,
  get-retain (λ _ e. ltb swept (e.last_attempt + forget_after)) key m u,
)
