-- ===== src/Bff/Jti/Replay.antt =====
-- A logout token is accepted once while it could still pass its age check.
use weave_auth.Prelude.{String, ◌<◌, ◌≤◌, ◌≡◌, List, [], ◌∷◌, All, some, arith, text_key, ltb}
use weave_auth.Maps.{get, Unique}
use weave_auth.Maps.Laws.{get-insert, get-retain, insert-Unique, retain-Unique}
use weave_auth.Bff.Session.{Time}
use weave_auth.Bff.Jti.{Used, recorded, jti_replayed, record_jti, sweep_jtis}

-- What happens to the store: a token is recorded, or the periodic sweep runs.
pub data Event : Type 0 where
  records : String → Time → Time → Event
  sweeps : Time → Event

abbrev pub time_of : Event → Time
time_of (records jti until now) = now
time_of (sweeps now) = now

unfoldable pub after_event : Used → Event → Used
after_event used (records jti until now) = (record_jti used jti until now).0
after_event used (sweeps now) = sweep_jtis used now

unfoldable pub after_events : Used → List Event → Used
after_events used [] = used
after_events used (e ∷ es) = after_events (after_event used e) es

after_event-Unique : (used : Used) (e : Event) → Unique used → Unique (after_event used e)
unfolding after_event record_jti sweep_jtis
after_event-Unique used (records jti until now) u =
    ground (arith, u, insert-Unique jti until used u)
after_event-Unique used (sweeps now) u = retain-Unique _ used u

event_keeps :
    (used : Used) (e : Event) (jti : String) (until : Time)
    → Unique used
    → time_of e < until
    → get jti used ≡ some until
    → get jti (after_event used e) ≡ some until
unfolding after_event record_jti sweep_jtis
event_keeps used (records j u now) jti until un t h =
    ground (arith, h, t, get-insert j jti u used, text_key.same_iff j jti)
event_keeps used (sweeps now) jti until un t h =
    ground (arith, h, t, get-retain (λ _ v. ltb now v) jti used un)

events_keep :
    (used : Used) (es : List Event) (jti : String) (until : Time)
    → Unique used
    → All (λ e. time_of e < until) es
    → get jti used ≡ some until
    → get jti (after_events used es) ≡ some until
unfolding after_events
events_keep used [] jti until un t h = h
events_keep used (e ∷ es) jti until un t h =
    events_keep (after_event used e) es jti until (after_event-Unique used e un) t.1
      (event_keeps used e jti until un t.0 h)

-- A token that was accepted is refused at any later moment before `until`, whatever was recorded
-- and however often the sweep ran in between.
pub no_replay :
    (used : Used) (jti : String) (until now : Time) (es : List Event) (again later : Time)
    → Unique used
    → (record_jti used jti until now).1 ≡ recorded
    → All (λ e. time_of e < until) es
    → later < until
    → (record_jti (after_events (record_jti used jti until now).0 es) jti again later).1
      ≡ jti_replayed
no_replay used jti until now es again later un ok t l =
    refused (events_keep (record_jti used jti until now).0 es jti until kept t held)
  where
    kept : Unique (record_jti used jti until now).0
    kept = unfold record_jti in ground (arith, un, insert-Unique jti until used un)

    held : get jti (record_jti used jti until now).0 ≡ some until
    held =
        unfold record_jti in
        ground (arith, ok, get-insert jti jti until used, text_key.same_iff jti jti)

    refused :
        get jti (after_events (record_jti used jti until now).0 es) ≡ some until
        → (record_jti (after_events (record_jti used jti until now).0 es) jti again later).1
          ≡ jti_replayed
    refused e = unfold record_jti in ground (arith, e, l)

-- A sweep that ran no later than now changes no answer: what it forgets no longer counts.
pub record_jti-sweep_jtis :
    (used : Used) (jti : String) (until swept now : Time)
    → Unique used
    → swept ≤ now
    → (record_jti (sweep_jtis used swept) jti until now).1 ≡ (record_jti used jti until now).1
unfolding record_jti sweep_jtis
record_jti-sweep_jtis used jti until swept now un l =
    ground (arith, get-retain (λ _ v. ltb swept v) jti used un)
