-- ===== src/Bff/Jti/Tests.antt =====
-- The memory of logout tokens at concrete moments.
use weave_auth.Prelude.{◌≡◌, refl, List, [], ◌∷◌, text_key}
use weave_auth.Maps.{get}
use weave_auth.Bff.Session.{seconds}
use weave_auth.Bff.Jti.{Used, recorded, record_jti}
use weave_auth.Bff.Jti.Replay.{Event, records, sweeps}

abbrev between : List Event
between = records "k" (seconds 900) (seconds 20) ∷ sweeps (seconds 30) ∷ []

accepted : (record_jti [] "j" (seconds 660) (seconds 10)).1 ≡ recorded
unfolding record_jti get
accepted = refl

abbrev two_used : Used
two_used = ("j", seconds 660) ∷ ("k", seconds 20) ∷ []

forgotten_counts : (record_jti two_used "k" (seconds 999) (seconds 40)).1 ≡ recorded
unfolding record_jti get
forgotten_counts = refl
