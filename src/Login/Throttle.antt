-- ===== src/Login/Throttle.antt =====
-- login/src/throttle.rs. The map's methods run under its one lock; the clock's reading is an
-- argument, in nanoseconds. A key, the hash of an identifier, is a number of 256 bits.
pub mod Bounds
pub mod Delays
mod Tests
use weave_auth.Prelude.{
  ℕ, ◌+◌, ◌-◌, ◌*◌, ◌/◌, min, Bool, not, Option, none, some, List, [], ◌∷◌, map, ◌&&◌, ◌||◌, ◌==◌,
  ltb, leb, if◌then◌else◌, length, take, filter, sort_by, is_some_and, number_key,
}
use Prim.Native.Nat.{max}
use weave_auth.Maps.{Map, get, insert, remove, retain, keys}

abbrev pub Instant : Type 0
Instant = ℕ

abbrev pub secs : ℕ → Instant
secs n = n * 1_000_000_000

abbrev pub free_attempts : ℕ
free_attempts = 5

abbrev short_delay_attempts : ℕ
short_delay_attempts = 5

abbrev short_delay : Instant
short_delay = secs 30

abbrev pub long_delay : Instant
long_delay = secs 300

abbrev pub forget_after : Instant
forget_after = secs 3600

abbrev pub max_tracked : ℕ
max_tracked = 100_000

abbrev pub Digest : Type 0
Digest = ℕ

pub data Admission : Type 0 where
  admitted : Admission
  wait : Instant → Admission

pub data Outcome : Type 0 where
  failed succeeded not_an_attempt : Outcome

pub record Entry : Type 0 where
  pub attempts : ℕ
  pub last_attempt : Instant

abbrev pub Entries : Type 0
Entries = Map Digest Entry

unfoldable pub delay_after : ℕ → Instant
delay_after attempts =
    if ltb attempts free_attempts
    then 0
    else if ltb attempts (free_attempts + short_delay_attempts)
    then short_delay
    else long_delay

unfoldable pub wait_until : Entry → Instant
wait_until e = e.last_attempt + delay_after e.attempts

abbrev delaying : Entry → Bool
delaying e = leb free_attempts e.attempts

-- The order of `(delaying, last_attempt)`: those that delay nobody first, then the older.
unfoldable pub ranks_before : Digest × Entry → Digest × Entry → Bool
ranks_before a b =
    if delaying a.1
    then delaying b.1 && leb a.1.last_attempt b.1.last_attempt
    else delaying b.1 || leb a.1.last_attempt b.1.last_attempt

unfoldable pub remove_keys : List Digest → Entries → Entries
remove_keys [] m = m
remove_keys (k ∷ ks) m = remove_keys ks (remove k m)

abbrev pub batch : Entries → ℕ
batch m = min (max (max_tracked / 10) 1) (length m)

-- `select_nth_unstable_by_key` puts the `batch` lowest in front; among equals any may be taken.
unfoldable pub evict : Entries → Entries
evict m = remove_keys (keys (take (batch m) (sort_by ranks_before m))) m

-- A new identifier, or one that was forgotten.
unfoldable pub track : Entries → Digest → Instant → Entries
track m key now =
    insert key (record { attempts = 1; last_attempt = now })
      (if leb max_tracked (length m) then evict m else m)

unfoldable pub admit_found : Entries → Digest → Instant → Option Entry → Entries × Admission
admit_found m key now none = (track m key now, admitted)
admit_found m key now (some e) =
    if ltb now (e.last_attempt + forget_after)
    then if ltb now (wait_until e)
      then (m, wait (wait_until e - now))
      else (insert key (record { attempts = e.attempts + 1; last_attempt = now }) m, admitted)
    else (track m key now, admitted)

unfoldable pub admit : Entries → Digest → Instant → Entries × Admission
admit m key now = admit_found m key now (get key m)

unfoldable pub give_back : Entries → Digest → Option Entry → Entries
give_back m key none = m
give_back m key (some e) =
    if e.attempts - 1 == 0
    then remove key m
    else insert key (record e { attempts = e.attempts - 1 }) m

unfoldable pub settle : Entries → Digest → Outcome → Entries
settle m key failed = m
settle m key succeeded = remove key m
settle m key not_an_attempt = give_back m key (get key m)

unfoldable pub sweep : Entries → Instant → Entries
sweep m now = retain (λ _ e. ltb now (e.last_attempt + forget_after)) m
