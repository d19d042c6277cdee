-- ===== src/Bff/Jti.antt =====
-- bff/src/storage/in_memory.rs, `InMemoryJtiStorage`: the logout tokens accepted so far. The clock's
-- reading is an argument.
pub mod Replay
mod Tests
use weave_auth.Prelude.{text_key, String, ltb, if◌then◌else◌, is_some_and}
use weave_auth.Maps.{Map, get, insert, retain}
use weave_auth.Bff.Session.{Time}

abbrev pub Used : Type 0
Used = Map String Time

pub data Recorded : Type 0 where
  recorded jti_replayed : Recorded

unfoldable pub record_jti : Used → String → Time → Time → Used × Recorded
record_jti used jti until now =
    if is_some_and (λ remembered. ltb now remembered) (get jti used)
    then (used, jti_replayed)
    else (insert jti until used, recorded)

unfoldable pub sweep_jtis : Used → Time → Used
sweep_jtis used now = retain (λ _ until. ltb now until) used
