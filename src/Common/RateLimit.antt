-- ===== src/Common/RateLimit.antt =====
-- common/src/rate_limit.rs: the address that a request is counted under. An address is a value of any
-- type; whether a trusted network contains it, the text of a hop as an address and its canonical form
-- are the libraries'. The hops stand in the order of the header.
pub mod Walk
mod Tests
use weave_auth.Prelude.{
  ℕ, ◌+◌, ◌*◌, ◌/◌, ◌-◌, String, Bool, Option, none, some, List, [], ◌∷◌, ◌++◌, if◌then◌else◌, ◌==◌,
  number_key,
}
use Prim.Native.Nat.{max}

pub record Network (A : Type 0) : Type 0 where
  pub is_trusted : A → Bool
  pub parse_hop : String → Option A
  pub to_canonical : A → A

abbrev pub reverse {ℓ} : {A : Type ℓ} → List A → List A
reverse [] = []
reverse (x ∷ xs) = reverse xs ++ x ∷ []

module _ {A : Type 0} (n : Network A) where
  -- The entries from the last one on, while the hop that was reached is trusted.
  unfoldable pub walk : A → List String → A
  walk client [] = client
  walk client (hop ∷ hops) =
      if n.is_trusted client
      then elim (n.parse_hop hop) [ some ip ↦ walk (n.to_canonical ip) hops | none ↦ client ]
      else client

  unfoldable pub client_ip : A → List String → A
  client_ip peer forwarded_for = walk (n.to_canonical peer) (reverse forwarded_for)

-- How long one attempt takes to come back, in milliseconds; `none` for a limit of 0.
unfoldable pub replenish_ms : ℕ → ℕ → Option ℕ
replenish_ms max_attempts window_secs =
    if max_attempts == 0 then none else some (max (window_secs * 1000 / max_attempts) 1)
