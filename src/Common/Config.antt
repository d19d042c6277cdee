-- ===== src/Common/Config.antt =====
-- common/src/config.rs: the profile and the checks of browser-facing URLs. What the deployer set is
-- merged by a library, which also parses URLs; both are parameters.
pub mod Checks
use weave_auth.Prelude.{
  ℕ, String, Bool, true, false, not, Option, none, some, List, [], ◌∷◌, ◌==◌, ◌&&◌, ◌||◌,
  if◌then◌else◌, is_some, Result, ok, err, ok_or, ◌>>=◌, text_key,
}

pub data Profile : Type 0 where
  dev prod : Profile

abbrev pub is_prod : Profile → Bool
is_prod prod = true
is_prod dev = false

-- The host of a URL; of an address, whether it is a loopback one.
pub data Host : Type 0 where
  domain : (name : String) → Host
  address : (is_loopback : Bool) → Host

-- A URL as the library parses it. `origin` is its origin's serialized form.
pub record Url : Type 0 where
  pub scheme : String
  pub host : Option Host
  pub username : String
  pub password : Option String
  pub path : String
  pub query : Option String
  pub fragment : Option String
  pub origin : String

-- What the deployer set: which keys, and the profile if its name is known.
pub record User : Type 0 where
  pub contains : String → Bool
  pub profile_named : Option Profile

pub data ConfigError : Type 0 where
  refused : (setting : String) → ConfigError

-- `anyhow::ensure!`; the setting stands for the message.
abbrev pub ensure : Bool → String → Result ConfigError (Unit {0})
ensure holds setting = if holds then ok tt else err (refused setting)

unfoldable pub profile : User → Result ConfigError Profile
profile user =
    if user.contains "profile" then ok_or (refused "profile") user.profile_named else ok prod

pub data PublicUrl : Type 0 where
  base origin : PublicUrl

abbrev pub is_https : Url → Bool
is_https url = url.scheme == "https" && is_some url.host

abbrev is_bare : Url → Bool
is_bare url = url.path == "/" && not (is_some url.query || is_some url.fragment)

abbrev pub is_public : PublicUrl → Option Url → Bool
is_public kind none = false
is_public base (some url) = is_https url
is_public origin (some url) = is_https url && is_bare url

unfoldable pub require_https :
    (String → Option Url) → List (String × String × PublicUrl) → Result ConfigError (Unit {0})
require_https parse [] = ok tt
require_https parse ((var, value, kind) ∷ urls) =
    ensure (is_public kind (parse value)) var >>= λ (_ : Unit {0}). require_https parse urls

unfoldable pub require_https_in_prod :
    (String → Option Url)
    → Profile
    → List (String × String × PublicUrl)
    → Result ConfigError (Unit {0})
require_https_in_prod parse dev urls = ok tt
require_https_in_prod parse prod urls = require_https parse urls

-- A network by its version and the length of its prefix.
pub data IpNet : Type 0 where
  v4 v6 : (prefix_len : ℕ) → IpNet
