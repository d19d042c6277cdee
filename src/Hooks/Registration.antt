-- ===== src/Hooks/Registration.antt =====
-- hooks/src/server/api/after_registration.rs: the web hook that Kratos calls once it has stored a new
-- identity. Kratos' identities and what the deployer's handler was told are the state; the answers of
-- Kratos, of the handler and of the profile APIs are parameters, as is whether the work is done in time
-- and, if not, whether the handler was told before that.
pub mod Undone
mod Tests
use weave_auth.Prelude.{
  false, true, ℕ, String, Bool, not, Option, none, some, List, [], ◌∷◌, ◌++◌, ◌==◌, ◌&&◌,
  if◌then◌else◌, only_if, and_then, unwrap_or, is_some, Result, ok, err, map_err, ◌>>=◌, text_key,
  number_key,
}
use weave_auth.Json.{Json, Members, no_members, member}
use weave_auth.Maps.{Map, get, remove, insert}
use weave_auth.Hooks.Kratos.{Identity, email_verified, oidc_access_token}
use weave_auth.Hooks.Webhook.{HttpAnswer, WebhookError, is_refusal, registration}
use weave_auth.Hooks.ProfileApi.{
  ProfileApiConfig, ProfileError, Fields, Library, scalar_to_string, ProfileApiFields, CallFailed,
  collect, extend,
}

pub record AfterRegistrationRequest : Type 0 where
  pub identity_id : ℕ
  pub email : String
  pub traits : Members
  pub provider : Option String
  pub granted_scopes : Option (List String)

pub data AfterRegistrationServiceError : Type 0 where
  consent_required profile_api_failed : ProfileError → AfterRegistrationServiceError
  registration_rejected registration_handler_failed : WebhookError → AfterRegistrationServiceError
  identity_lookup_failed identity_gone timed_out : AfterRegistrationServiceError

-- What the handler is told.
pub record Notice : Type 0 where
  pub user_id : ℕ
  pub email : String
  pub email_verified : Bool
  pub fields : Fields

pub record World : Type 0 where
  pub identities : Map ℕ Identity
  pub notices : List Notice

pub record Surroundings : Type 0 where
  pub profile_apis : Map String (List ProfileApiConfig)
  pub handler : Option (Notice → Option HttpAnswer)
  pub fetch : ProfileApiConfig → String → Result CallFailed ProfileApiFields
  pub library : Library
  -- Whether Kratos fails to answer a lookup, and a deletion.
  pub lookup_fails : Bool
  pub delete_fails : Bool
  pub in_time : Bool
  pub told_before : Bool

-- The provider of a social sign-up; an empty one is none.
abbrev pub provider_of : AfterRegistrationRequest → Option String
provider_of req = only_if (λ p. not (p == "")) req.provider

unfoldable pub apis_of : Surroundings → AfterRegistrationRequest → List ProfileApiConfig
apis_of w req = unwrap_or [] (and_then (provider_of req) λ provider. get provider w.profile_apis)

unfoldable pub trait_fields : Library → Members → Fields → Fields
trait_fields l no_members fields = fields
trait_fields l (member name value more) fields =
    if name == "email" then trait_fields l more fields else elim (scalar_to_string l value) [
      | none ↦ trait_fields l more fields
      | some text ↦ trait_fields l more (insert name text fields)
    ]

abbrev profile_error : ProfileError → AfterRegistrationServiceError
profile_error (ProfileError.consent_required scope) =
    consent_required (ProfileError.consent_required scope)
profile_error ProfileError.failed = profile_api_failed ProfileError.failed

abbrev is_none_configured : List ProfileApiConfig → Bool
is_none_configured [] = true
is_none_configured (api ∷ apis) = false

unfoldable pub provider_fields :
    Surroundings
    → AfterRegistrationRequest
    → List ProfileApiConfig
    → Identity
    → Option String
    → Result AfterRegistrationServiceError Fields
provider_fields w req [] identity provider = ok []
provider_fields w req (api ∷ apis) identity none = ok []
provider_fields w req (api ∷ apis) identity (some provider) =
    map_err profile_error
      (collect w.fetch (api ∷ apis) (oidc_access_token identity provider) req.granted_scopes)

unfoldable pub lookup : Surroundings → World → ℕ → Result AfterRegistrationServiceError Identity
lookup w world id =
    if w.lookup_fails
    then err identity_lookup_failed
    else elim (get id world.identities) [ none ↦ err identity_gone | some identity ↦ ok identity ]

abbrev handler_error : WebhookError → AfterRegistrationServiceError
handler_error e = if is_refusal e then registration_rejected e else registration_handler_failed e

-- The handler is told, and may refuse or fail.
unfoldable pub tell :
    Option (Notice → Option HttpAnswer)
    → World
    → Notice
    → World × Result AfterRegistrationServiceError (Unit {0})
tell none world notice = (world, ok tt)
tell (some handler) world notice = (
  record world { notices = world.notices ++ notice ∷ [] },
  map_err handler_error (registration (handler notice)),
)

unfoldable pub notice_of :
    Surroundings → AfterRegistrationRequest → Identity → Result AfterRegistrationServiceError Notice
notice_of w req identity =
    provider_fields w req (apis_of w req) identity (provider_of req) >>= λ found. ok (record {
      user_id = req.identity_id;
      email = req.email;
      email_verified = email_verified identity;
      fields = extend (trait_fields w.library req.traits []) found;
    })

abbrev pub tell_of :
    Surroundings
    → World
    → Result AfterRegistrationServiceError Notice
    → World × Result AfterRegistrationServiceError (Unit {0})
tell_of w world (err e) = (world, err e)
tell_of w world (ok notice) = tell w.handler world notice

unfoldable pub collect_and_forward :
    Surroundings
    → World
    → AfterRegistrationRequest
    → World × Result AfterRegistrationServiceError (Unit {0})
collect_and_forward w world req =
    if not (is_some w.handler) && is_none_configured (apis_of w req)
    then (world, ok tt)
    else tell_of w world (lookup w world req.identity_id >>= notice_of w req)

-- The work within half the request's timeout; cut off, it may have told the handler or not.
unfoldable pub within_budget :
    Surroundings
    → World
    → AfterRegistrationRequest
    → World × Result AfterRegistrationServiceError (Unit {0})
within_budget w world req =
    let (world', result) = collect_and_forward w world req in
    if w.in_time then (world', result) else (if w.told_before then world' else world, err timed_out)

unfoldable pub delete_identity : Surroundings → World → ℕ → World
delete_identity w world id =
    if w.delete_fails then world else record world { identities = remove id world.identities }

unfoldable pub undo :
    Surroundings → World → ℕ → Result AfterRegistrationServiceError (Unit {0}) → World
undo w world id (ok _) = world
undo w world id (err identity_gone) = world
undo w world id (err e) = delete_identity w world id

unfoldable pub register :
    Surroundings
    → World
    → AfterRegistrationRequest
    → World × Result AfterRegistrationServiceError (Unit {0})
register w world req =
    let (world', result) = within_budget w world req in
    (undo w world' req.identity_id result, result)

-- The statuses that Kratos sees: it retries a 5xx and no other 4xx.
unfoldable pub registration_status : AfterRegistrationServiceError → ℕ
registration_status (consent_required e) = 422
registration_status (profile_api_failed e) = 422
registration_status (registration_rejected e) = 422
registration_status (registration_handler_failed e) = 502
registration_status identity_lookup_failed = 502
registration_status identity_gone = 410
registration_status timed_out = 504
