-- ===== src/Hooks/Kratos.antt =====
-- hooks/src/clients/kratos.rs: what hooks reads off a Kratos identity.
use weave_auth.Maps.{Map, get}
use weave_auth.Prelude.{
  none, some, not, [], if◌then◌else◌, is_some, only_if, is_some, only_if, String, Bool, Option,
  List, any, ◌==◌, ◌&&◌, is_some_and, and_then, text_key,
}
use weave_auth.Json.{
  no_elements, element, Elements, element, array, Elements, Json, get_member, as_text,
}
use weave_auth.Texts.{eq_ignore_ascii_case}

pub record VerifiableAddress : Type 0 where
  pub value : String
  pub verified : Bool

pub record Credential : Type 0 where
  pub identifiers : List String
  pub config : Json

pub record Identity : Type 0 where
  pub state : Option String
  pub traits : Json
  pub verifiable_addresses : List VerifiableAddress
  pub credentials : Map String Credential

unfoldable pub is_active : Identity → Bool
is_active i = is_some_and (λ state. state == "active") i.state

unfoldable pub email : Identity → Option String
email i = and_then (get_member "email" i.traits) as_text

unfoldable pub email_verified : Identity → Bool
email_verified i =
    is_some_and
      (λ address.
        any (λ a. a.verified && eq_ignore_ascii_case a.value address) i.verifiable_addresses)
      (email i)

unfoldable pub has_credential : Identity → String → Bool
has_credential i credential_type = is_some (get credential_type i.credentials)

abbrev is_of : String → Json → Bool
is_of provider entry =
    is_some_and (λ p. p == provider) (and_then (get_member "provider" entry) as_text)

abbrev as_array : Json → Option Elements
as_array (array es) = some es
as_array _ = none

unfoldable pub find_entry : String → Elements → Option Json
find_entry provider no_elements = none
find_entry provider (element e es) = if is_of provider e then some e else find_entry provider es

-- The token that Kratos stored of a provider; an empty one counts as absent.
unfoldable pub oidc_access_token : Identity → String → Option String
oidc_access_token i provider =
    only_if (λ token. not (token == ""))
      (and_then (get "oidc" i.credentials) λ credential.
        and_then (get_member "providers" credential.config) λ providers.
          and_then (as_array providers) λ entries.
            and_then (find_entry provider entries)
              λ entry. and_then (get_member "initial_access_token" entry) as_text)

unfoldable pub oidc_identifiers : Identity → List String
oidc_identifiers i = elim (get "oidc" i.credentials) [
  | none ↦ []
  | some credential ↦ credential.identifiers
]
