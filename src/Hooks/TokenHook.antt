-- ===== src/Hooks/TokenHook.antt =====
-- hooks/src/server/api/token_hook.rs: the claims on a token that Hydra is about to sign. Kratos' and
-- the claims handler's answers are parameters, as is the reading of a UUID.
pub mod Claims
mod Tests
use weave_auth.Prelude.{
  ℕ, String, Bool, true, false, not, Option, none, some, List, [], ◌∷◌, contains, ◌&&◌,
  if◌then◌else◌, Result, ok, err, ok_or, map_err, ◌>>=◌, text_key, ◌==◌,
}
use weave_auth.Json.{Json, text, boolean}
use weave_auth.Maps.{Map, insert, keys}
use weave_auth.Hooks.Kratos.{Identity, is_active, email, email_verified}

-- `not_found` is Kratos' 404.
pub data UpstreamError : Type 0 where
  not_found other_failure : UpstreamError

pub data TokenHookServiceError : Type 0 where
  invalid_subject identity_not_found : TokenHookServiceError
  identity_lookup_failed : TokenHookServiceError
  identity_inactive identity_without_email email_not_verified : TokenHookServiceError
  downstream_service_failed : TokenHookServiceError
  reserved_claim_overridden : (name : String) → TokenHookServiceError

abbrev pub reserved_claim_names : List String
reserved_claim_names =
    "iss" ∷ "sub" ∷ "aud" ∷ "exp" ∷ "nbf" ∷ "iat" ∷ "jti" ∷ "email" ∷ "email_verified" ∷ "scp"
    ∷ "client_id" ∷ "ext" ∷ "sid" ∷ "nonce" ∷ "auth_time" ∷ "acr" ∷ "amr" ∷ "at_hash" ∷ "c_hash"
    ∷ "rat" ∷ "scope" ∷ "azp" ∷ "cnf" ∷ "act" ∷ "may_act" ∷ "typ" ∷ "token_use" ∷ []

abbrev pub Claims : Type 0
Claims = Map String Json

-- The id_token's subject, or its `sub` claim if that is empty.
unfoldable pub subject_of : String → String → String
subject_of subject sub = if subject == "" then sub else subject

unfoldable pub find_reserved : List String → Option String
find_reserved [] = none
find_reserved (name ∷ names) =
    if contains name reserved_claim_names then some name else find_reserved names

unfoldable pub reject_reserved : Claims → Result TokenHookServiceError (Unit {0})
reject_reserved claims = elim (find_reserved (keys claims)) [
  | some reserved ↦ err (reserved_claim_overridden reserved)
  | none ↦ ok tt
]

pub record Surroundings : Type 0 where
  pub as_uuid : String → Option ℕ
  pub get_identity : ℕ → Result UpstreamError Identity
  pub require_verified_email : Bool
  -- The claims handler, if one is configured, on the user, the email, whether it is verified, the
  -- client and the scopes; `none` is a failed call.
  pub login_claims : Option (ℕ → String → Bool → String → List String → Option Claims)

abbrev pub lookup_error : UpstreamError → TokenHookServiceError
lookup_error not_found = identity_not_found
lookup_error other_failure = identity_lookup_failed

unfoldable pub handler_claims :
    Option (ℕ → String → Bool → String → List String → Option Claims)
    → ℕ
    → String
    → Bool
    → String
    → List String
    → Result TokenHookServiceError Claims
handler_claims none user address verified client scopes = ok []
handler_claims (some handler) user address verified client scopes =
    ok_or downstream_service_failed (handler user address verified client scopes) >>= λ claims.
    reject_reserved claims >>= λ (_ : Unit {0}). ok claims

unfoldable pub with_email : String → Bool → Claims → Claims
with_email address verified claims =
    insert "email_verified" (boolean verified) (insert "email" (text address) claims)

pub record IssuedClaims : Type 0 where
  pub access_token : Claims
  pub id_token : Claims

unfoldable pub issue_claims :
    Surroundings → String → String → List String → Result TokenHookServiceError IssuedClaims
issue_claims w subject client scopes = ok_or invalid_subject (w.as_uuid subject) >>= λ user.
    map_err lookup_error (w.get_identity user) >>= λ identity.
    (if is_active identity then ok tt else err identity_inactive) >>= λ (_ : Unit {0}).
    ok_or identity_without_email (email identity) >>= λ address.
    (if w.require_verified_email && not (email_verified identity)
      then err email_not_verified
      else ok tt)
    >>= λ (_ : Unit {0}).
        handler_claims w.login_claims user address (email_verified identity) client scopes
        >>= λ claims. ok (record {
          access_token = with_email address (email_verified identity) claims;
          id_token = with_email address (email_verified identity) [];
        })

-- Hydra retries what is not a 403.
unfoldable pub status_of : TokenHookServiceError → ℕ
status_of invalid_subject = 403
status_of identity_not_found = 403
status_of identity_lookup_failed = 502
status_of identity_inactive = 403
status_of identity_without_email = 403
status_of email_not_verified = 403
status_of downstream_service_failed = 502
status_of (reserved_claim_overridden name) = 403
