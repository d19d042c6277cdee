-- ===== src/Login/Challenges.antt =====
-- login/src/challenges.rs: the logout and the consent challenges that Hydra hands the browser over
-- with. Hydra's and Kratos' answers are parameters; a page or a redirect stands for the response,
-- with the cookies that it sets.
pub mod Granting
mod Tests
use weave_auth.Prelude.{
  ℕ, String, Bool, true, false, not, Option, none, some, List, [], ◌∷◌, contains, ◌==◌,
  if◌then◌else◌, Result, ok, err, unwrap_or, text_key,
}

abbrev pub allowed_scopes : List String
allowed_scopes = "openid" ∷ "offline_access" ∷ []

pub record ConsentRequest : Type 0 where
  pub client_id : String
  pub requested_scope : List String
  pub requested_access_token_audience : List String

pub data Ungrantable : Type 0 where
  wrong_client : Ungrantable
  scope_not_allowed : String → Ungrantable

unfoldable pub find_not_allowed : List String → Option String
find_not_allowed [] = none
find_not_allowed (scope ∷ scopes) =
    if contains scope allowed_scopes then find_not_allowed scopes else some scope

unfoldable pub check_grantable : ConsentRequest → String → Result Ungrantable (Unit {0})
check_grantable r client_id =
    if not (r.client_id == client_id)
    then err wrong_client
    else elim (find_not_allowed r.requested_scope) [
      | some scope ↦ err (scope_not_allowed scope)
      | none ↦ ok tt
    ]

-- What Hydra is told, if anything.
pub data Told : Type 0 where
  nothing : Told
  granted : (scopes : List String) → (audience : List String) → Told
  rejected : Told
  logout_accepted : Told

pub data Response : Type 0 where
  error_page : (status : ℕ) → (cookies : List String) → Response
  redirect : String → (cookies : List String) → Response

pub record Surroundings : Type 0 where
  -- Hydra's answer to a look-up, `none` in the inner option if it has no such challenge and in the
  -- outer one if the call failed; for a logout, whether an application started it.
  pub consent_request : String → Option (Option ConsentRequest)
  pub logout_request : String → Option (Option Bool)
  -- Where Hydra sends the browser once it was told, `none` if that failed.
  pub tell : String → Told → Option String
  -- The cookies that Kratos clears with its session, `none` in the outer option if that failed.
  pub end_kratos_session : Option (Option (List String))
  pub bff_client_id : String

abbrev redirect_or_page : Option String → List String → Response
redirect_or_page none cookies = error_page 502 cookies
redirect_or_page (some to) cookies = redirect to cookies

abbrev pub answer_for : ConsentRequest → Result Ungrantable (Unit {0}) → Told
answer_for r (ok _) = granted r.requested_scope r.requested_access_token_audience
answer_for r (err e) = rejected

unfoldable pub consent_found :
    Surroundings → String → Option (Option ConsentRequest) → Told × Response
consent_found w challenge none = (nothing, error_page 502 [])
consent_found w challenge (some none) = (nothing, error_page 400 [])
consent_found w challenge (some (some r)) =
    let told = answer_for r (check_grantable r w.bff_client_id) in
    (told, redirect_or_page (w.tell challenge told) [])

unfoldable pub consent : Surroundings → Option String → Told × Response
consent w none = (nothing, error_page 400 [])
consent w (some challenge) = consent_found w challenge (w.consent_request challenge)

-- Kratos' failure does not stop the logout.
abbrev cleared_cookies : Surroundings → List String
cleared_cookies w = elim w.end_kratos_session [ none ↦ [] | some cookies ↦ unwrap_or [] cookies ]

-- Whether Kratos was asked to end the browser's session, what Hydra was told, and the response.
unfoldable pub logout_found : Surroundings → String → Option (Option Bool) → Bool × Told × Response
logout_found w challenge none = (false, nothing, error_page 502 [])
logout_found w challenge (some none) = (false, nothing, error_page 400 [])
logout_found w challenge (some (some rp_initiated)) =
    if rp_initiated
    then (
      true,
      logout_accepted,
      redirect_or_page (w.tell challenge logout_accepted) (cleared_cookies w),
    )
    else (false, nothing, error_page 400 [])

unfoldable pub logout : Surroundings → Option String → Bool × Told × Response
logout w none = (false, nothing, error_page 400 [])
logout w (some challenge) = logout_found w challenge (w.logout_request challenge)
