-- ===== src/Bff/Gate/Access.antt =====
-- Who gets through to an upstream.
use weave_auth.Prelude.{
  Result, String, true, false, not, some, ◌≡◌, ◌⊎◌, inl, inr, refl, arith, ◌&&◌, ok, err,
  Bool-cases, Option-cases, Result-cases, text_key,
}
use mathlib.Core.Option
use weave_auth.Texts.{◌<>◌}
use weave_auth.Headers.{HeaderValue, to_str, get}
use weave_auth.Bff.Session.{SessionData}
use weave_auth.Bff.Storage.{get_session}
use weave_auth.Bff.Server.{AppState}
use weave_auth.Bff.Origin.{require_trusted_origin}
use weave_auth.Bff.Cookies.{extract_cookie}
use weave_auth.Bff.Proxy.{ProxyServiceError, Surroundings, resolve_bearer_token}
use weave_auth.Bff.Proxy.Refresh.{resolve_bearer_token-own}
use weave_auth.Bff.Gate.Paths.{is_clean_path}
use weave_auth.Bff.Gate.{
  answer_of, Gate, Request, Response, needs_trusted_origin, origin_headers, forward, forward_for,
  authenticate, is_trusted,
}

forward_ok :
    (gate : Gate) (req : Request) (token : Result ProxyServiceError String) (r : Response)
    → forward gate req token ≡ ok r
    → (t : String) × (token ≡ ok t)
      × (auth_value : HeaderValue) × (gate.parse ("Bearer " <> t) ≡ some auth_value)
      × (answer_of gate req (some auth_value) ≡ ok r)
unfolding forward
forward_ok gate req (err e) r h = cc
forward_ok gate req (ok t) r h = elim (Option-cases (gate.parse ("Bearer " <> t))) [
  | inl e ↦ ground (arith, h, e)
  | inr (v, e) ↦ (t, refl, v, e, ground (arith, h, e))
]

-- A request that reaches an upstream has a clean path, a trusted origin if it can change state, and the
-- cookie of a session that is in the store; it goes on with the access token of that session, and the
-- answer is the upstream's to it.
pub authenticate-forwarded :
    (w : Surroundings) (gate : Gate) (s : AppState) (req : Request) (r : Response)
    → (authenticate w gate s req).1 ≡ ok r
    → (is_clean_path gate.decode req.path ≡ true)
      × ((needs_trusted_origin req.method ≡ false)
          ⊎ (require_trusted_origin gate.origin_of (origin_headers req.headers) gate.trusted_origins
              ≡ ok tt))
      × (id : String) × (extract_cookie gate.decode
            (Option.map to_str (get req.headers "cookie"))
            gate.session_cookie
          ≡ some id)
      × (d : SessionData) × ((get_session s.sessions id ≡ some d)
          ⊎ (get_session (authenticate w gate s req).0.sessions id ≡ some d))
      × (auth_value : HeaderValue) × (gate.parse ("Bearer " <> d.access_token) ≡ some auth_value)
      × (answer_of gate req (some auth_value) ≡ ok r)
unfolding authenticate forward_for
authenticate-forwarded w gate s req r h =
    let cookie =
      extract_cookie gate.decode (Option.map to_str (get req.headers "cookie"))
        gate.session_cookie in
    let origin =
      require_trusted_origin gate.origin_of (origin_headers req.headers) gate.trusted_origins in
    elim (Bool-cases (is_clean_path gate.decode req.path)) [
      | inr e ↦ ground (arith, h, e)
      | inl clean ↦ elim (Bool-cases (needs_trusted_origin req.method && not (is_trusted origin))) [
        | inl e ↦ ground (arith, h, clean, e)
        | inr e ↦ elim (Option-cases cookie) [
          | inl none_sent ↦ ground (arith, h, clean, e, none_sent)
          | inr (id, sent) ↦
              let (t, got, v, parsed, answered) =
                forward_ok gate req (resolve_bearer_token w s id).1 r
                  (ground (arith, h, clean, e, sent)) in
              let (d, own, found) = resolve_bearer_token-own w s id t got in
              (
                clean,
                ground (arith, e, Result-cases origin),
                id,
                sent,
                d,
                ground (arith, found, clean, e, sent),
                v,
                ground (arith, parsed, own),
                answered,
              )
        ]
      ]
    ]
