-- ===== src/Bff/Endpoints/SignIn.antt =====
-- The cookies of a login: what /login sets, /callback reads, and what /callback sets, the proxy reads.
use weave_auth.Prelude.{
  String, Bool, true, false, Option, some, List, [], ◌∷◌, ◌++◌, map, ◌≡◌, refl, arith, ok, inl, inr,
  Result-cases, Option-cases,
}
use weave_auth.Texts.{has, has_prefix_in_any_case, is_whitespace, ◌<>◌}
use weave_auth.Texts.Laws.{is_unspaced}
use weave_auth.Bff.Server.{AppState}
use weave_auth.Bff.Redirects.{PendingLogin, start}
use weave_auth.Bff.Session.{SessionData}
use weave_auth.Bff.Storage.{get_session}
use weave_auth.Bff.Callback.Start.{complete-started}
use weave_auth.Bff.Callback.Stored.{IsUndisturbed, complete_session_id, complete-stored}
use weave_auth.Bff.Callback.{VerifiedIdToken, Surroundings, CallbackQuery, returned_of, complete}
use weave_auth.Bff.Cookies.{
  extract_cookie, build_cookie, cookie_name, has_name_prefix, login_cookie, to_cookie_value,
  from_cookie_value, login_cookie_max_age_secs, clear_cookie,
}
use weave_auth.Bff.Cookies.Reading.{pair_text, cookie_header, is_sent_name}
use weave_auth.Bff.Cookies.RoundTrip.{Survives, AreOthers, sent_back, extract_cookie-build_cookie}
use weave_auth.Bff.Endpoints.{
  Site, session_cookie, Response, start_login, pending_of, callback, see_other,
}

-- The header of a browser that holds a cookie that bff set, among others.
abbrev pub header_with :
    List (String × String) → String → List (String × String) → Option (Option String)
header_with before set_cookie after =
    some (some (cookie_header (map pair_text before ++ sent_back set_cookie ∷ map pair_text after)))

login_cookie_named : (secure : Bool) → is_sent_name (login_cookie secure) ≡ true
unfolding login_cookie cookie_name has_name_prefix has_prefix_in_any_case has is_unspaced
    is_whitespace ◌<>◌
login_cookie_named true = refl
login_cookie_named false = refl

-- What the libraries write of a login, they read back.
pub record IsReadBack (site : Site) (pending : PendingLogin) : Type 0 where
  pub parsed : site.codec.from_json (site.codec.to_json pending) ≡ some pending
  pub decoded :
      site.codec.decode64 (site.codec.encode64 (site.codec.to_json pending))
      ≡ some (site.codec.to_json pending)
  pub survives : Survives site.encode site.decode (to_cookie_value site.codec pending)

from_cookie_value-to_cookie_value :
    (site : Site) (p : PendingLogin)
    → IsReadBack site p
    → from_cookie_value site.codec (to_cookie_value site.codec p) ≡ some p
unfolding from_cookie_value to_cookie_value
from_cookie_value-to_cookie_value site p h = rw h.decoded h.parsed

-- The login that /login starts is the one that /callback finds in the browser's cookies, if the
-- libraries read back what they wrote of it.
pub pending_of-start_login :
    (site : Site) (state verifier nonce : String) (requested : Option String)
    (pending : PendingLogin)
    → start site.config state verifier nonce requested ≡ ok pending
    → IsReadBack site pending
    → (r : Response) × (start_login site state verifier nonce requested ≡ ok r)
      × (r.location ≡ some (site.authorize_url pending))
      × (set_cookie : String) × (r.set_cookies ≡ set_cookie ∷ [])
      × ((before after : List (String × String))
          → AreOthers (login_cookie site.secure_cookies) before
          → AreOthers (login_cookie site.secure_cookies) after
          → pending_of site (header_with before set_cookie after) ≡ some pending)
unfolding start_login pending_of see_other
pending_of-start_login site state verifier nonce requested pending e f =
    let secure = site.secure_cookies in
    let value = to_cookie_value site.codec pending in
    let name = login_cookie secure in
    let set_cookie =
      build_cookie site.encode site.shown name value "/" login_cookie_max_age_secs secure in
    (
      see_other (site.authorize_url pending) (set_cookie ∷ []),
      rw e,
      refl,
      set_cookie,
      refl,
      λ before after b a.
          let read =
            extract_cookie-build_cookie site.encode site.decode site.shown name value "/"
              login_cookie_max_age_secs secure f.survives before after (login_cookie_named secure) b
              a in
          rw read (from_cookie_value-to_cookie_value site pending f),
    )

-- A callback that succeeds has started a session for the user whose id_token it verified, and gives the
-- browser that session's id, under the name that the proxy reads, and empties the cookie of the login;
-- if that name is one that a browser sends, the values survive their percent encoding, the sessions that
-- were stored began before, the id is not the browser's old one, and nobody ends the session meanwhile.
pub callback-session :
    (w : Surroundings) (site : Site) (s : AppState) (cookie : Option (Option String))
    (query : CallbackQuery) (r : Response)
    → is_sent_name (session_cookie site) ≡ true
    → Survives site.encode site.decode w.session_id
    → Survives site.encode site.decode ""
    → IsUndisturbed w
        (w.while_exchanging s)
        (extract_cookie site.decode cookie (session_cookie site))
    → (callback w site s cookie query).1 ≡ ok r
    → (pending : PendingLogin) × (pending_of site cookie ≡ some pending)
      × (r.location ≡ some pending.redirect_uri)
      × (d : SessionData) × (v : VerifiedIdToken) × (w.verify_id_token d.id_token d.access_token
            pending.nonce
          ≡ some v)
      × (d.user_id ≡ v.user_id)
      × (get_session (callback w site s cookie query).0.sessions w.session_id ≡ some d)
      × (set_cookie cleared : String) × (r.set_cookies ≡ set_cookie ∷ cleared ∷ [])
      × ((before after : List (String × String))
          → AreOthers (session_cookie site) before
          → AreOthers (session_cookie site) after
          → extract_cookie site.decode (header_with before set_cookie after) (session_cookie site)
            ≡ some w.session_id)
      × ((before after : List (String × String))
          → AreOthers (login_cookie site.secure_cookies) before
          → AreOthers (login_cookie site.secure_cookies) after
          → extract_cookie site.decode
              (header_with before cleared after)
              (login_cookie site.secure_cookies)
            ≡ some "")
unfolding callback see_other complete clear_cookie
callback-session w site s cookie query r named kept emptied undisturbed h =
    let secure = site.secure_cookies in
    let previous = extract_cookie site.decode cookie (session_cookie site) in
    elim (Option-cases (pending_of site cookie)) [
      | inl e ↦ ground (arith, h, e)
      | inr (pending, e) ↦
          elim (Result-cases
            (complete w site.config s (some pending) (returned_of query) previous).1) [
              | inr (x, g) ↦ ground (arith, h, e, g)
              | inl (started, g) ↦
                  let (d, v, verified, user, stored) =
                    complete-stored w site.config s pending (returned_of query) previous started
                      undisturbed g in
                  let place =
                    (complete-started w site.config s pending (returned_of query) previous started
                      g).1 in
                  (
                    pending,
                    e,
                    ground (arith, h, e, g, place),
                    d,
                    v,
                    verified,
                    user,
                    ground (arith, e, stored),
                    build_cookie site.encode site.shown (session_cookie site) w.session_id "/"
                        started.session_max_age_secs secure,
                    clear_cookie site.encode site.shown (login_cookie secure) "/" secure,
                    ground (
                      arith,
                      h,
                      e,
                      g,
                      complete_session_id w site.config s pending (returned_of query) previous
                          started g,
                    ),
                    λ before after.
                        extract_cookie-build_cookie site.encode site.decode site.shown
                          (session_cookie site) w.session_id "/" started.session_max_age_secs secure
                          kept before after named,
                    λ before after.
                        extract_cookie-build_cookie site.encode site.decode site.shown
                          (login_cookie secure) "" "/" 0 secure emptied before after
                          (login_cookie_named secure),
                  )
            ]
    ]
