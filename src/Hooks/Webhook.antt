-- ===== src/Hooks/Webhook.antt =====
-- hooks/src/webhook.rs: the deployer's web hooks. Sending a request is the library's; what comes back is
-- an argument: nothing, or a status, a length if one is announced, and the chunks of the body, `none`
-- for one that could not be read.
pub mod Limit
mod Tests
use weave_auth.Prelude.{
  false, ◌*◌, ℕ, ◌+◌, Bool, not, Option, none, some, List, [], ◌∷◌, ◌++◌, ◌==◌, ◌&&◌, ◌||◌, leb,
  ltb, length, if◌then◌else◌, is_some_and, Result, ok, err, ok_or, map_err, ◌>>=◌, number_key,
}
use weave_auth.Json.{Json, Members, object}

abbrev pub Byte : Type 0
Byte = ℕ

pub record HttpAnswer : Type 0 where
  pub status : ℕ
  pub content_length : Option ℕ
  pub chunks : List (Option (List Byte))

abbrev pub max_response_bytes : ℕ
max_response_bytes = 1024 * 1024

pub data WebhookError : Type 0 where
  request : WebhookError
  status : ℕ → WebhookError
  body : WebhookError

-- The endpoint answered and said no.
unfoldable pub is_refusal : WebhookError → Bool
is_refusal (status s) = s == 400 || s == 403 || s == 422
is_refusal _ = false

pub data ReadError : Type 0 where
  too_large failed : ReadError

unfoldable pub read_chunks : List Byte → List (Option (List Byte)) → Result ReadError (List Byte)
read_chunks held [] = ok held
read_chunks held (none ∷ chunks) = err failed
read_chunks held (some chunk ∷ chunks) =
    let rest = read_chunks (held ++ chunk) chunks in
    if ltb max_response_bytes (length held + length chunk) then err too_large else rest

unfoldable pub read_limited : HttpAnswer → Result ReadError (List Byte)
read_limited r =
    if is_some_and (λ length. ltb max_response_bytes length) r.content_length
    then err too_large
    else read_chunks [] r.chunks

abbrev pub is_success : ℕ → Bool
is_success code = leb 200 code && ltb code 300

unfoldable pub post : Option HttpAnswer → Result WebhookError HttpAnswer
post none = err request
post (some r) = if is_success r.status then ok r else err (status r.status)

abbrev read_error : ReadError → WebhookError
read_error too_large = body
read_error failed = request

unfoldable pub json : (List Byte → Option Json) → HttpAnswer → Result WebhookError Json
json parse r = map_err read_error (read_limited r) >>= λ bytes. ok_or body (parse bytes)

unfoldable pub expect_object : Json → Result WebhookError Members
expect_object (object claims) = ok claims
expect_object _ = err body

unfoldable pub login_claims :
    (List Byte → Option Json) → Option HttpAnswer → Result WebhookError Members
login_claims parse answer = post answer >>= λ r. json parse r >>= expect_object

abbrev done : HttpAnswer → Result WebhookError (Unit {0})
done r = ok tt

unfoldable pub registration : Option HttpAnswer → Result WebhookError (Unit {0})
registration answer = post answer >>= done

unfoldable pub notify_verified : Option HttpAnswer → Result WebhookError (Unit {0})
notify_verified answer = post answer >>= done

-- `notify` of hooks/src/server/api/after_verification.rs: without a handler there is nothing to do, and
-- a refusal means nothing after the fact.
unfoldable pub notify : Option (Option HttpAnswer) → Result WebhookError (Unit {0})
notify none = ok tt
notify (some answer) = elim (notify_verified answer) [
  | ok _ ↦ ok tt
  | err e ↦ if is_refusal e then ok tt else err e
]
