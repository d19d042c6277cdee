-- ===== src/Hooks/Webhook/Tests.antt =====
-- The reading of answers, run.
use weave_auth.Prelude.{
  ℕ, ◌≤◌, false, none, some, List, [], ◌∷◌, map, length, ltb, ◌≡◌, ◌↔◌, refl, ok, err, is_some_and,
}
use weave_auth.Hooks.Webhook.{
  is_refusal, post, notify_verified, read_chunks, Byte, HttpAnswer, max_response_bytes, status,
  too_large, read_limited, notify,
}
use weave_auth.Hooks.Webhook.Limit.{joined, read_limited_iff}

abbrev greeting : HttpAnswer
greeting = record {
  status = 200;
  content_length = some 3;
  chunks = some (104 ∷ 101 ∷ []) ∷ some (121 ∷ []) ∷ [];
}

webhook_runs : ℕ
unfolding read_limited read_chunks notify notify_verified post is_refusal
webhook_runs = 0

reads : read_limited greeting ≡ ok (104 ∷ 101 ∷ 121 ∷ [])
unfolding webhook_runs
reads = refl

refuses_a_large_one :
    read_limited (record greeting { content_length = some 1_048_577 }) ≡ err too_large
unfolding webhook_runs
refuses_a_large_one = refl

swallows_a_refusal :
    (notify (some (some (record greeting { status = 422 }))) ≡ ok tt)
    × (notify (some (some (record greeting { status = 429 }))) ≡ err (status 429))
    × (notify none ≡ ok tt)
unfolding webhook_runs
swallows_a_refusal = (refl, refl, refl)

read_limited_iff_example : (read_limited greeting ≡ ok (104 ∷ 101 ∷ 121 ∷ [])) ↔ (
    (is_some_and (λ n. ltb max_response_bytes n) greeting.content_length ≡ false)
    × (cs : List (List Byte)) × (greeting.chunks ≡ map some cs)
    × (◌≡◌ {A = List Byte} (104 ∷ 101 ∷ 121 ∷ []) (joined cs))
    × (length {A = Byte} (104 ∷ 101 ∷ 121 ∷ []) ≤ max_response_bytes))
read_limited_iff_example = read_limited_iff greeting (104 ∷ 101 ∷ 121 ∷ [])
